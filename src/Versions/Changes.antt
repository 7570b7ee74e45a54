-- ===== src/Versions/Changes.antt =====
-- What a reader finds after a change of the last version that it sees: the loops over
-- `versions.iter_mut().rev()` of src/backend/core/column.rs.
use mathlib.Core.Path.{subst}
use ant_db.Common.{
  ◌≡◌, refl, true, false, Option, none, some, List, [], ◌∷◌, arith, inl, inr, Option-cases,
  Bool-cases, All,
}
use ant_db.Txn.{Transaction}
use ant_db.Versions.{Versioned, is_seen, latest, modify_latest, remove_latest, mark_latest}

module _ {V P : Type 0} (i : Versioned V P) (txn : Transaction) where
  open i use {header}

  abbrev pub changed : (V → V) → Option V → Option V
  changed f none = none
  changed f (some v) = some (f v)

  done-modify_latest :
      (f : V → V) (vs : List V)
      → (modify_latest i txn f vs).0 ≡ elim (latest i txn vs) [ none ↦ false | some _ ↦ true ]
  unfolding modify_latest latest
  done-modify_latest f [] = refl
  done-modify_latest f (v ∷ vs) = elim (Option-cases (latest i txn vs)) [
    | inl e ↦ ground (arith, done-modify_latest f vs)
    | inr (w, e) ↦ ground (arith, done-modify_latest f vs)
  ]

  -- A change that leaves the header of the version that the reader sees alone is what the reader finds.
  pub latest-modify_latest :
      (f : V → V) (vs : List V)
      → ((v : V) → latest i txn vs ≡ some v → header (f v) ≡ header v)
      → latest i txn (modify_latest i txn f vs).1 ≡ changed f (latest i txn vs)
  unfolding modify_latest latest
  latest-modify_latest f [] same = refl
  latest-modify_latest f (v ∷ vs) same =
      let rest = latest-modify_latest f vs in
      elim (Option-cases (latest i txn vs)) [
        | inl e ↦ elim (Bool-cases (is_seen i txn v)) [
          | inl seen ↦ ground (
            arith,
            done-modify_latest f vs,
            rest (λ w h. absurd (ground arith)),
            same v (ground arith),
          )
          | inr unseen ↦
              ground (arith, done-modify_latest f vs, rest (λ w h. absurd (ground arith)))
        ]
        | inr (w, e) ↦
            ground (arith, done-modify_latest f vs, rest (λ v' h. same v' (ground arith)))
      ]

  -- What holds of all versions holds after a change that keeps it, and of the one that the reader sees.
  pub modify_latest-All :
      (Q : V → Type 0) (f : V → V) (vs : List V)
      → ((v : V) → Q v → Q (f v))
      → All Q vs
      → All Q (modify_latest i txn f vs).1
  unfolding modify_latest
  modify_latest-All Q f [] keep h = tt
  modify_latest-All Q f (v ∷ vs) keep (hv, h) = elim (Bool-cases (modify_latest i txn f vs).0) [
    | inl done ↦ rw (done) (hv, modify_latest-All Q f vs keep h)
    | inr open_still ↦ elim (Bool-cases (is_seen i txn v)) [
      | inl seen ↦ rw (open_still, seen) (keep v hv, modify_latest-All Q f vs keep h)
      | inr unseen ↦ rw (open_still, unseen) (hv, modify_latest-All Q f vs keep h)
    ]
  ]

  pub remove_latest-All :
      (Q : V → Type 0) (vs : List V)
      → ((v : V) → Q v → Q (i.set_deleted_by (some txn.transaction_id) v))
      → All Q vs
      → All Q (remove_latest i txn vs)
  unfolding remove_latest mark_latest
  remove_latest-All Q vs keep h =
      modify_latest-All Q (i.set_deleted_by (some txn.transaction_id)) vs keep h

  pub latest-All :
      (Q : V → Type 0) (vs : List V) (v : V) → All Q vs → latest i txn vs ≡ some v → Q v
  unfolding latest
  latest-All Q [] v h e = absurd (ground arith)
  latest-All Q (w ∷ vs) v (hw, h) e = elim (Option-cases (latest i txn vs)) [
    | inr (u, found) ↦ latest-All Q vs v h (ground arith)
    | inl none_behind ↦ elim (Bool-cases (is_seen i txn w)) [
      | inl seen ↦ subst Q (ground arith) hw
      | inr unseen ↦ absurd (ground arith)
    ]
  ]
