-- ===== src/Versions/Isolation.antt =====
-- What a writer's mark changes: nothing for other readers, and for the writer exactly the version
-- that it saw.
use ant_db.Common.{
  ◌+◌, ◌-◌, ◌≤◌, ◌≡◌, refl, ◌≢◌, true, false, none, some, List, [], ◌∷◌, ◌++◌, arith, All, contains,
}
use ant_db.Txn.{
  TransactionId, TransactionSnapshot, Transaction, TransactionHeader, is_deleted_by, is_visible,
  survives,
}
use ant_db.Versions.{
  Versioned, reader, is_seen, latest, mark_latest, modify_latest, remove_latest, replace_latest,
  view, count_visible,
}

-- A mark by an active transaction hides nothing from another reader that had not deleted the
-- version itself.
mark_other :
    (s : TransactionSnapshot) (t u : TransactionId) (h : TransactionHeader)
    → u ≢ t
    → contains t s.active_transaction ≡ true
    → s.smallest_active_transaction_id ≤ t
    → is_deleted_by h.deleted_by u ≡ false
    → is_visible h (reader s t) ≡ true
    → is_visible (record h { deleted_by = some t }) (reader s u) ≡ is_visible h (reader s u)
unfolding is_visible
mark_other s t u h ne act low mine seen = ground (arith, survives h.deleted_by (reader s u))

mark_self :
    (s : TransactionSnapshot) (t : TransactionId) (h : TransactionHeader)
    → is_visible (record h { deleted_by = some t }) (reader s t) ≡ false
unfolding is_visible
mark_self s t h = ground arith

module _ {V P : Type 0} (i : Versioned V P) where
  open i use {header, set_deleted_by, payload, header-set, payload-set}

  pub view-cons :
      (txn : Transaction) (v : V) (vs : List V)
      → view i txn (v ∷ vs) ≡ elim (view i txn vs) [
        | some p ↦ some p
        | none ↦ elim (is_seen i txn v) [ true ↦ some (payload v) | false ↦ none ]
      ]
  unfolding view latest
  view-cons txn v vs = ground arith

  pub view-append :
      (txn : Transaction) (vs : List V) (v : V)
      → view i txn (vs ++ v ∷ [])
        ≡ elim (is_seen i txn v) [ true ↦ some (payload v) | false ↦ view i txn vs ]
  view-append txn [] v = rw view-cons (unfold view latest in ground arith)
  view-append txn (w ∷ vs) v =
      ground (arith, view-cons txn w (vs ++ v ∷ []), view-append txn vs v, view-cons txn w vs)

  module _ (s : TransactionSnapshot) (t u : TransactionId) where
    -- The reader `u` has no open deletion of its own on the version.
    abbrev pub IsUntouched : V → Type 0
    IsUntouched v = is_deleted_by (header v).deleted_by u ≡ false

    seen_mark_other :
        (v : V)
        → u ≢ t
        → contains t s.active_transaction ≡ true
        → s.smallest_active_transaction_id ≤ t
        → IsUntouched v
        → is_seen i (reader s t) v ≡ true
        → is_seen i (reader s u) (set_deleted_by (some t) v) ≡ is_seen i (reader s u) v
    seen_mark_other v ne act low mine seen =
        rw (header-set (some t) v) (mark_other s t u (header v) ne act low mine seen)

    pub view-remove_other :
        (vs : List V)
        → u ≢ t
        → contains t s.active_transaction ≡ true
        → s.smallest_active_transaction_id ≤ t
        → All IsUntouched vs
        → view i (reader s u) (remove_latest i (reader s t) vs) ≡ view i (reader s u) vs
    unfolding remove_latest mark_latest modify_latest
    view-remove_other [] ne act low mine = refl
    view-remove_other (v ∷ vs) ne act low mine = ground (
      arith,
      view-remove_other vs ne act low mine.1,
      seen_mark_other v ne act low mine.0,
      payload-set (some t) v,
      view-cons (reader s u) v vs,
      view-cons (reader s u) v (mark_latest i (reader s t) vs).1,
      view-cons (reader s u) (set_deleted_by (some t) v) (mark_latest i (reader s t) vs).1,
    )

    -- Whatever an active transaction (at least as young as the oldest active mark) writes into a
    -- row or a column, with a fresh version of its own, every other reader that has no open deletion
    -- of its own there goes on reading what it read.
    pub view-replace_other :
        (new : V) (vs : List V)
        → u ≢ t
        → contains t s.active_transaction ≡ true
        → s.smallest_active_transaction_id ≤ t
        → All IsUntouched vs
        → header new ≡ record { created_by = t; deleted_by = none }
        → view i (reader s u) (replace_latest i (reader s t) new vs) ≡ view i (reader s u) vs
    unfolding replace_latest is_visible
    view-replace_other new vs ne act low mine e = ground (
      arith,
      view-remove_other vs ne act low mine,
      view-append (reader s u) (remove_latest i (reader s t) vs) new,
    )

  -- A writer reads its own write, if the version that it pushes carries its id and no deletion.
  pub view-replace_self :
      (s : TransactionSnapshot) (t : TransactionId) (new : V) (vs : List V)
      → header new ≡ record { created_by = t; deleted_by = none }
      → view i (reader s t) (replace_latest i (reader s t) new vs) ≡ some (payload new)
  unfolding replace_latest is_visible
  view-replace_self s t new vs e =
      ground (arith, view-append (reader s t) (remove_latest i (reader s t) vs) new)

  seen_mark_self :
      (s : TransactionSnapshot) (t : TransactionId) (v : V)
      → is_seen i (reader s t) (set_deleted_by (some t) v) ≡ false
  seen_mark_self s t v = rw (header-set (some t) v) (mark_self s t (header v))

  count_visible-mark :
      (s : TransactionSnapshot) (t : TransactionId) (vs : List V)
      → let (done, rest) = mark_latest i (reader s t) vs in
        (count_visible i (reader s t) rest + (elim done [ true ↦ 1 | false ↦ 0 ])
          ≡ count_visible i (reader s t) vs)
        × (done ≡ false → count_visible i (reader s t) vs ≡ 0)
  unfolding mark_latest modify_latest count_visible
  count_visible-mark s t [] = (omega arith, λ _. refl)
  count_visible-mark s t (v ∷ vs) = ground (arith, count_visible-mark s t vs, seen_mark_self s t v)

  -- `remove` takes away exactly one of the versions that the writer sees, if there is one.
  pub count_visible-remove :
      (s : TransactionSnapshot) (t : TransactionId) (vs : List V)
      → count_visible i (reader s t) (remove_latest i (reader s t) vs)
        ≡ count_visible i (reader s t) vs - 1
  unfolding remove_latest
  count_visible-remove s t vs = ground (arith, count_visible-mark s t vs)

  pub view-none_of_count :
      (txn : Transaction) (vs : List V) → count_visible i txn vs ≡ 0 → view i txn vs ≡ none
  unfolding count_visible
  view-none_of_count txn [] h = unfold view latest in refl
  view-none_of_count txn (v ∷ vs) h = ground (arith, view-none_of_count txn vs, view-cons txn v vs)

  -- A writer that sees at most one version sees none after its `remove`.
  pub view-remove_self :
      (s : TransactionSnapshot) (t : TransactionId) (vs : List V)
      → count_visible i (reader s t) vs ≤ 1
      → view i (reader s t) (remove_latest i (reader s t) vs) ≡ none
  view-remove_self s t vs h =
      view-none_of_count (reader s t) _ (omega (arith, count_visible-remove s t vs))
