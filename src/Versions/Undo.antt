-- ===== src/Versions/Undo.antt =====
-- `rollback_transaction` against `update` and `remove`.
use ant_db.Common.{◌≡◌, refl, ◌≢◌, true, false, none, some, List, [], ◌∷◌, ◌++◌, arith, All, ap}
use ant_db.Txn.{TransactionId, TransactionSnapshot, is_deleted_by, is_visible}
use ant_db.Versions.{
  Versioned, reader, is_seen, mark_latest, remove_latest, replace_latest, view, undo, rollback,
}
use ant_db.Versions.Isolation.{view-append}

module _ {V P : Type 0} (i : Versioned V P) where
  open i use {header, set_deleted_by, payload, header-set, payload-set, set-set, set_self}

  module _ (s : TransactionSnapshot) (t : TransactionId) where
    -- Nothing of `t` is in the version yet, and what `t` sees has no open deletion by another.
    pub record IsFree (v : V) : Type 0 where
      pub created : (header v).created_by ≢ t
      pub deleted : is_deleted_by (header v).deleted_by t ≡ false
      pub undeleted : is_seen i (reader s t) v ≡ true → (header v).deleted_by ≡ none

    undo_free : (v : V) → IsFree v → undo i t v ≡ v
    unfolding undo
    undo_free v f = ground (arith, f.created, f.deleted)

    undo_mark :
        (v : V)
        → IsFree v
        → is_seen i (reader s t) v ≡ true
        → undo i t (set_deleted_by (some t) v) ≡ v
    unfolding undo
    undo_mark v f seen = ground (
      arith,
      f.created,
      f.undeleted seen,
      header-set (some t) v,
      set-set none (some t) v,
      set_self v,
    )

    -- Rolling a deletion back restores the versions, if nothing in them was of the transaction before
    -- and what it saw had no open deletion by another.
    pub rollback-remove :
        (vs : List V) → All IsFree vs → rollback i t (remove_latest i (reader s t) vs) ≡ vs
    unfolding rollback remove_latest mark_latest
    rollback-remove [] f = refl
    rollback-remove (v ∷ vs) f =
        ground (arith, rollback-remove vs f.1, undo_free v f.0, undo_mark v f.0)

    undo_new :
        (new : V)
        → header new ≡ record { created_by = t; deleted_by = none }
        → undo i t new ≡ set_deleted_by (some t) new
    unfolding undo
    undo_new new e = ground (arith, header-set (some t) new)

    map-append_one :
        (vs : List V) (v : V) → rollback i t (vs ++ v ∷ []) ≡ rollback i t vs ++ undo i t v ∷ []
    unfolding rollback
    map-append_one [] v = refl
    map-append_one (w ∷ vs) v = ap (◌∷◌ (undo i t w)) (map-append_one vs v)

    -- Rolling an update back leaves the old versions as they were, and behind them the new version,
    -- which its own creator is recorded to have deleted.
    pub rollback-replace :
        (new : V) (vs : List V)
        → All IsFree vs
        → header new ≡ record { created_by = t; deleted_by = none }
        → rollback i t (replace_latest i (reader s t) new vs)
          ≡ vs ++ set_deleted_by (some t) new ∷ []
    unfolding replace_latest
    rollback-replace new vs f e = rw (map-append_one, rollback-remove vs f, undo_new new e) refl

  dead_visible :
      (s : TransactionSnapshot) (t u : TransactionId)
      → u ≢ t
      → is_visible (record { created_by = t; deleted_by = some t }) (reader s u) ≡ false
  unfolding is_visible
  dead_visible s t u ne = ground arith

  -- After a rollback of an update, every other transaction reads, under any later snapshot, what it
  -- would read had the update never been made; if nothing in the versions was of the updating
  -- transaction before, and what it saw had no open deletion by another.
  pub view-rollback-replace :
      (s s' : TransactionSnapshot) (t u : TransactionId) (new : V) (vs : List V)
      → u ≢ t
      → All (IsFree s t) vs
      → header new ≡ record { created_by = t; deleted_by = none }
      → view i (reader s' u) (rollback i t (replace_latest i (reader s t) new vs))
        ≡ view i (reader s' u) vs
  view-rollback-replace s s' t u new vs ne f e = rw (rollback-replace s t new vs f e) (
      ground (
        arith,
        view-append i (reader s' u) vs (set_deleted_by (some t) new),
        header-set (some t) new,
        dead_visible s' t u ne,
      ))
