-- ===== src/Versions/LostDelete.antt =====
-- Two deletions of one version in src/backend/core/row.rs: `remove` overwrites the first one's mark, and
-- `rollback_transaction` of the second clears it.
use ant_db.Common.{◌≤◌, ◌≡◌, ◌≢◌, true, none, some, [], ◌∷◌, arith, contains}
use ant_db.Txn.{TransactionId, TransactionSnapshot, is_visible, survives}
use ant_db.Versions.{
  Versioned, reader, is_seen, mark_latest, remove_latest, modify_latest, undo, rollback,
}

module _ {V P : Type 0} (i : Versioned V P) where
  open i use {header, set_deleted_by, header-set, set-set, set_self}

  -- Two transactions delete the same version, which nobody had deleted and both see, the first of them
  -- active and at least as young as the oldest active mark. When the second, which did not create the
  -- version, rolls back, the version is exactly as before both deletions: the first deletion is lost.
  pub rollback-remove_twice :
      (s : TransactionSnapshot) (a b : TransactionId) (v : V)
      → a ≢ b
      → contains a s.active_transaction ≡ true
      → s.smallest_active_transaction_id ≤ a
      → (header v).deleted_by ≡ none
      → (header v).created_by ≢ b
      → is_seen i (reader s a) v ≡ true
      → is_seen i (reader s b) v ≡ true
      → rollback i b (remove_latest i (reader s b) (remove_latest i (reader s a) (v ∷ []))) ≡ v ∷ []
  unfolding rollback remove_latest mark_latest modify_latest undo is_visible
  rollback-remove_twice s a b v ne act low fresh other seen_a seen_b = ground (
    arith,
    header-set (some a) v,
    header-set (some b) (set_deleted_by (some a) v),
    set-set (some b) (some a) v,
    set-set none (some b) v,
    set_self v,
    survives (header v).deleted_by (reader s b),
  )
