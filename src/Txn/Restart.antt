-- ===== src/Txn/Restart.antt =====
-- The transaction state after a restart (`Database::load_from_snapshot` of src/backend/core/database.rs).
use ant_db.Common.{ℕ, ◌-◌, ◌≡◌, refl, true, [], arith, contains}
use ant_db.Txn.Lifecycle.{TxnState, IsWellFormed}
use ant_db.Txn.Visibility.{IsCommitted}

-- The snapshot that is made for a loaded `next_transaction_id`; `saturating_sub` stops at 0.
unfoldable pub load_from_snapshot : ℕ → TxnState
load_from_snapshot next_transaction_id =
    let last_committed = next_transaction_id - 1 in
    record {
      snapshot = record {
        smallest_active_transaction_id = last_committed;
        last_possible_transaction_id = last_committed;
        active_transaction = [];
      };
      next_transaction_id = next_transaction_id;
    }

-- A restart loads a well-formed state in which every transaction that had committed still counts as
-- committed; but one that was active when the state was saved counts as committed as well.
pub load_from_snapshot-IsCommitted :
    (s : TxnState)
    → IsWellFormed s
    → let t = load_from_snapshot s.next_transaction_id in
      IsWellFormed t
      × ((b : ℕ) → IsCommitted s.snapshot b → IsCommitted t.snapshot b)
      × ((a : ℕ) → contains a s.snapshot.active_transaction ≡ true → IsCommitted t.snapshot a)
unfolding load_from_snapshot
load_from_snapshot-IsCommitted s w = (
  record {
    last_issued = omega (arith, w.last_issued);
    smallest_issued = omega (arith, w.last_issued);
    active_issued = λ a h. cc;
    smallest_le = λ a h. cc;
    last_ended = refl;
  },
  λ b c. (omega (arith, w.last_issued, c.0), refl),
  λ a h. (omega (arith, w.active_issued a h), refl),
)
