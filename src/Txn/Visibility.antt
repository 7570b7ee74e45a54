-- ===== src/Txn/Visibility.antt =====
-- Transactions that a snapshot counts as committed, as `TransactionHeader::is_visible` asks it.
use ant_db.Common.{ℕ, ◌≤◌, ◌≡◌, false, contains}
use ant_db.Txn.{TransactionSnapshot}

-- A transaction whose effects the snapshot counts as committed.
abbrev pub IsCommitted : TransactionSnapshot → ℕ → Type 0
IsCommitted s id =
    (id ≤ s.last_possible_transaction_id) × (contains id s.active_transaction ≡ false)
