-- ===== src/Connection/Blocks.antt =====
-- BEGIN, COMMIT and ROLLBACK of a connection (src/backend/core/pg_wire.rs).
use ant_db.Common.{ℕ, ◌≡◌, none, insert, erase}
use ant_db.Txn.{TransactionId}
use ant_db.Database.{create_transaction, commit_transaction, rollback_transaction}
use ant_db.Connection.{Handler, connection_transaction}
use ant_db.Connection.Statements.{active}

-- What the end of a block leaves: no transaction of the connection, and the active ids from before it.
abbrev pub IsEnded : ℕ → Handler → Handler → Type 0
IsEnded addr h u = (connection_transaction addr u ≡ none) × (active u ≡ active h)

-- The handler after BEGIN, COMMIT and ROLLBACK that succeed.
abbrev after_begin : ℕ → Handler → Handler
after_begin addr h = record {
  db = (create_transaction h.db).1;
  active_transactions = insert addr h.db.transactions.next_transaction_id h.active_transactions;
}

abbrev after_commit : ℕ → TransactionId → Handler → Handler
after_commit addr id h = record {
  db = commit_transaction id h.db;
  active_transactions = erase addr h.active_transactions;
}

abbrev after_rollback : ℕ → TransactionId → Handler → Handler
after_rollback addr id h = record {
  db = rollback_transaction id h.db;
  active_transactions = erase addr h.active_transactions;
}
