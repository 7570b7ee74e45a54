-- ===== src/Connection.antt =====
-- src/backend/core/pg_wire.rs, `PgWireHandler`: the transactions of the connections. A socket address is a
-- number. One handler call at a time: its locks are granted and nothing runs in between.
pub mod Statements
pub mod Blocks
use ant_db.Common.{
  ℕ, ◌≡◌, refl, Bool, true, false, Option, none, some, List, [], ◌∷◌, NatMap, lookup, insert, erase,
  if◌then◌else◌,
}
use ant_db.Errors.{DataBaseErrors, query_error, Result, ok, err}
use ant_db.Txn.{TransactionId, Transaction}
use ant_db.Database.{
  Database, create_transaction, commit_transaction, rollback_transaction, as_transaction,
}

pub record Handler : Type 0 where
  pub db : Database
  pub active_transactions : NatMap TransactionId

-- `connection_transaction_at`
abbrev pub connection_transaction : ℕ → Handler → Option TransactionId
connection_transaction addr h = lookup addr h.active_transactions

-- `create_connection_transaction_at`
unfoldable pub create_connection_transaction : ℕ → Handler → Result TransactionId × Handler
create_connection_transaction addr h = elim (connection_transaction addr h) [
  | some _ ↦ (err (query_error "Transaction already in progress"), h)
  | none ↦
      let (id, db) = create_transaction h.db in
      (ok id, record { db = db; active_transactions = insert addr id h.active_transactions })
]

-- `commit_connection_transaction_at`
unfoldable pub commit_connection_transaction : ℕ → Handler → Result (Unit {0}) × Handler
commit_connection_transaction addr h = elim (connection_transaction addr h) [
  | none ↦ (err (query_error "No active transaction to commit"), h)
  | some id ↦ (
    ok tt,
    record {
      db = commit_transaction id h.db;
      active_transactions = erase addr h.active_transactions;
    },
  )
]

-- `rollback_connection_transaction_at`
unfoldable pub rollback_connection_transaction : ℕ → Handler → Result (Unit {0}) × Handler
rollback_connection_transaction addr h = elim (connection_transaction addr h) [
  | none ↦ (err (query_error "No active transaction to rollback"), h)
  | some id ↦ (
    ok tt,
    record {
      db = rollback_transaction id h.db;
      active_transactions = erase addr h.active_transactions;
    },
  )
]

-- `transaction_for_query_at`: the transaction, and whether it ends with the statement.
unfoldable pub transaction_for_query : ℕ → Handler → (TransactionId × Bool) × Handler
transaction_for_query addr h = elim (connection_transaction addr h) [
  | some id ↦ ((id, false), h)
  | none ↦ let (id, db) = create_transaction h.db in ((id, true), record h { db = db })
]

-- What a statement does: it reads as a transaction, and changes the tables.
abbrev pub Action : Type 0 → Type 0
Action R = Transaction → Database → Result R × Database

-- The end of `execute_transactional_at`.
unfoldable pub end_statement {ℓ} :
    {R : Type ℓ} → ℕ → TransactionId → Bool → Result R → Handler → Handler
end_statement addr id true (ok _) h = record h { db = commit_transaction id h.db }
end_statement addr id true (err _) h = record h { db = rollback_transaction id h.db }
end_statement addr id false (ok _) h = h
end_statement addr id false (err _) h = record {
  db = rollback_transaction id h.db;
  active_transactions = erase addr h.active_transactions;
}

-- `execute_transactional_at`
unfoldable pub execute_transactional : {R : Type 0} → ℕ → Action R → Handler → Result R × Handler
unfolding transaction_for_query end_statement
execute_transactional addr action h =
    let (t, h1) = transaction_for_query addr h in
    let (result, db) = action (as_transaction t.0 h1.db) h1.db in
    (result, end_statement addr t.0 t.1 result (record h1 { db = db }))
