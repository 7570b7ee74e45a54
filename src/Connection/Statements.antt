-- ===== src/Connection/Statements.antt =====
-- What a statement leaves of its transaction (src/backend/core/pg_wire.rs).
use ant_db.Common.{
  ℕ, if◌then◌else◌, ◌==◌, lookup, ◌≡◌, refl, true, false, none, some, List, [], ◌∷◌, arith,
  contains, insert_key, remove_key,
}
use ant_db.Errors.{Result, ok, err, is_ok}
use ant_db.Txn.{TransactionId, Transaction, begin_txn, commit_txn, rollback_txn}
use ant_db.Txn.Lifecycle.{IsWellFormed, begin_state, commit_state, rollback_state}
use ant_db.Txn.Visibility.{IsCommitted}
use ant_db.Errors.{Text, query_error}
use ant_db.Row.Entry.{ColumnId}
use ant_db.Column.{rollback_column}
use ant_db.Pages.Rows.{rollback_pages}
use ant_db.Database.{
  Table, find_table, Database, create_transaction, commit_transaction, rollback_transaction,
  as_transaction,
}
use ant_db.Connection.{
  Handler, Action, connection_transaction, transaction_for_query, end_statement,
  execute_transactional, commit_connection_transaction,
}

-- The action changes tables only: the transaction state is behind the database's own lock.
abbrev pub KeepsTransactions : {R : Type 0} → Action R → Type 0
KeepsTransactions action =
    (t : Transaction) (db : Database) → (action t db).1.transactions ≡ db.transactions

remove_key_absent : (a : ℕ) (xs : List ℕ) → contains a xs ≡ false → remove_key a xs ≡ xs
remove_key_absent a [] h = refl
remove_key_absent a (x ∷ xs) h = ground (arith, remove_key_absent a xs)

pub remove_key-insert_key :
    (a : ℕ) (xs : List ℕ) → contains a xs ≡ false → remove_key a (insert_key a xs) ≡ xs
remove_key-insert_key a [] h = ground arith
remove_key-insert_key a (x ∷ xs) h =
    ground (arith, remove_key-insert_key a xs, remove_key_absent a xs)

abbrev pub active : Handler → List ℕ
active h = h.db.transactions.snapshot.active_transaction

-- The statement's own transaction is over, and counts as committed exactly if the statement succeeded.
abbrev pub LeavesNone {ℓ} : {R : Type ℓ} → Handler → Result R → Handler → Type 0
LeavesNone h result u =
    let id = h.db.transactions.next_transaction_id in
    (active u ≡ active h)
    × (u.active_transactions ≡ h.active_transactions)
    × (is_ok result ≡ true → IsCommitted u.db.transactions.snapshot id)
    × (is_ok result ≡ false → ¬ IsCommitted u.db.transactions.snapshot id)

module _ {R : Type 0} (addr : ℕ) (h : Handler) (w : IsWellFormed h.db.transactions) where
  end_statement-LeavesNone :
      (result : Result R) (g : Handler)
      → g.db.transactions ≡ begin_state h.db.transactions
      → g.active_transactions ≡ h.active_transactions
      → LeavesNone h result (end_statement addr h.db.transactions.next_transaction_id true result g)
  unfolding end_statement commit_transaction rollback_transaction begin_state commit_state
      rollback_state begin_txn commit_txn rollback_txn
  end_statement-LeavesNone (ok r) g begun same =
      let id = h.db.transactions.next_transaction_id in
      let ids = h.db.transactions.snapshot.active_transaction in
      let unused : contains id ids ≡ false = ground (arith, w.active_issued id) in
      let back = remove_key-insert_key id ids unused in
      (rw (begun, back) refl, same, λ yes. (omega arith, rw (begun, back) unused), λ no. cc)
  end_statement-LeavesNone (err e) g begun same =
      let id = h.db.transactions.next_transaction_id in
      let ids = h.db.transactions.snapshot.active_transaction in
      let unused : contains id ids ≡ false = ground (arith, w.active_issued id) in
      let back = remove_key-insert_key id ids unused in
      (
        rw (begun, back) refl,
        same,
        λ yes. cc,
        λ no committed.
            let last_kept : g.db.transactions.snapshot.last_possible_transaction_id
                ≡ h.db.transactions.snapshot.last_possible_transaction_id =
              rw begun refl in
            omega (arith, w.last_issued, last_kept, committed.0),
      )

transaction_for_query_closed :
    (addr : ℕ) (h : Handler)
    → connection_transaction addr h ≡ none
    → transaction_for_query addr h
      ≡ (let (id, db) = create_transaction h.db in ((id, true), record h { db = db }))
unfolding transaction_for_query
transaction_for_query_closed addr h closed = rw (closed, transaction_for_query) refl

-- A table after the rollback of a transaction: every row in memory and every column is rolled back.
abbrev pub IsRolledBack : TransactionId → Table → Table → Type 0
IsRolledBack id t u =
    (u.table_id ≡ t.table_id)
    × (u.space ≡ rollback_pages id t.space)
    × ((column : ColumnId)
        → lookup column u.columns
          ≡ elim (lookup column t.columns) [ none ↦ none | some c ↦ some (rollback_column id c) ])

-- The same tables by the same names, each of them rolled back
abbrev pub AreRolledBack : TransactionId → Database → Database → Type 0
AreRolledBack id db u =
    (name : Text) (t : Table)
    → find_table name db.tables ≡ some t
    → (v : Table) × (find_table name u.tables ≡ some v) × IsRolledBack id t v

-- What an open transaction comes to when its statement has given a result: with a success it stays
-- open over what the statement has left, and with an error it is over.
abbrev pub IsContinued {ℓ} :
    {R : Type ℓ} → ℕ → TransactionId → Handler → Result R → Database → Handler → Type 0
IsContinued addr id h (ok _) db u =
    (connection_transaction addr u ≡ some id)
    × (u.db ≡ db)
    × ((other : ℕ) → connection_transaction other u ≡ connection_transaction other h)
IsContinued addr id h (err _) db u =
    AreRolledBack id db u.db
    × (contains id (active u) ≡ false)
    × (u.db.transactions.snapshot.last_possible_transaction_id
        ≡ db.transactions.snapshot.last_possible_transaction_id)
    × ((other : ℕ)
        → connection_transaction other u
          ≡ (if addr == other then none else connection_transaction other h))
    × (commit_connection_transaction addr u
        ≡ (err (query_error "No active transaction to commit"), u))

module _ {R : Type 0} (addr : ℕ) (action : Action R) (h : Handler) where
  -- A statement of a connection with no open transaction, whose action keeps the transaction state,
  -- leaves no transaction behind: the active transactions and the connections' transactions are what
  -- they were, and the statement's own transaction counts as committed exactly if the statement
  -- succeeded.
  pub execute_transactional-LeavesNone :
      KeepsTransactions action
      → IsWellFormed h.db.transactions
      → connection_transaction addr h ≡ none
      → let (result, u) = execute_transactional addr action h in LeavesNone h result u
  unfolding execute_transactional create_transaction
  execute_transactional-LeavesNone keeps w closed =
      let (id, db) = create_transaction h.db in
      rw (transaction_for_query_closed addr h closed) (
        end_statement-LeavesNone addr h w (action (as_transaction id db) db).0
          (record h { db = (action (as_transaction id db) db).1 }) (keeps (as_transaction id db) db)
          refl)
