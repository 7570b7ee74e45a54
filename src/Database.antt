-- ===== src/Database.antt =====
-- src/backend/core/database.rs: the tables by name, and the transactions over them. A table is its page
-- space and its columns (src/backend/core/table.rs).
pub mod Tables
use ant_db.Common.{
  ℕ, ◌+◌, ◌≡◌, refl, Bool, true, false, not, ◌&&◌, Option, none, some, List, [], ◌∷◌, ◌++◌, ◌==◌,
  if◌then◌else◌, NatMap, lookup, map_values,
}
use ant_db.Errors.{Text, DataBaseErrors, table_already_exists, Result, ok, err}
use ant_db.Txn.{TransactionId, TransactionSnapshot, Transaction, default_snapshot}
use ant_db.Txn.Lifecycle.{TxnState, start, begin_state, commit_state, rollback_state}
use ant_db.Versions.{reader}
use ant_db.Column.{Column, rollback_column}
use ant_db.Column.Constraints.{TableId}
use ant_db.Pages.{Space}
use ant_db.Pages.Rows.{rollback_pages}
use ant_db.Copy.{text_eq, to_ascii_lowercase}
use ant_db.Row.Entry.{RowId, compare_list, is_lt}

pub record Table : Type 0 where
  pub table_id : TableId
  pub space : Space
  pub columns : NatMap Column
  pub next_row_id : RowId

-- `Table::rollback_transaction`
unfoldable pub rollback_table : TransactionId → Table → Table
rollback_table id t = record t {
  columns = map_values (rollback_column id) t.columns;
  space = rollback_pages id t.space;
}

-- The tables by name, in the order in which the map is walked.
abbrev pub TableMap : Type 0
TableMap = List (Text × Table)

pub record Database : Type 0 where
  pub tables : TableMap
  pub next_table_id : ℕ
  pub transactions : TxnState

-- `Database::new`
abbrev pub new_database : Database
new_database = record { tables = []; next_table_id = 0; transactions = start }

unfoldable pub find_table : Text → TableMap → Option Table
find_table name [] = none
find_table name ((n, t) ∷ m) = if text_eq n name then some t else find_table name m

-- `iter().find(|(key, _)| key.to_ascii_lowercase() == requested)`
unfoldable pub find_lowercase : Text → TableMap → Option Table
find_lowercase requested [] = none
find_lowercase requested ((n, t) ∷ m) =
    if text_eq (to_ascii_lowercase n) requested then some t else find_lowercase requested m

-- `Database::get_table`
unfoldable pub get_table : Text → Database → Option Table
unfolding find_table find_lowercase
get_table name db = elim (find_table name db.tables) [
  | some t ↦ some t
  | none ↦ find_lowercase (to_ascii_lowercase name) db.tables
]

-- `BTreeMap::insert` of a name that is not there: the names ascend.
unfoldable pub put_table : Text → Table → TableMap → TableMap
put_table name t [] = (name, t) ∷ []
put_table name t ((n, u) ∷ m) =
    let rest = put_table name t m in
    if is_lt (compare_list name n) then (name, t) ∷ (n, u) ∷ m else (n, u) ∷ rest

-- `Database::create_table`, given the table that `Table::new` makes of an id.
unfoldable pub create_table : (TableId → Table) → Text → Database → Result TableId × Database
create_table make name db = elim (find_table name db.tables) [
  | some _ ↦ (err (table_already_exists name), db)
  | none ↦ (
    ok db.next_table_id,
    record db {
      tables = put_table name (make db.next_table_id) db.tables;
      next_table_id = db.next_table_id + 1;
    },
  )
]

-- `Database::drop_table`
unfoldable pub remove_table : Text → TableMap → TableMap
remove_table name [] = []
remove_table name ((n, t) ∷ m) =
    let rest = remove_table name m in if text_eq n name then rest else (n, t) ∷ rest

unfoldable pub drop_table : Text → Database → Database
unfolding remove_table
drop_table name db = record db { tables = remove_table name db.tables }

-- A transaction as it reads now: its snapshot is the database's.
abbrev pub as_transaction : TransactionId → Database → Transaction
as_transaction id db = reader db.transactions.snapshot id

-- `Database::create_transaction`
unfoldable pub create_transaction : Database → TransactionId × Database
create_transaction db =
    (db.transactions.next_transaction_id, record db { transactions = begin_state db.transactions })

-- `Database::commit_transaction`
unfoldable pub commit_transaction : TransactionId → Database → Database
commit_transaction id db = record db { transactions = commit_state id db.transactions }

abbrev pub rollback_tables : TransactionId → TableMap → TableMap
rollback_tables id [] = []
rollback_tables id ((n, t) ∷ m) = (n, rollback_table id t) ∷ rollback_tables id m

-- `Database::rollback_transaction`
unfoldable pub rollback_transaction : TransactionId → Database → Database
rollback_transaction id db = record db {
  tables = rollback_tables id db.tables;
  transactions = rollback_state id db.transactions;
}
