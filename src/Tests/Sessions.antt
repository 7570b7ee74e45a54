-- ===== src/Tests/Sessions.antt =====
-- Tables and statements.
use ant_db.Common.{ℕ, ◌≡◌, refl, true, none, some, [], ◌∷◌}
use ant_db.Errors.{Text, ok, err, query_error}
use ant_db.Txn.Lifecycle.{start, begin_state, Reach-IsWellFormed, here}
use ant_db.Database.{Table, Database, new_database, drop_table, find_table, get_table}
use ant_db.Connection.{Handler, Action, execute_transactional}
use ant_db.Connection.Statements.{LeavesNone, execute_transactional-LeavesNone}
use ant_db.Row.Entry.{compare_list}
use ant_db.Versions.{reader, latest}
use ant_db.Txn.{is_visible}
use ant_db.Column.{get_versioned_column, is_indexed}
use ant_db.Search.{
  RowEvaluationContext, SearchExpression, column, literal, comparison, equal, equality_lookup,
  evaluate, resolve,
}
use ant_db.Planner.{
  choose_filter_access_path, column_is_indexed, visible_columns, get_visible_column_map,
}
use ant_db.Planner.AccessPaths.{IsIndexedColumn, choose_filter_access_path-index}
use ant_db.Tests.Columns.{numbers, seven}
use ant_db.Tests.{no_pages, snap, prims}

-- `Table::new`, with no pages and no columns.
abbrev empty_table : ℕ → Table
empty_table id = record { table_id = id; space = no_pages; columns = []; next_row_id = 0 }

abbrev users : Text
users = b'u' ∷ []

abbrev orders : Text
orders = b'o' ∷ []

abbrev with_users : Database
with_users = record new_database { tables = (users, empty_table 0) ∷ []; next_table_id = 1 }

-- A statement that drops a table, and one that fails behind it.
abbrev drop_users : Action ℕ
drop_users t db = (ok 0, drop_table users db)

abbrev drop_and_fail : Action ℕ
drop_and_fail t db = (err (query_error "failed"), drop_table users db)

-- One connection, 7, without a transaction.
abbrev idle : Handler
idle = record { db = with_users; active_transactions = [] }

-- The connection 7 has begun transaction 1.
abbrev opened : Handler
opened = record {
  db = record with_users { transactions = begin_state start };
  active_transactions = (7, 1) ∷ [];
}

execute_transactional-LeavesNone_example :
    LeavesNone idle
      (execute_transactional 7 drop_users idle).0
      (execute_transactional 7 drop_users idle).1
unfolding drop_table
execute_transactional-LeavesNone_example =
    execute_transactional-LeavesNone 7 drop_users idle (λ t db. refl) (Reach-IsWellFormed here) refl

-- The table u with the indexed column n.
abbrev with_numbers : Database
with_numbers = record with_users {
  tables =
      (users, record (empty_table 0) { columns = (0, record { versions = numbers ∷ [] }) ∷ [] })
      ∷ [];
}

-- `n = 7`
abbrev is_seven : SearchExpression
is_seven = comparison (column (b'n' ∷ [])) equal (literal seven)

choose_filter_access_path-index_example :
    ((t : Table) × (get_table users with_numbers ≡ some t)
      × IsIndexedColumn (b'n' ∷ []) (reader snap 3) t)
    × ((ctx : RowEvaluationContext)
        → evaluate prims ctx is_seven ≡ ok true
        → resolve ctx none (b'n' ∷ []) ≡ ok seven)
unfolding choose_filter_access_path get_table find_table compare_list column_is_indexed
    get_visible_column_map visible_columns equality_lookup is_indexed get_versioned_column latest
    is_visible
choose_filter_access_path-index_example =
    choose_filter_access_path-index prims with_numbers users (b'n' ∷ []) seven is_seven
      (reader snap 3) refl refl
