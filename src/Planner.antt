-- ===== src/Planner.antt =====
-- src/backend/core/plan/optimize.rs: the access path of a filter, with the column lookups of
-- src/backend/core/table.rs that it asks.
pub mod AccessPaths
use ant_db.Common.{
  ℕ, Bool, true, false, Option, none, some, List, [], ◌∷◌, NatMap, lookup, if◌then◌else◌,
}
use ant_db.Errors.{Text, query_error, table_not_found, Result, ok, err, ◌>>=◌, ok_or}
use ant_db.Txn.{Transaction}
use ant_db.Row.Entry.{DataBaseDataEntry, ColumnId}
use ant_db.Column.{Column, get_versioned_column, is_indexed}
use ant_db.Copy.{text_eq, to_ascii_lowercase}
use ant_db.Database.{Table, Database, get_table}
use ant_db.Search.{SearchExpression, equality_lookup}

pub data AccessPath : Type 0 where
  seq_scan : AccessPath
  index_equality : (column_name : Text) → (value : DataBaseDataEntry) → AccessPath

-- A `HashMap` from names: of two insertions of a name the later one, which stands first, counts.
abbrev pub ColumnMap : Type 0
ColumnMap = List (Text × ColumnId)

abbrev pub column_named : Text → ColumnMap → Option ColumnId
column_named name [] = none
column_named name ((n, id) ∷ m) = if text_eq n name then some id else column_named name m

-- The loop of `get_visible_column_map`.
unfoldable pub visible_columns : Transaction → NatMap Column → ColumnMap → ColumnMap
visible_columns txn [] seen = seen
visible_columns txn ((id, c) ∷ cs) seen = elim (get_versioned_column txn c) [
  | none ↦ visible_columns txn cs seen
  | some version ↦ visible_columns txn cs ((to_ascii_lowercase version.name, id) ∷ seen)
]

-- `Table::get_visible_column_map`
unfoldable pub get_visible_column_map : Transaction → Table → ColumnMap
unfolding visible_columns
get_visible_column_map txn t = visible_columns txn t.columns []

-- `Table::column_is_indexed`
unfoldable pub column_is_indexed : Text → Transaction → Table → Result Bool
unfolding get_visible_column_map
column_is_indexed name txn t = do
  id ←
      ok_or (column_named (to_ascii_lowercase name) (get_visible_column_map txn t))
        (query_error "Column not found")
  c ← ok_or (lookup id t.columns) (query_error "Column not found")
  ok (is_indexed txn c)

-- `choose_filter_access_path`
unfoldable pub choose_filter_access_path :
    Database → Text → Option SearchExpression → Transaction → Result AccessPath
unfolding column_is_indexed
choose_filter_access_path db table_name none txn = ok seq_scan
choose_filter_access_path db table_name (some filter) txn = elim (equality_lookup filter) [
  | none ↦ ok seq_scan
  | some (column_name, value) ↦ do
    table ← ok_or (get_table table_name db) (table_not_found table_name)
    indexed ← column_is_indexed column_name txn table
    if indexed then ok (index_equality column_name value) else ok seq_scan
]
