-- ===== src/Planner/AccessPaths.antt =====
-- What the choice of an index means (src/backend/core/plan/optimize.rs).
use ant_db.Common.{ap, ◌∙◌, ◌≡◌, inl, inr, true, false, none, some, arith, lookup, Option-cases}
use ant_db.Errors.{Text, ok, Result-cases}
use ant_db.Txn.{Transaction}
use ant_db.Row.Entry.{DataBaseDataEntry, Primitives, ColumnId}
use ant_db.Row.Entry.Order.{is_float}
use ant_db.Column.{Column, InternalColumn, get_versioned_column, is_indexed}
use ant_db.Column.Entries.{Index}
use ant_db.Copy.{to_ascii_lowercase}
use ant_db.Database.{Table, Database, get_table}
use ant_db.Search.{SearchExpression, RowEvaluationContext, equality_lookup, evaluate, resolve}
use ant_db.Search.Filters.{equality_lookup-evaluate}
use ant_db.Planner.{
  index_equality, column_is_indexed, column_named, get_visible_column_map,
  choose_filter_access_path,
}

-- The table has a visible column of that name, and the version that the transaction sees holds an index.
abbrev pub IsIndexedColumn : Text → Transaction → Table → Type 0
IsIndexedColumn name txn t =
    (id : ColumnId) × (c : Column) × (column_named (to_ascii_lowercase name)
        (get_visible_column_map txn t)
      ≡ some id)
    × (lookup id t.columns ≡ some c)
    × ((version : InternalColumn) × (index : Index) × (get_versioned_column txn c ≡ some version)
        × (version.index ≡ some index))

is_indexed-index :
    (txn : Transaction) (c : Column)
    → is_indexed txn c ≡ true
    → (version : InternalColumn) × (index : Index) × (get_versioned_column txn c ≡ some version)
      × (version.index ≡ some index)
unfolding is_indexed
is_indexed-index txn c h = elim (Option-cases (get_versioned_column txn c)) [
  | inl unseen ↦ absurd (ground arith)
  | inr (version, seen) ↦ elim (Option-cases version.index) [
    | inl bare ↦ absurd (ground arith)
    | inr (index, e) ↦ (version, index, seen, e)
  ]
]

column_is_indexed-IsIndexedColumn :
    (name : Text) (txn : Transaction) (t : Table)
    → column_is_indexed name txn t ≡ ok true
    → IsIndexedColumn name txn t
unfolding column_is_indexed
column_is_indexed-IsIndexedColumn name txn t h =
    elim (Option-cases (column_named (to_ascii_lowercase name) (get_visible_column_map txn t))) [
      | inl absent ↦ absurd (ground arith)
      | inr (id, named) ↦ elim (Option-cases (lookup id t.columns)) [
        | inl gone ↦ absurd (ground arith)
        | inr (c, found) ↦ (id, c, named, found, is_indexed-index txn c (ground arith))
      ]
    ]

chosen :
    (db : Database) (table_name name : Text) (value : DataBaseDataEntry) (e : SearchExpression)
    (txn : Transaction)
    → choose_filter_access_path db table_name (some e) txn ≡ ok (index_equality name value)
    → (equality_lookup e ≡ some (name, value))
      × ((t : Table) × (get_table table_name db ≡ some t)
          × (column_is_indexed name txn t ≡ ok true))
unfolding choose_filter_access_path
chosen db table_name name value e txn h = elim (Option-cases (equality_lookup e)) [
  | inl no_lookup ↦ absurd (ground arith)
  | inr ((n, v), found) ↦ elim (Option-cases (get_table table_name db)) [
    | inl missing ↦ absurd (ground arith)
    | inr (t, there) ↦ elim (Result-cases (column_is_indexed n txn t)) [
      | inl (indexed, asked) ↦
          let same : (n ≡ name) × (v ≡ value) × (indexed ≡ true) = ground arith in
          (rw (← same.0, ← same.1) found, (t, there, rw (← same.0) (asked ∙ ap ok same.2)))
      | inr (failure, failed) ↦ absurd (ground arith)
    ]
  ]
]

-- An index is chosen only for a table that is there and a visible column of it that holds an index, and
-- only for a value that the filter asks for: where the value is no float, every row that the filter lets
-- through has the value of the index lookup in that column. (Whether the index lists all those rows is
-- not said.)
pub choose_filter_access_path-index :
    (p : Primitives) (db : Database) (table_name name : Text) (value : DataBaseDataEntry)
    (e : SearchExpression) (txn : Transaction)
    → choose_filter_access_path db table_name (some e) txn ≡ ok (index_equality name value)
    → is_float value ≡ false
    → ((t : Table) × (get_table table_name db ≡ some t) × IsIndexedColumn name txn t)
      × ((ctx : RowEvaluationContext)
          → evaluate p ctx e ≡ ok true
          → resolve ctx none name ≡ ok value)
choose_filter_access_path-index p db table_name name value e txn h plain =
    let (found, (t, there, indexed)) = chosen db table_name name value e txn h in
    (
      (t, there, column_is_indexed-IsIndexedColumn name txn t indexed),
      λ ctx passed. equality_lookup-evaluate p ctx e name value found plain passed,
    )
