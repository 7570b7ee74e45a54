-- ===== src/Table/Indexes.antt =====
-- src/backend/core/table.rs: columns and their indexes, from `create_column` to `drop_column`. An
-- operation gives the table that it leaves also where it fails.
pub mod Entered
pub mod Building
pub mod Backed
pub mod Creation
use ant_db.Common.{
  ℕ, zero, suc, ◌%◌, ◌^◌, ◌+◌, Bool, true, false, Option, none, some, List, [], ◌∷◌, if◌then◌else◌,
  NatMap, lookup, insert, keys,
}
use ant_db.Errors.{Text, query_error, index_not_found, column_not_found, Result, ok, err}
use ant_db.Txn.{Transaction}
use ant_db.Row.Entry.{DataBaseDataType, Primitives, RowId, ColumnId}
use ant_db.Column.{
  Column, new_column, remove_column, update_column, get_versioned_column, ensure_index_ready,
  is_indexed, index_row, drop_index,
}
use ant_db.Column.Constraints.{Constraint, extend_constraints}
use ant_db.Copy.{to_ascii_lowercase, text_eq}
use ant_db.Pages.Defs.{Sizes}
use ant_db.Pages.Rows.{page_for_row}
use ant_db.Planner.{ColumnMap, column_named, get_visible_column_map}
use ant_db.Database.{Table}

-- A `BTreeMap` from the names of indexes to columns, by name only: of two insertions the later one,
-- which stands first, counts.
abbrev pub without_name : Text → ColumnMap → ColumnMap
without_name name [] = []
without_name name ((n, id) ∷ m) =
    let rest = without_name name m in if text_eq n name then rest else (n, id) ∷ rest

-- A table with the fields that the definition of columns changes
pub record DefinedTable : Type 0 where
  pub table : Table
  pub index_names : ColumnMap
  pub next_column_id : ColumnId

abbrev pub set_column : ColumnId → Column → Table → Table
set_column id c t = record t { columns = insert id c t.columns }

-- `index_names.insert(…)`, where the statement names the index
abbrev pub name_index : Option Text → ColumnId → ColumnMap → ColumnMap
name_index none id names = names
name_index (some name) id names =
    (to_ascii_lowercase name, id) ∷ without_name (to_ascii_lowercase name) names

module _ (txn : Transaction) where
  -- `get_versioned_constraints(…).unwrap_or_default()` with the extra ones
  abbrev pub merged_constraints : List Constraint → Column → List Constraint
  merged_constraints extra c = elim (get_versioned_column txn c) [
    | none ↦ extend_constraints [] extra
    | some version ↦ extend_constraints version.constraints extra
  ]

  -- `is_column_indexed`
  unfoldable pub is_column_indexed : Text → Table → Result Bool
  unfolding get_visible_column_map
  is_column_indexed name t =
      elim (column_named (to_ascii_lowercase name) (get_visible_column_map txn t)) [
        | none ↦ ok false
        | some id ↦ elim (lookup id t.columns) [
          | none ↦ err (query_error "Column not found while checking index")
          | some c ↦ ok (is_indexed txn c)
        ]
      ]

  -- The column of `drop_column_index`: that of the index name, or else the visible one of the name
  abbrev pub index_column : Text → DefinedTable → Option ColumnId
  unfolding get_visible_column_map
  index_column normalized d = elim (column_named normalized d.index_names) [
    | some id ↦ some id
    | none ↦ column_named normalized (get_visible_column_map txn d.table)
  ]

  -- `drop_column_index`
  unfoldable pub drop_column_index : Text → DefinedTable → Result (Unit {0}) × DefinedTable
  unfolding drop_index
  drop_column_index index_name d = elim (index_column (to_ascii_lowercase index_name) d) [
    | none ↦ (err (index_not_found index_name), d)
    | some id ↦ elim (lookup id d.table.columns) [
      | none ↦ (err (query_error "Column not found while dropping index"), d)
      | some c ↦ elim (drop_index txn c) [
        | err e ↦ (err e, d)
        | ok dropped ↦ (
          ok tt,
          record d {
            table = set_column id dropped d.table;
            index_names = without_name (to_ascii_lowercase index_name) d.index_names;
          },
        )
      ]
    ]
  ]

  -- `drop_column`
  unfoldable pub drop_column : ColumnId → Table → Result (Unit {0}) × Table
  unfolding remove_column
  drop_column id t = elim (lookup id t.columns) [
    | none ↦ (err (column_not_found id), t)
    | some c ↦ (ok tt, set_column id (remove_column txn c) t)
  ]

module _ (p : Primitives) (sizes : Sizes) (txn : Transaction) where
  -- The loop of `build_column_index_from_rows` over the ids of the rows
  unfoldable pub index_rows : ColumnId → List RowId → ℕ → Table → Result ℕ × Table
  unfolding page_for_row index_row
  index_rows id [] indexed t = (ok indexed, t)
  index_rows id (row_id ∷ row_ids) indexed t = elim (page_for_row sizes row_id t.space) [
    | err e ↦ (err e, t)
    | ok (page_id, page, u) ↦ elim (lookup row_id page.rows) [
      | none ↦ index_rows id row_ids indexed (record t { space = u })
      | some row ↦ elim (lookup id t.columns) [
        | none ↦ (err (query_error "Column not found while building index"), record t { space = u })
        | some c ↦
            let (done, changed) = index_row p row_id row txn c in
            index_rows id row_ids (if done then suc indexed else indexed)
              (set_column id changed (record t { space = u }))
      ]
    ]
  ]

  -- `build_column_index_from_rows`, and `build_column_index_if_needed`, which drops the count
  unfoldable pub build_column_index_from_rows : ColumnId → Table → Result ℕ × Table
  unfolding index_rows ensure_index_ready
  build_column_index_from_rows id t = elim (lookup id t.columns) [
    | none ↦ (err (query_error "Column not found while building index"), t)
    | some c ↦ elim (is_indexed txn c) [
      | false ↦ (ok 0, t)
      | true ↦ elim (ensure_index_ready txn c) [
        | err e ↦ (err e, t)
        | ok ready ↦ index_rows id (keys t.space.row_locations) 0 (set_column id ready t)
      ]
    ]
  ]

  -- `create_column`
  unfoldable pub create_column :
      Text → DataBaseDataType → List Constraint → DefinedTable → Result ColumnId × DefinedTable
  unfolding new_column build_column_index_from_rows
  create_column name data_type constraints d =
      let id = d.next_column_id in
      let column = new_column id name data_type constraints txn in
      let (result, t) = build_column_index_from_rows id (set_column id column d.table) in
      (
        elim result [ err e ↦ err e | ok _ ↦ ok id ],
        record d { table = t; next_column_id = (id + 1) % 2 ^ 16 },
      )

  -- `add_column_constraints`
  unfoldable pub add_column_constraints :
      ColumnId → List Constraint → Table → Result (Unit {0}) × Table
  unfolding update_column build_column_index_from_rows
  add_column_constraints id extra t = elim (lookup id t.columns) [
    | none ↦ (err (query_error "Column not found while applying table constraints"), t)
    | some c ↦
        let updated = update_column none none (some (merged_constraints txn extra c)) txn c in
        let (result, u) = build_column_index_from_rows id (set_column id updated t) in
        (elim result [ err e ↦ err e | ok _ ↦ ok tt ], u)
  ]

  -- `create_column_index`
  unfoldable pub create_column_index : Option Text → Text → DefinedTable → Result ℕ × DefinedTable
  unfolding get_visible_column_map build_column_index_from_rows
  create_column_index index_name column_name d =
      elim (column_named (to_ascii_lowercase column_name) (get_visible_column_map txn d.table)) [
        | none ↦ (err (query_error "Column not found"), d)
        | some id ↦
            let (result, t) = build_column_index_from_rows id d.table in
            elim result [
              | err e ↦ (err e, record d { table = t })
              | ok indexed ↦ (
                ok indexed,
                record d { table = t; index_names = name_index index_name id d.index_names },
              )
            ]
      ]
