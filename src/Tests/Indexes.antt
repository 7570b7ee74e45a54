-- ===== src/Tests/Indexes.antt =====
-- Building and dropping indexes on the table of two rows.
use ant_db.Common.{◌≡◌, refl, none, some, [], ◌∷◌, true, arith, List, Option, ◌&&◌, contains}
use ant_db.Errors.{ok, err, index_not_found, Text}
use ant_db.Row.{get_versioned_row}
use ant_db.Column.{InternalColumn, Column, get_versioned_column}
use ant_db.Row.Entry.{DataBaseDataType, ColumnId}
use ant_db.Column.Constraints.{Constraint}
use ant_db.Pages.Rows.{row_at}
use ant_db.Database.{Table}
use ant_db.Table.Indexes.{
  DefinedTable, build_column_index_from_rows, create_column_index, drop_column_index, create_column,
  add_column_constraints, drop_column,
}
use ant_db.Table.Indexes.Entered.{shows_key}
use ant_db.Table.Indexes.Building.{IsBuilt, build_column_index_from_rows-IsBuilt}
use ant_db.Table.Indexes.Backed.{IsBackedTable, set_column-IsBackedTable}
use ant_db.Table.Indexes.Creation.{create_column_index-inert, definitions-IsBackedTable}
use ant_db.Tests.{prims}
use ant_db.Tests.Columns.{numbers}
use ant_db.Tests.Storage.{sizes, space, space-IsSynced, old_row, new_row}
use ant_db.Tests.Tables.{txn, table}

-- The unique column of numbers, before its index is built
abbrev unbuilt : InternalColumn
unbuilt = record numbers { index = some []; index_added_by = [] }

abbrev unbuilt_column : Column
unbuilt_column = record { versions = unbuilt ∷ [] }

abbrev unbuilt_table : Table
unbuilt_table = record table { columns = (0, unbuilt_column) ∷ [] }

build_column_index_from_rows-IsBuilt_example :
    IsBuilt prims sizes txn 0
      (λ k r. contains r (1 ∷ 2 ∷ []) && shows_key prims txn 0 k (row_at r space))
      space
      (build_column_index_from_rows prims sizes txn 0 unbuilt_table)
unfolding row_at get_versioned_column ant_db.Versions.latest ant_db.Txn.is_visible
build_column_index_from_rows-IsBuilt_example =
    build_column_index_from_rows-IsBuilt prims sizes txn 0 unbuilt_table unbuilt_column unbuilt refl
      refl refl space-IsSynced ((old_row, refl), ((new_row, refl), tt))

-- A column of numbers without a constraint
abbrev plain : InternalColumn
plain = record numbers { constraints = []; index = none; index_added_by = []; is_nullable = true }

abbrev plain_column : Column
plain_column = record { versions = plain ∷ [] }

abbrev plain_table : DefinedTable
plain_table = record {
  table = record table { columns = (0, plain_column) ∷ [] };
  index_names = [];
  next_column_id = 1;
}

plain_table-IsBackedTable : IsBackedTable plain_table.table
plain_table-IsBackedTable =
    set_column-IsBackedTable 0 plain_column (record table { columns = [] }) (refl, tt)
      (λ id c e. absurd (ground arith))

abbrev by_number : Text
by_number = b'i' ∷ []

create_column_index-inert_example :
    (create : DefinedTable) × (create_column_index prims sizes txn
        (some by_number)
        (b'N' ∷ [])
        plain_table
      ≡ (ok 0, create))
    × (create.table ≡ plain_table.table)
    × (drop_column_index txn by_number create ≡ (err (index_not_found (b'n' ∷ [])), create))
unfolding get_versioned_column ant_db.Versions.latest ant_db.Txn.is_visible
    ant_db.Planner.get_visible_column_map ant_db.Planner.visible_columns
    ant_db.Row.Entry.compare_list
create_column_index-inert_example =
    create_column_index-inert prims sizes txn by_number (b'N' ∷ []) plain_table 0 plain_column plain
      plain_table-IsBackedTable refl refl refl refl

definitions-IsBackedTable_example :
    ((name : Text) (type : DataBaseDataType) (cs : List Constraint)
      → IsBackedTable (create_column prims sizes txn name type cs plain_table).1.table)
    × ((id : ColumnId) (cs : List Constraint)
        → IsBackedTable (add_column_constraints prims sizes txn id cs plain_table.table).1)
    × ((index_name : Option Text) (column : Text)
        → IsBackedTable (create_column_index prims sizes txn index_name column plain_table).1.table)
    × ((name : Text) → IsBackedTable (drop_column_index txn name plain_table).1.table)
    × ((id : ColumnId) → IsBackedTable (drop_column txn id plain_table.table).1)
definitions-IsBackedTable_example =
    definitions-IsBackedTable prims sizes txn plain_table plain_table-IsBackedTable
