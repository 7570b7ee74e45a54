-- ===== src/Tests/Tables.antt =====
-- Inserting, updating and finding rows of a table.
use ant_db.Common.{◌≡◌, refl, none, some, List, [], ◌∷◌, ◌==◌, if◌then◌else◌, arith}
use ant_db.Errors.{Result, ok}
use ant_db.Txn.{Transaction}
use ant_db.Versions.{reader}
use ant_db.Row.Entry.{RowData, RowId, key}
use ant_db.Row.{new_row}
use ant_db.Column.{Column, get_versioned_column}
use ant_db.Column.Validate.{
  schema_validation, version_validation, check_unique, check_constraint, check_rows,
}
use ant_db.Pages.{fetch_add}
use ant_db.Pages.Rows.{row_at}
use ant_db.Pages.Insertion.{store_row}
use ant_db.Database.{Table}
use ant_db.Table.{
  validate_row_data, validate_column, validate_data_type, insert_row, update_indexes_for_row,
}
use ant_db.Table.Validity.{IsValidRow}
use ant_db.Table.Writes.{insert_row-row_at}
use ant_db.Table.Scan.{for_each_visible_row, fold_rows, visible_rows}
use ant_db.Table.Walk.{IsWalked, for_each_visible_row-IsWalked}
use ant_db.Tests.{prims, snap, data_at}
use ant_db.Tests.Columns.{numbers, no_keys}
use ant_db.Tests.Storage.{
  sizes, space, space-IsSynced, unlimited, unlimited-IsNumbered, page_0, page_1,
}
use ant_db.Tests.Storage

abbrev pub txn : Transaction
txn = reader snap 3

abbrev pub column : Column
column = record { versions = numbers ∷ [] }

-- A unique column of numbers, and the rows 1 and 2, the second on an evicted page.
abbrev pub table : Table
table = record { table_id = 0; space = space; columns = (0, column) ∷ []; next_row_id = 2 }

abbrev pub resident : Table
resident = record table { space = unlimited }

nine-valid :
    validate_row_data prims sizes no_keys txn (data_at 9) none unlimited ((0, column) ∷ []) ≡ ok tt
unfolding validate_row_data validate_column validate_data_type schema_validation version_validation
    check_unique check_constraint check_rows key get_versioned_column ant_db.Versions.latest
    ant_db.Txn.is_visible
nine-valid = refl

abbrev inserted : Table
unfolding store_row update_indexes_for_row new_row
inserted = record {
  table_id = 0;
  space = store_row sizes 3 (new_row txn (data_at 9)) unlimited;
  columns = update_indexes_for_row prims sizes no_keys txn 3 (data_at 9) ((0, column) ∷ []);
  next_row_id = 3;
}

nine-inserted : insert_row prims sizes no_keys txn (data_at 9) resident ≡ ok (3, inserted)
unfolding insert_row
nine-inserted = ground (arith, nine-valid)

insert_row-row_at_example :
    (3 ≡ fetch_add 2 1)
    × (inserted.next_row_id ≡ 3)
    × IsValidRow prims sizes no_keys txn (data_at 9) none unlimited ((0, column) ∷ [])
    × ((j : RowId)
        → row_at j inserted.space
          ≡ (if 3 == j then some (new_row txn (data_at 9)) else row_at j unlimited))
insert_row-row_at_example =
    insert_row-row_at prims sizes no_keys txn (data_at 9) resident inserted 3 refl
      unlimited-IsNumbered (omega arith) nine-inserted

-- The ids of the rows that the walk meets.
abbrev push : RowId → RowData → List RowId → Result (List RowId)
push row_id row_data ids = ok (row_id ∷ ids)

for_each_visible_row-IsWalked_example :
    IsWalked sizes txn push space
      (for_each_visible_row sizes txn push [] space)
      (fold_rows sizes txn push (visible_rows sizes txn space) [])
for_each_visible_row-IsWalked_example =
    for_each_visible_row-IsWalked sizes txn push [] space space-IsSynced
      ((page_0, refl), ((page_1, refl), tt))
