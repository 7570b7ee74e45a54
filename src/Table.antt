-- ===== src/Table.antt =====
-- src/backend/core/table.rs: inserting and updating rows, with their validation and their index
-- entries. The reads of a validation are made on the pages as they are before it: which pages they
-- bring into memory is not followed, since a read changes the content of no page.
pub mod Validity
pub mod Writes
pub mod Scan
pub mod Walk
pub mod Lookup
pub mod Search
pub mod Queried
pub mod Vacuum
pub mod Indexes
use ant_db.Common.{
  ℕ, Bool, true, false, ◌&&◌, ◌||◌, Option, none, some, List, [], ◌∷◌, ◌==◌, if◌then◌else◌, NatMap,
  lookup, insert, not,
}
use ant_db.Errors.{
  DataBaseErrors, query_error, data_type_mismatch, Result, ok, err, ◌>>=◌, fail_if, ◌>>◌,
}
use ant_db.Txn.{Transaction}
use ant_db.Row.Entry.{
  DataBaseDataEntry, DataBaseDataType, Primitives, RowData, RowId, ColumnId, data_type, type_rank,
  type_name,
}
use ant_db.Row.{Row, new_row, update_row, get_versioned_row}
use ant_db.Column.{Column, InternalColumn, get_versioned_column, is_indexed, update_index}
use ant_db.Column.Validate.{FkLookup, schema_validation}
use ant_db.Pages.Defs.{PageId, Sizes}
use ant_db.Pages.{Space, fetch_add}
use ant_db.Pages.Rows.{page_for_row, get_row, change_row}
use ant_db.Pages.Insertion.{store_row}
use ant_db.Database.{Table}

-- `validate_data_type`
unfoldable pub validate_data_type : DataBaseDataEntry → DataBaseDataType → Bool → Bool
validate_data_type value expected nullable =
    (type_rank (data_type value) == type_rank expected)
    || (nullable && (type_rank (data_type value) == type_rank DataBaseDataType.null))

-- `data.get(&column_id).unwrap_or(&DataBaseDataEntry::Null)`
abbrev pub value_or_null : ColumnId → RowData → DataBaseDataEntry
value_or_null id values = elim (lookup id values) [
  | none ↦ DataBaseDataEntry.null
  | some value ↦ value
]

-- `effective_data.extend(…)`
unfoldable pub extend : RowData → RowData → RowData
extend values [] = values
extend values ((id, value) ∷ new_values) = extend (insert id value values) new_values

-- The values that `update_row` validates: the visible ones with the new ones put over them.
unfoldable pub effective_data : Transaction → RowData → Row → RowData
unfolding extend
effective_data txn values row = elim (get_versioned_row txn row) [
  | none ↦ extend [] values
  | some version ↦ extend version.row_data values
]

-- A read lock on a page whose write lock the same thread holds: `RwLock::read` blocks for ever or panics,
-- so the call does not come back. The model ends it with an error of its own.
abbrev pub self_lock : DataBaseErrors
self_lock = query_error "the page is locked by this call"

-- Whether the caller holds the write lock of the page: `update_row`, on the page of the row that it
-- updates. An insertion, with no row to exclude, holds none.
unfoldable pub holds_page : Option RowId → Space → PageId → Bool
holds_page none t page_id = false
holds_page (some row_id) t page_id = elim (lookup row_id t.row_locations) [
  | none ↦ false
  | some held ↦ held == page_id
]

module _ (p : Primitives) (sizes : Sizes) (fk : FkLookup) (txn : Transaction) where
  -- `with_versioned_column_entry` of a closure that takes the entry. Where the caller holds the lock of
  -- the page, as `update_row` does, the read does not come back.
  unfoldable pub versioned_column_entry :
      Option RowId → ColumnId → Space → RowId → Result (Option DataBaseDataEntry)
  unfolding page_for_row get_versioned_row holds_page
  versioned_column_entry updated id t row_id = elim (page_for_row sizes row_id t) [
    | err e ↦ err e
    | ok (page_id, page, u) ↦ elim (holds_page updated t page_id) [
      | true ↦ err self_lock
      | false ↦ elim (lookup row_id page.rows) [
        | none ↦ ok none
        | some row ↦ elim (get_versioned_row txn row) [
          | none ↦ ok none
          | some version ↦ ok (lookup id version.row_data)
        ]
      ]
    ]
  ]

  -- One round of the loop of `validate_row_data`
  unfoldable pub validate_column :
      RowData → Option RowId → Space → ColumnId → Column → Result (Unit {0})
  unfolding validate_data_type versioned_column_entry
  validate_column values exclude t id c = elim (get_versioned_column txn c) [
    | none ↦ ok tt
    | some version ↦
        let value = value_or_null id values in
        if validate_data_type value version.data_type version.is_nullable
        then schema_validation p (versioned_column_entry exclude id t) fk exclude c value txn
        else err (data_type_mismatch id (type_name version.data_type) (type_name (data_type value)))
  ]

  -- `validate_row_data`
  unfoldable pub validate_row_data :
      RowData → Option RowId → Space → NatMap Column → Result (Unit {0})
  unfolding validate_column
  validate_row_data values exclude t [] = ok tt
  validate_row_data values exclude t ((id, c) ∷ columns) =
      let rest = validate_row_data values exclude t columns in
      do validate_column values exclude t id c; rest

  -- One round of the loop of `update_indexes_for_row`
  unfoldable pub update_index_for_row : RowId → RowData → ColumnId → Column → Column
  update_index_for_row row_id values id c =
      if is_indexed txn c
      then elim (lookup id values) [ none ↦ c | some value ↦ update_index p id value row_id txn c ]
      else c

  -- `update_indexes_for_row`
  unfoldable pub update_indexes_for_row : RowId → RowData → NatMap Column → NatMap Column
  unfolding update_index_for_row
  update_indexes_for_row row_id values [] = []
  update_indexes_for_row row_id values ((id, c) ∷ columns) =
      (id, update_index_for_row row_id values id c) ∷ update_indexes_for_row row_id values columns

  -- `Table::insert_row`; an error leaves the table as it was.
  unfoldable pub insert_row : RowData → Table → Result (RowId × Table)
  unfolding validate_row_data update_indexes_for_row store_row new_row
  insert_row values t = do
    validate_row_data values none t.space t.columns
    let row_id = fetch_add t.next_row_id 1
    ok (
      row_id,
      record t {
        space = store_row sizes row_id (new_row txn values) t.space;
        columns = update_indexes_for_row row_id values t.columns;
        next_row_id = row_id;
      },
    )

  -- `Table::update_row`; after an error at most the residency of pages has changed.
  unfoldable pub update_table_row : RowId → RowData → Table → Result Table
  unfolding get_row change_row effective_data validate_row_data update_indexes_for_row
  update_table_row row_id values t = elim (get_row sizes row_id t.space) [
    | err e ↦ err e
    | ok (row, u) ↦ do
      validate_row_data (effective_data txn values row) (some row_id) u t.columns
      v ← change_row sizes row_id (update_row txn values) u
      ok (record t {
        space = v;
        columns = update_indexes_for_row row_id (effective_data txn values row) t.columns;
      })
  ]
