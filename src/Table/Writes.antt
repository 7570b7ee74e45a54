-- ===== src/Table/Writes.antt =====
-- Inserting and updating rows of a table (src/backend/core/table.rs).
use ant_db.Common.{◌+◌, ◌<◌, ◌≡◌, ap, inl, inr, none, some, ◌==◌, if◌then◌else◌, arith}
use ant_db.Errors.{Result, ok, err, Result-cases}
use ant_db.Txn.{Transaction}
use ant_db.Row.Entry.{Primitives, RowData, RowId}
use ant_db.Row.{Row, new_row, update_row}
use ant_db.Column.Validate.{FkLookup}
use ant_db.Pages.Defs.{Sizes, u64_mod}
use ant_db.Pages.{Space, fetch_add}
use ant_db.Pages.Eviction.{IsSynced}
use ant_db.Pages.Rows.{row_at}
use ant_db.Pages.Insertion.{div_ceil, store_row}
use ant_db.Pages.Insertion.Store.{IsNumbered, row_at-store_row}
use ant_db.Database.{Table}
use ant_db.Table.{validate_row_data, insert_row, effective_data, update_table_row}
use ant_db.Table.Validity.{IsValidRow, validate_row_data-IsValidRow}

module _ (p : Primitives) (sizes : Sizes) (fk : FkLookup) (txn : Transaction) where
  -- An insertion that succeeds has validated the row, gives it the id behind the last one, stores it
  -- under that id as one version of the transaction, and leaves every other row as it was. (Eviction
  -- is off, the pages are in the order of their ids, all ids in use were issued, and page ids do not
  -- run out.)
  pub insert_row-row_at :
      (values : RowData) (t u : Table) (row_id : RowId)
      → t.space.memory_limit ≡ 0
      → IsNumbered t.space
      → t.space.next_page_id + div_ceil (sizes.row_bytes (new_row txn values)) t.space.page_size + 1
        < u64_mod
      → insert_row p sizes fk txn values t ≡ ok (row_id, u)
      → (row_id ≡ fetch_add t.next_row_id 1)
        × (u.next_row_id ≡ row_id)
        × IsValidRow p sizes fk txn values none t.space t.columns
        × ((j : RowId)
            → row_at j u.space
              ≡ (if row_id == j then some (new_row txn values) else row_at j t.space))
  unfolding insert_row
  insert_row-row_at values t u row_id off n room h =
      elim (Result-cases (validate_row_data p sizes fk txn values none t.space t.columns)) [
        | inr (failure, e) ↦ absurd (ground arith)
        | inl (_, e) ↦
            let id = fetch_add t.next_row_id 1 in
            let same_space : u.space ≡ store_row sizes id (new_row txn values) t.space =
              ground arith in
            let stored = row_at-store_row sizes id (new_row txn values) t.space off n room in
            (
              ground arith,
              ground arith,
              validate_row_data-IsValidRow p sizes fk txn values none t.space t.columns e,
              λ j. ground (arith, stored j, ap (row_at j) same_space),
            )
      ]

  -- What an update achieves when the validation has given a result.
  abbrev pub IsUpdated : RowId → RowData → Table → Row → Space → Result (Unit {0}) → Type 0
  IsUpdated row_id values t row u (err e) = update_table_row p sizes fk txn row_id values t ≡ err e
  IsUpdated row_id values t row u (ok _) =
      (v : Table) × (update_table_row p sizes fk txn row_id values t ≡ ok v)
      × IsValidRow p sizes fk txn (effective_data txn values row) (some row_id) u t.columns
      × IsSynced v.space
      × ((j : RowId)
          → row_at j v.space
            ≡ (if row_id == j then some (update_row txn values row) else row_at j t.space))
