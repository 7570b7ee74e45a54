-- ===== src/Table/Indexes/Entered.antt =====
-- What indexing one row leaves in the index of a column (src/backend/core/column.rs, `index_row`).
use ant_db.Common.{
  ℕ, ◌≡◌, refl, ap, ◌∙◌, Bool, true, false, ◌&&◌, ◌||◌, Option, none, some, ◌==◌, lookup, arith,
  inl, inr, Option-cases,
}
use ant_db.Txn.{Transaction}
use ant_db.Row.Entry.{Primitives, RowId, ColumnId, key}
use ant_db.Row.{Row, get_versioned_row}
use ant_db.Column.{
  Column, InternalColumn, column_versioned, get_versioned_column, index_row, version_index_row,
  version_is_indexed,
}
use ant_db.Column.Entries.{leads_to-index_insert}
use ant_db.Column.Rollback.{finds}
use ant_db.Versions.Changes.{changed, latest-modify_latest}

pub merge_tests :
    (f e c s s' : Bool)
    → (e ≡ true → s ≡ s')
    → ((f || (e && s)) || (c && s')) ≡ (f || ((e || c) && s'))
merge_tests true e c s s' h = refl
merge_tests false false c s s' h = refl
merge_tests false true false s s' h = rw (h refl) (ground arith)
merge_tests false true true s s' h = rw (h refl) (ground arith)

module _ (p : Primitives) (txn : Transaction) where
  -- Whether the row shows the transaction a value with the key in the column.
  abbrev pub shows_key : ColumnId → ℕ → Option Row → Bool
  shows_key id k none = false
  shows_key id k (some row) = elim (get_versioned_row txn row) [
    | none ↦ false
    | some version ↦ elim (lookup id version.row_data) [
      | none ↦ false
      | some value ↦ key p value == k
    ]
  ]

  pub header-version_index_row :
      (row_id : RowId) (row : Row) (c : InternalColumn)
      → (version_index_row p row_id row txn c).1.transaction_header ≡ c.transaction_header
  unfolding version_index_row
  header-version_index_row row_id row c = ground arith

  pub finds-version_index_row :
      (row_id : RowId) (row : Row) (c : InternalColumn) (k r : ℕ)
      → version_is_indexed c ≡ true
      → finds k r (version_index_row p row_id row txn c).1
        ≡ (finds k r c || ((row_id == r) && shows_key c.column_id k (some row)))
  unfolding version_index_row
  finds-version_index_row row_id row c k r h = elim (Option-cases c.index) [
    | inl e ↦ absurd (ground arith)
    | inr (index, e) ↦ elim (Option-cases (get_versioned_row txn row)) [
      | inl unseen ↦ ground arith
      | inr (version, seen) ↦ elim (Option-cases (lookup c.column_id version.row_data)) [
        | inl absent ↦ ground arith
        | inr (value, at) ↦ ground (arith, leads_to-index_insert (key p value) k row_id r index)
      ]
    ]
  ]

  -- What `index_row` leaves in the version that the transaction sees
  pub index_row-seen :
      (row_id : RowId) (row : Row) (c : Column) (version : InternalColumn)
      → get_versioned_column txn c ≡ some version
      → get_versioned_column txn (index_row p row_id row txn c).1
        ≡ some (version_index_row p row_id row txn version).1
  unfolding index_row get_versioned_column
  index_row-seen row_id row c version h =
      latest-modify_latest column_versioned txn (λ v. (version_index_row p row_id row txn v).1)
        c.versions (λ v _. header-version_index_row row_id row v)
      ∙ ap (changed column_versioned txn (λ v. (version_index_row p row_id row txn v).1)) h

  pub still_indexed :
      (row_id : RowId) (row : Row) (c : InternalColumn)
      → version_is_indexed c ≡ true
      → (version_is_indexed (version_index_row p row_id row txn c).1 ≡ true)
        × ((version_index_row p row_id row txn c).1.column_id ≡ c.column_id)
  unfolding version_index_row
  still_indexed row_id row c h = (ground arith, ground arith)
