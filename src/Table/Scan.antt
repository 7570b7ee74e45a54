-- ===== src/Table/Scan.antt =====
-- src/backend/core/table.rs: walking over the visible rows of a table, page by page, and the lookups of
-- rows by a value.
use ant_db.Common.{
  Bool, true, false, Option, none, some, List, [], ◌∷◌, ◌++◌, if◌then◌else◌, NatMap, lookup, values,
  insert_key,
}
use ant_db.Errors.{query_error, Result, ok, err}
use ant_db.Txn.{Transaction}
use ant_db.Row.Entry.{DataBaseDataEntry, Primitives, RowData, RowId, ColumnId, entry_eq}
use ant_db.Row.{Row, get_versioned_row}
use ant_db.Column.{index_lookup}
use ant_db.Pages.Defs.{PageId, Page, Sizes}
use ant_db.Pages.{Space, ensure_page_resident}
use ant_db.Pages.Eviction.{content}
use ant_db.Pages.Rows.{page_for_row}
use ant_db.Database.{Table}
use ant_db.Query.Probe.{holds_value}

-- `collect` into a `BTreeSet`
abbrev pub page_set : List PageId → List PageId
page_set [] = []
page_set (id ∷ ids) = insert_key id (page_set ids)

module _ (sizes : Sizes) (txn : Transaction) where
  module _ {ℓ} {A : Type ℓ} (f : RowId → RowData → A → Result A) where
    -- The inner loop of `for_each_visible_row`, over the rows of a page.
    unfoldable pub visit_rows : NatMap Row → A → Result A
    unfolding get_versioned_row
    visit_rows [] a = ok a
    visit_rows ((row_id, row) ∷ rows) a = elim (get_versioned_row txn row) [
      | none ↦ visit_rows rows a
      | some version ↦ elim (f row_id version.row_data a) [
        | err e ↦ err e
        | ok b ↦ visit_rows rows b
      ]
    ]

    -- The outer loop, over the ids of the pages.
    unfoldable pub visit_pages : List PageId → A → Space → Result (A × Space)
    unfolding ensure_page_resident visit_rows
    visit_pages [] a t = ok (a, t)
    visit_pages (id ∷ ids) a t = elim (ensure_page_resident sizes id t) [
      | err e ↦ err e
      | ok (page, u) ↦ elim (visit_rows page.rows a) [ err e ↦ err e | ok b ↦ visit_pages ids b u ]
    ]

    -- `for_each_visible_row`: the closure `f` changes what it has captured, an `A`.
    unfoldable pub for_each_visible_row : A → Space → Result (A × Space)
    unfolding visit_pages
    for_each_visible_row a t = visit_pages (page_set (values t.row_locations)) a t

    -- The closure on the rows of a list in turn.
    abbrev pub fold_rows : List (RowId × RowData) → A → Result A
    fold_rows [] a = ok a
    fold_rows ((row_id, row_data) ∷ rows) a = elim (f row_id row_data a) [
      | err e ↦ err e
      | ok b ↦ fold_rows rows b
    ]

  -- The visible rows of a page, and of the pages of a list, in memory or not.
  abbrev pub seen_rows : NatMap Row → List (RowId × RowData)
  seen_rows [] = []
  seen_rows ((row_id, row) ∷ rows) = elim (get_versioned_row txn row) [
    | none ↦ seen_rows rows
    | some version ↦ (row_id, version.row_data) ∷ seen_rows rows
  ]

  abbrev pub rows_of : Option Page → List (RowId × RowData)
  rows_of none = []
  rows_of (some page) = seen_rows page.rows

  abbrev pub rows_on : List PageId → Space → List (RowId × RowData)
  rows_on [] t = []
  rows_on (id ∷ ids) t = rows_of (content id t) ++ rows_on ids t

  -- The rows of a table that the transaction sees, in the order of their pages.
  abbrev pub visible_rows : Space → List (RowId × RowData)
  visible_rows t = rows_on (page_set (values t.row_locations)) t

  -- The closure of the walk in `lookup_rows_by_column_value`
  unfoldable pub push_match :
      Primitives → ColumnId → DataBaseDataEntry → RowId → RowData → List RowId → Result (List RowId)
  unfolding entry_eq
  push_match p id value row_id row_data matches =
      ok (if holds_value p id value row_data then matches ++ row_id ∷ [] else matches)

  -- `lookup_visible_row_data`
  unfoldable pub lookup_visible_row_data : RowId → Space → Result (Option RowData × Space)
  unfolding page_for_row get_versioned_row
  lookup_visible_row_data row_id t = elim (page_for_row sizes row_id t) [
    | err e ↦ err e
    | ok (id, page, u) ↦ elim (lookup row_id page.rows) [
      | none ↦ ok (none, u)
      | some row ↦ elim (get_versioned_row txn row) [
        | none ↦ ok (none, u)
        | some version ↦ ok (some version.row_data, u)
      ]
    ]
  ]

  -- `filter_visible_index_candidates`
  unfoldable pub filter_visible_index_candidates :
      List RowId → List RowId → Space → Result (List RowId × Space)
  unfolding lookup_visible_row_data
  filter_visible_index_candidates [] visible t = ok (visible, t)
  filter_visible_index_candidates (row_id ∷ row_ids) visible t =
      elim (lookup_visible_row_data row_id t) [
        | err e ↦ err e
        | ok (none, u) ↦ filter_visible_index_candidates row_ids visible u
        | ok (some _, u) ↦ filter_visible_index_candidates row_ids (visible ++ row_id ∷ []) u
      ]

  -- `lookup_rows_by_column_value`
  unfoldable pub lookup_rows_by_column_value :
      Primitives → ColumnId → DataBaseDataEntry → Table → Result (List RowId × Space)
  unfolding index_lookup filter_visible_index_candidates for_each_visible_row push_match
  lookup_rows_by_column_value p id value t = elim (lookup id t.columns) [
    | none ↦ err (query_error "Column not found while resolving join lookup")
    | some c ↦ elim (index_lookup p value txn c) [
      | some row_ids ↦ filter_visible_index_candidates row_ids [] t.space
      | none ↦ for_each_visible_row (push_match p id value) [] t.space
    ]
  ]

  -- `!row_ids.is_empty()`
  abbrev pub any_found : Result (List RowId × Space) → Result (Bool × Space)
  any_found (err e) = err e
  any_found (ok ([], u)) = ok (false, u)
  any_found (ok (_ ∷ _, u)) = ok (true, u)

  -- `referenced_value_exists`
  unfoldable pub referenced_value_exists :
      Primitives → ColumnId → DataBaseDataEntry → Table → Result (Bool × Space)
  unfolding lookup_rows_by_column_value
  referenced_value_exists p id value t = any_found (lookup_rows_by_column_value p id value t)
