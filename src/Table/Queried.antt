-- ===== src/Table/Queried.antt =====
-- src/backend/core/table.rs as src/backend/core/query.rs sees it: the table that joins and queries ask.
-- That a read brings pages into memory does not show in it.
use ant_db.Common.{◌≡◌, refl, ap, none, some, List, [], ◌∷◌, ◌++◌, lookup, values, arith, All}
use ant_db.Errors.{Result, ok, err}
use ant_db.Txn.{Transaction}
use ant_db.Row.Entry.{DataBaseDataEntry, Primitives, RowData, RowId, ColumnId}
use ant_db.Column.{Column, index_lookup}
use ant_db.Pages.Defs.{PageId, Sizes}
use ant_db.Pages.{Space, ensure_page_resident}
use ant_db.Pages.Eviction.{IsSynced}
use ant_db.Pages.Rows.{ensure_page_resident-content}
use ant_db.Planner.{get_visible_column_map}
use ant_db.Query.Joins.{VisibleTable}
use ant_db.Query.Probe.{IsConsistent}
use ant_db.Query.{QueriedTable}
use ant_db.Database.{Table}
use ant_db.Table.Scan.{
  page_set, seen_rows, rows_on, visible_rows, lookup_rows_by_column_value, lookup_visible_row_data,
}
use ant_db.Table.Walk.{ArePresent, ArePresent-congr, rows_on_congr}
use ant_db.Table.Lookup.{lookup_rows_by_column_value-rows_with}
use ant_db.Table.Search.{search}
use ant_db.Table.Search.Reading.{IsFound, lookup_visible_row_data-IsFound}

-- The value of a read, without the pages that it has left in memory.
abbrev pub value_read {ℓ} : {A : Type ℓ} → Result (A × Space) → Result A
value_read (err e) = err e
value_read (ok (a, _)) = ok a

module _ (p : Primitives) (sizes : Sizes) (txn : Transaction) where
  -- The calls of the closure that `for_each_visible_row` makes, and how its loop ends if no call fails.
  unfoldable pub walk_pages : List PageId → Space → List (RowId × RowData) × Result (Unit {0})
  unfolding ensure_page_resident
  walk_pages [] t = ([], ok tt)
  walk_pages (id ∷ ids) t = elim (ensure_page_resident sizes id t) [
    | err e ↦ ([], err e)
    | ok (page, u) ↦
        let (rows, end) = walk_pages ids u in (seen_rows sizes txn page.rows ++ rows, end)
  ]

  unfoldable pub visible_table : Table → VisibleTable
  unfolding walk_pages lookup_rows_by_column_value lookup_visible_row_data
  visible_table t =
      let (rows, end) = walk_pages (page_set (values t.space.row_locations)) t.space in
      record {
        walk = rows;
        walk_end = end;
        lookup_rows_by_column_value =
            λ id value. value_read (lookup_rows_by_column_value sizes txn p id value t);
        lookup_visible_row_data =
            λ row_id. value_read (lookup_visible_row_data sizes txn row_id t.space);
      }

  unfoldable pub queried_table : Table → QueriedTable
  unfolding visible_table get_visible_column_map search
  queried_table t = record {
    column_map = get_visible_column_map txn t;
    visible = visible_table t;
    search = λ request path. value_read (search p sizes txn request path t);
  }

  walk_pages-rows_on :
      (ids : List PageId) (t : Space)
      → IsSynced t
      → ArePresent ids t
      → walk_pages ids t ≡ (rows_on sizes txn ids t, ok tt)
  unfolding walk_pages
  walk_pages-rows_on [] t w h = refl
  walk_pages-rows_on (id ∷ ids) t w ((page, e), h) =
      let (u, got, _, synced, locs, same) = ensure_page_resident-content sizes id t page w e in
      let rest = walk_pages-rows_on ids u synced (ArePresent-congr ids t u same h) in
      ground (arith, got, rest, e, rows_on_congr sizes txn ids t u same)

  reads_rows :
      (rows : List (RowId × RowData)) (t : Table)
      → IsSynced t.space
      → All (IsFound p sizes txn t.space) rows
      → All
          (λ row. value_read (lookup_visible_row_data sizes txn row.0 t.space) ≡ ok (some row.1))
          rows
  reads_rows [] t w h = tt
  reads_rows (r ∷ rows) t w (hr, h) =
      let (u, done, same) = lookup_visible_row_data-IsFound p sizes txn r t.space w hr in
      (rw (done) refl, reads_rows rows t w h)

  -- What a join asks of a table agrees with the rows that are visible: if memory and page file are in
  -- step, every page that rows are located on exists, the id of every visible row leads to it, and the
  -- column has no index, then the walk hands over the visible rows, a lookup of a value gives the rows
  -- that hold it, and every id that the walk gives reads the row back.
  pub visible_table-IsConsistent :
      (id : ColumnId) (t : Table) (c : Column)
      → lookup id t.columns ≡ some c
      → ((value : DataBaseDataEntry) → index_lookup p value txn c ≡ none)
      → IsSynced t.space
      → ArePresent (page_set (values t.space.row_locations)) t.space
      → All (IsFound p sizes txn t.space) (visible_rows sizes txn t.space)
      → ((visible_table t).walk ≡ visible_rows sizes txn t.space)
        × IsConsistent p (visible_table t) id
  unfolding visible_table
  visible_table-IsConsistent id t c at unindexed w there found =
      let seen = visible_rows sizes txn t.space in
      let walked = walk_pages-rows_on (page_set (values t.space.row_locations)) t.space w there in
      let rows : (visible_table t).walk ≡ seen = ap (λ r. r.0) walked in
      (
        rows,
        record {
          walks = ap (λ r. r.1) walked;
          finds = λ value.
              let (u, done, same) =
                lookup_rows_by_column_value-rows_with sizes txn p id value t c at (unindexed value)
                  w there in
              rw (done, rows) refl;
          reads = rw (rows) (reads_rows seen t w found);
        },
      )
