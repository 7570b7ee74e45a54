-- ===== src/Pages/Insertion/Orphan.antt =====
-- A page that is evicted while it is being registered (src/backend/core/table.rs): the row that is
-- then written through its `Arc` is lost to the table.
use ant_db.Common.{
  ◌≤◌, ◌<◌, ◌≡◌, false, none, some, [], lookup, arith, contains, lookup-insert, ==_refl,
}
use ant_db.Row.Entry.{RowId}
use ant_db.Row.{Row}
use ant_db.Pages.Defs.{Sizes, new_page}
use ant_db.Pages.{Space, fetch_add, maybe_evict_pages, evict_loop}
use ant_db.Pages.Rows.{row_at}
use ant_db.Pages.Insertion.{register_page, insert_row_into_page, store_row}

-- A table with no page in memory, and an empty page that is larger than the table's memory limit.
pub record IsTight (sizes : Sizes) (t : Space) : Type 0 where
  pub empty : t.row_space ≡ []
  pub limited : 0 < t.memory_limit
  pub over :
      t.memory_limit
      < fetch_add t.memory_used (sizes.page_bytes (new_page t.next_page_id t.page_size))
  pub fresh : contains t.next_page_id t.on_disk_pages ≡ false

module _ (sizes : Sizes) (row_id : RowId) (row : Row) (t : Space) (w : IsTight sizes t) where
  -- The page as it was registered, written to the page file with no row, and nothing in memory.
  evicted_at_once :
      ((register_page sizes t).1.row_space ≡ [])
      × (lookup t.next_page_id (register_page sizes t).1.page_store
          ≡ some (new_page t.next_page_id t.page_size))
  unfolding register_page maybe_evict_pages evict_loop new_page
  evicted_at_once = ground (
    arith,
    w.empty,
    w.limited,
    w.over,
    w.fresh,
    ==_refl t.next_page_id,
    lookup-insert t.next_page_id t.next_page_id t.lru_counter t.lru,
    lookup-insert t.next_page_id t.next_page_id (new_page t.next_page_id t.page_size) t.page_store,
  )

  orphaned :
      insert_row_into_page sizes row_id row (sizes.row_bytes row) t
      ≡ (t.next_page_id, (register_page sizes t).1)
  unfolding insert_row_into_page
  orphaned = ground (arith, w.empty, evicted_at_once.0)

  -- Where a table has no page in memory, an empty page does not fit its memory limit, and the next page
  -- id is not on disk yet, a row that fits a page is stored nowhere: its id is known, and no row is found under it.
  pub row_at-store_row-lost :
      sizes.row_bytes row ≤ t.page_size
      → (row_at row_id (store_row sizes row_id row t) ≡ none)
        × (lookup row_id (store_row sizes row_id row t).row_locations ≡ some t.next_page_id)
  unfolding store_row row_at new_page
  row_at-store_row-lost small = ground (
    arith,
    orphaned,
    evicted_at_once,
    lookup-insert row_id row_id t.next_page_id (register_page sizes t).1.row_locations,
  )
