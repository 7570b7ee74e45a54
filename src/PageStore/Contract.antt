-- ===== src/PageStore/Contract.antt =====
-- The page file as the table sees it, the map `page_store` of Pages, and as the page store keeps it
-- (`write_page_to_disk` of src/backend/core/table.rs, `merge_page` and `read_page` of
-- src/backend/core/page_store.rs).
use ant_db.Common.{◌^◌, ◌<◌, ◌≡◌, [], lookup, lookup-insert}
use mathlib.Core.Path.{fun_ext}
use ant_db.Errors.{ok}
use ant_db.Pages.Defs.{PageId, Page}
use ant_db.Pages.{Space, write_page_to_disk}
use ant_db.PageStore.Store.{RowLocationIndex, Codec, PageStore, merge_page, read_page}
use ant_db.PageStore.Laws.{IsCodec, IsStorable, PageMap, update}
use ant_db.PageStore.Durability.{Stores, read_page-Stores}
use ant_db.PageStore.Merging.{merge_pages-Stores}

-- The pages that a table takes to be in its page file.
abbrev pub pages_of : Space → PageMap
pages_of t id = lookup id t.page_store

pages_of-write_page_to_disk :
    (id : PageId) (page : Page) (t : Space)
    → pages_of (write_page_to_disk id page t) ≡ update id page (pages_of t)
unfolding write_page_to_disk
pages_of-write_page_to_disk id page t = fun_ext (λ j. lookup-insert id j page t.page_store)

module _ (codec : Codec) where
  -- The page store does what the table's model of it says: if the store holds the pages of the model,
  -- then it reads the page of the model under every id, and merging a page that can be stored (in a
  -- file that stays below 2^64 bytes) goes through and leaves it, for this process and for the next,
  -- holding the pages of the model after write_page_to_disk, with the row locations of the table.
  pub merge_page-write_page_to_disk :
      (id : PageId) (page : Page) (t : Space) (s : PageStore) (rows : RowLocationIndex)
      → IsCodec codec
      → Stores codec s (pages_of t) rows
      → IsStorable codec page
      → (merge_page codec id page t.row_locations s).0.state.append_offset < 2 ^ 64
      → ((j : PageId) → (u : PageStore) × (read_page codec j s ≡ ok (lookup j t.page_store, u)))
        × ((merge_page codec id page t.row_locations s).1 ≡ ok tt)
        × Stores codec
            (merge_page codec id page t.row_locations s).0
            (pages_of (write_page_to_disk id page t))
            t.row_locations
  unfolding merge_page
  merge_page-write_page_to_disk id page t s rows w holds storable fits =
      let (done, stored) =
        merge_pages-Stores codec (id, page) [] t.row_locations rows s (pages_of t) w holds
          (storable, tt) fits in
      (
        λ j. let (u, found, _) = read_page-Stores codec j s (pages_of t) rows holds in (u, found),
        done,
        rw (pages_of-write_page_to_disk id page t) stored,
      )
