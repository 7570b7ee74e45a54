-- ===== src/Pages/Compaction.antt =====
-- src/backend/core/table.rs: bringing all pages into memory, repacking the rows into fresh pages, and
-- writing all pages back, as a vacuum does in turn.
pub mod Packed
pub mod Placing
pub mod Repacked
use ant_db.Common.{
  ℕ, zero, suc, ◌+◌, ◌-◌, Bool, true, false, not, Option, none, some, List, [], ◌∷◌, ltb, leb,
  if◌then◌else◌, NatMap, lookup, insert, keys, values, contains, insert_key, retain,
}
use ant_db.Errors.{Result, ok, err}
use ant_db.Row.Entry.{RowId}
use ant_db.Row.{Row}
use ant_db.Pages.Defs.{PageId, Page, Sizes, new_page, has_room_for, append_row, saturating_add}
use ant_db.Pages.{Space, ensure_page_resident}
use ant_db.Pages.Insertion.{last_entry, link_to, div_ceil}

-- `collect` into a `BTreeSet`
abbrev pub id_set : List PageId → List PageId
id_set [] = []
id_set (id ∷ ids) = insert_key id (id_set ids)

-- `row.get_raw_rows().is_empty()`
abbrev pub has_no_version : Row → Bool
has_no_version row = elim row.versions [ [] ↦ true | _ ↦ false ]

-- A row that is to be placed, with its id and its size.
pub record LiveRow : Type 0 where
  pub live_id : RowId
  pub live_row : Row
  pub size : ℕ

-- The pages that `compact` builds: `new_space`, `new_locations` and `next_page_id`.
pub record Packing : Type 0 where
  pub pages : NatMap Page
  pub locations : NatMap PageId
  pub next : PageId

abbrev pub empty_packing : Packing
empty_packing = record { pages = []; locations = []; next = 0 }

-- `new_space.get(&id).unwrap().write()`, with a change of the page
unfoldable pub change_page : PageId → (Page → Page) → NatMap Page → NatMap Page
change_page id f pages = elim (lookup id pages) [
  | none ↦ pages
  | some page ↦ insert id (f page) pages
]

-- `alloc_page`, whose counter stays far below 2^64
unfoldable pub alloc_page : ℕ → Packing → PageId × Packing
unfolding new_page
alloc_page page_size k = (
  k.next,
  record k { pages = insert k.next (new_page k.next page_size) k.pages; next = k.next + 1 },
)

-- A continuation page as `compact` marks it
abbrev pub filled : Page → Page
filled page = record page { is_overflow = true; used_bytes = page.capacity }

-- The loop over the continuation pages of an oversized row
unfoldable pub extend_chain : ℕ → ℕ → PageId → Packing → Packing
unfolding alloc_page change_page
extend_chain page_size zero previous k = k
extend_chain page_size (suc extra) previous k =
    let (id, allocated) = alloc_page page_size k in
    extend_chain page_size extra id (record allocated {
      pages = change_page previous (link_to id) (change_page id filled allocated.pages);
    })

-- `new_space.get(&target_id)…append(…)` and `new_locations.insert(…)`
unfoldable pub put_live : PageId → LiveRow → Packing → Packing
unfolding change_page append_row
put_live id r k = record k {
  pages = change_page id (append_row r.live_id r.live_row r.size) k.pages;
  locations = insert r.live_id id k.locations;
}

-- `tail_with_room`
unfoldable pub tail_with_room : ℕ → NatMap Page → Option PageId
unfolding has_room_for
tail_with_room size pages = elim (last_entry pages) [
  | none ↦ none
  | some (id, page) ↦ if has_room_for size page then some id else none
]

-- The body of the loop over the rows
unfoldable pub place_row : ℕ → LiveRow → Packing → Packing
unfolding alloc_page put_live extend_chain tail_with_room
place_row page_size r k = elim (ltb page_size r.size) [
  | true ↦
      let (head, allocated) = alloc_page page_size k in
      extend_chain page_size (div_ceil r.size page_size - 1) head (put_live head r allocated)
  | false ↦ elim (tail_with_room r.size k.pages) [
    | some id ↦ put_live id r k
    | none ↦ let (id, allocated) = alloc_page page_size k in put_live id r allocated
  ]
]

unfoldable pub place_rows : ℕ → List LiveRow → Packing → Packing
unfolding place_row
place_rows page_size [] k = k
place_rows page_size (r ∷ rs) k = place_rows page_size rs (place_row page_size r k)

-- `sort_by_key`, which is stable
unfoldable pub insert_live : LiveRow → List LiveRow → List LiveRow
insert_live r [] = r ∷ []
insert_live r (s ∷ rs) =
    let rest = insert_live r rs in if leb r.live_id s.live_id then r ∷ s ∷ rs else s ∷ rest

unfoldable pub sort_live : List LiveRow → List LiveRow
unfolding insert_live
sort_live [] = []
sort_live (r ∷ rs) = insert_live r (sort_live rs)

module _ (sizes : Sizes) where
  open sizes use {row_bytes, page_bytes}

  -- The rows of a page that have a version, and of all pages in memory, in front of others
  unfoldable pub page_rows : NatMap Row → List LiveRow → List LiveRow
  page_rows [] rest = rest
  page_rows ((row_id, row) ∷ rows) rest =
      let others = page_rows rows rest in
      if has_no_version row
      then others
      else record { live_id = row_id; live_row = row; size = row_bytes row } ∷ others

  unfoldable pub live_rows : NatMap Page → List LiveRow
  unfolding page_rows
  live_rows [] = []
  live_rows ((id, page) ∷ pages) = page_rows page.rows (live_rows pages)

  -- The loop of `rebuild_runtime_state`
  unfoldable pub count_pages : NatMap Page → Space → Space
  count_pages [] t = t
  count_pages ((id, page) ∷ pages) t = count_pages pages (record t {
    memory_used = saturating_add t.memory_used (page_bytes page);
    lru = insert id t.lru_counter t.lru;
    lru_counter = t.lru_counter + 1;
  })

  -- `rebuild_runtime_state`
  unfoldable pub rebuild_runtime_state : Space → Space
  unfolding count_pages
  rebuild_runtime_state t =
      let counted =
        count_pages t.row_space (record t { memory_used = 0; lru = []; lru_counter = 0 }) in
      record counted {
        evicted_pages =
            retain (λ id. not (contains id (keys t.row_space))) (id_set (values t.row_locations));
      }

  -- `compact`
  unfoldable pub compact : Space → Space
  unfolding live_rows sort_live place_rows rebuild_runtime_state
  compact t =
      let packed = place_rows t.page_size (sort_live (live_rows t.row_space)) empty_packing in
      rebuild_runtime_state (record t {
        row_space = packed.pages;
        row_locations = packed.locations;
        next_page_id = packed.next;
        evicted_pages = [];
        on_disk_pages = [];
      })

  -- The loop of `materialize_all_pages`
  unfoldable pub load_pages : List PageId → Space → Result Space
  unfolding ensure_page_resident
  load_pages [] t = ok t
  load_pages (id ∷ ids) t = elim (ensure_page_resident sizes id t) [
    | err e ↦ err e
    | ok (page, u) ↦ load_pages ids u
  ]

  -- `materialize_all_pages`
  unfoldable pub materialize_all_pages : Space → Result Space
  unfolding load_pages
  materialize_all_pages t = load_pages (id_set (values t.row_locations)) t

abbrev pub clean : Page → Page
clean page = record page { is_dirty = false }

-- The pages in memory over the pages of the page file
unfoldable pub overlay : NatMap Page → NatMap Page → NatMap Page
overlay [] stored = stored
overlay ((id, page) ∷ pages) stored = overlay pages (insert id (clean page) stored)

abbrev pub clean_pages : NatMap Page → NatMap Page
clean_pages [] = []
clean_pages ((id, page) ∷ pages) = (id, clean page) ∷ clean_pages pages

-- `flush_all_pages`: the pages of the file that are not in memory, and those in memory, are all written.
unfoldable pub flush_all_pages : Space → Space
unfolding overlay
flush_all_pages t =
    let stored = overlay t.row_space t.page_store in
    record t {
      row_space = clean_pages t.row_space;
      page_store = stored;
      on_disk_pages = keys stored;
    }
