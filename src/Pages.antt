-- ===== src/Pages.antt =====
-- src/backend/core/table.rs, the page space of a table: pages in memory, their eviction to the page
-- file, and the rows that they hold. One thread of execution: locks are always granted. The page
-- file is held as the map from page ids to pages that it stores (src/backend/core/page_store.rs).
pub mod Defs
pub mod Eviction
pub mod Insertion
pub mod Compaction
pub mod Rows
use ant_db.Common.{
  ℕ, zero, suc, ◌+◌, ◌-◌, ◌%◌, ◌^◌, Bool, true, false, not, ◌&&◌, ◌||◌, Option, none, some, List,
  [], ◌∷◌, ltb, leb, ◌==◌, if◌then◌else◌, NatMap, lookup, insert, erase, keys, contains, insert_key,
  remove_key, length,
}
use ant_db.Errors.{DataBaseErrors, query_error, row_not_found, Result, ok, err, ◌>>=◌}
use ant_db.Row.Entry.{RowId}
use ant_db.Row.{Row}
use ant_db.Pages.Defs.{PageId, Page, u64_mod, Sizes}

-- The fields of `Table` that concern pages, the memory limit of its configuration, and the pages
-- that its `PageStore` holds.
pub record Space : Type 0 where
  pub row_space : NatMap Page
  pub row_locations : NatMap PageId
  pub next_page_id : PageId
  pub page_size : ℕ
  pub evicted_pages : List PageId
  pub on_disk_pages : List PageId
  pub lru : NatMap ℕ
  pub lru_counter : ℕ
  pub memory_used : ℕ
  pub memory_limit : ℕ
  pub page_store : NatMap Page

-- `fetch_add` and `fetch_sub` of an `AtomicU64`.
abbrev pub fetch_add : ℕ → ℕ → ℕ
fetch_add a b = (a + b) % u64_mod

abbrev pub fetch_sub : ℕ → ℕ → ℕ
fetch_sub a b = (a + (u64_mod - b % u64_mod)) % u64_mod

unfoldable pub touch_page : PageId → Space → Space
touch_page id t = record t {
  lru = insert id t.lru_counter t.lru;
  lru_counter = fetch_add t.lru_counter 1;
}

-- `!pinned.map_or(false, |p| p == id)`
abbrev pub is_pinned : Option PageId → PageId → Bool
is_pinned none id = false
is_pinned (some p) id = p == id

-- One step of `min_by_key`: of equal keys the first wins.
abbrev pub older : PageId × ℕ → Option (PageId × ℕ) → PageId × ℕ
older a none = a
older a (some b) = if ltb b.1 a.1 then b else a

-- `pick_lru_victim`, over the page ids of the row space.
unfoldable pub pick_lru_victim : NatMap ℕ → Option PageId → List PageId → Option (PageId × ℕ)
pick_lru_victim lru pinned [] = none
pick_lru_victim lru pinned (id ∷ ids) =
    let rest = pick_lru_victim lru pinned ids in
    if is_pinned pinned id
    then rest
    else elim (lookup id lru) [ none ↦ rest | some seq ↦ some (older (id, seq) rest) ]

-- `write_page_to_disk`
unfoldable pub write_page_to_disk : PageId → Page → Space → Space
write_page_to_disk id page t = record t {
  page_store = insert id page t.page_store;
  on_disk_pages = insert_key id t.on_disk_pages;
}

module _ (sizes : Sizes) where
  open sizes use {page_bytes}

  -- `untrack_page_in_memory`
  unfoldable pub untrack_page : PageId → Page → Space → Space
  untrack_page id page t = record t {
    memory_used = fetch_sub t.memory_used (page_bytes page);
    lru = erase id t.lru;
  }

  -- `flush_and_evict_page`, for a page that has been taken out of the row space.
  unfoldable pub flush_and_evict_page : PageId → Page → Space → Space
  unfolding write_page_to_disk untrack_page
  flush_and_evict_page id page t =
      let t' =
        if page.is_dirty || not (contains id t.on_disk_pages)
        then write_page_to_disk id page t
        else t in
      let u = untrack_page id page t' in record u { evicted_pages = insert_key id u.evicted_pages }

  -- `evict_page`
  unfoldable pub evict_page : PageId → Space → Space
  unfolding flush_and_evict_page
  evict_page id t = elim (lookup id t.row_space) [
    | none ↦ t
    | some page ↦ flush_and_evict_page id page (record t { row_space = erase id t.row_space })
  ]

  -- The loop of `maybe_evict_pages`, under a limit that is not zero. A round takes one page out of
  -- the row space, so as many rounds as there are pages are enough.
  unfoldable pub evict_loop : ℕ → Option PageId → Space → Space
  unfolding evict_page pick_lru_victim
  evict_loop zero pinned t = t
  evict_loop (suc fuel) pinned t = elim (leb t.memory_used t.memory_limit) [
    | true ↦ t
    | false ↦ elim (pick_lru_victim t.lru pinned (keys t.row_space)) [
      | none ↦ t
      | some victim ↦ evict_loop fuel pinned (evict_page victim.0 t)
    ]
  ]

  unfoldable pub maybe_evict_pages : Option PageId → Space → Space
  maybe_evict_pages pinned t =
      if t.memory_limit == 0 then t else evict_loop (suc (length t.row_space)) pinned t

  -- The part of `ensure_page_resident` that has read the page from the page file.
  unfoldable pub admit_page : PageId → Page → Space → Space
  unfolding touch_page
  admit_page id page t =
      let t' = record t {
        row_space = insert id page t.row_space;
        memory_used = fetch_add t.memory_used (page_bytes page);
      } in
      let u = touch_page id t' in record u { evicted_pages = remove_key id u.evicted_pages }

  -- `ensure_page_resident`: the page, and the space in which it is resident.
  unfoldable pub ensure_page_resident : PageId → Space → Result (Page × Space)
  unfolding touch_page admit_page maybe_evict_pages
  ensure_page_resident id t = elim (lookup id t.row_space) [
    | some page ↦ ok (page, touch_page id t)
    | none ↦ elim (lookup id t.page_store) [
      | none ↦ err (query_error "Page not found on disk")
      | some page ↦ ok (page, maybe_evict_pages (some id) (admit_page id page t))
    ]
  ]
