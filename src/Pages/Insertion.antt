-- ===== src/Pages/Insertion.antt =====
-- src/backend/core/table.rs: storing a new row, on the tail page, on a fresh page, or on an overflow
-- chain of its own.
pub mod Registration
pub mod Store
pub mod Orphan
use ant_db.Common.{
  ℕ, zero, suc, ◌+◌, ◌-◌, ◌/◌, ◌%◌, ◌≤◌, ◌<◌, ◌≡◌, refl, ◌≢◌, ◌⊎◌, inl, inr, Bool, true, false, not,
  ◌&&◌, ◌||◌, Option, none, some, List, [], ◌∷◌, leb, ltb, ◌==◌, ==_iff, if◌then◌else◌, NatMap,
  lookup, insert, erase, keys, contains, insert_key, remove_key, arith, lookup-insert, lookup-erase,
  contains-insert_key, Bool-cases, Option-cases, ◌∙◌, ap, sym, length,
}
use ant_db.Row.Entry.{RowId}
use ant_db.Row.{Row}
use ant_db.Pages.Defs.{PageId, Page, Sizes, new_page, has_room_for, append_row, u64_mod}
use ant_db.Pages.{
  Space, fetch_add, touch_page, maybe_evict_pages, evict_page, evict_loop, pick_lru_victim,
}
use ant_db.Pages.Eviction.{content, IsSynced}
use ant_db.Pages.Rows.{row_at}

-- `iter().next_back()`
abbrev pub last_entry {ℓ} : {V : Type ℓ} → NatMap V → Option (ℕ × V)
last_entry [] = none
last_entry (e ∷ []) = some e
last_entry (e ∷ f ∷ m) = last_entry (f ∷ m)

-- A write through the `Arc` of a page: where the page has left the row space, the table never sees it.
unfoldable pub write_through : PageId → (Page → Page) → Space → Space
write_through id f t = elim (lookup id t.row_space) [
  | none ↦ t
  | some page ↦ record t { row_space = insert id (f page) t.row_space }
]

abbrev pub as_continuation : Page → Page
as_continuation page = record page {
  used_bytes = page.capacity;
  is_overflow = true;
  is_dirty = true;
}

abbrev pub link_to : PageId → Page → Page
link_to id page = record page { next_page = some id }

-- `size.div_ceil(page_size)`
abbrev pub div_ceil : ℕ → ℕ → ℕ
div_ceil a b = if a % b == 0 then a / b else a / b + 1

module _ (sizes : Sizes) where
  open sizes use {row_bytes, page_bytes}

  -- The state of `register_page` before it looks for pages to evict.
  unfoldable pub placed_page : Space → Space
  unfolding touch_page
  placed_page t =
      let id = t.next_page_id in
      let page = new_page id t.page_size in
      touch_page id (record t {
        next_page_id = fetch_add t.next_page_id 1;
        row_space = insert id page t.row_space;
        memory_used = fetch_add t.memory_used (page_bytes page);
      })

  -- `register_page`
  unfoldable pub register_page : Space → PageId × Space
  unfolding placed_page
  register_page t = (t.next_page_id, maybe_evict_pages sizes none (placed_page t))

  -- `try_append_to_tail_page`, with `try_append_to_page`
  unfoldable pub try_append_to_tail_page : RowId → Row → ℕ → Space → Option (PageId × Space)
  unfolding touch_page
  try_append_to_tail_page row_id row size t = elim (last_entry t.row_space) [
    | none ↦ none
    | some (id, page) ↦
        if has_room_for size page
        then some (
          id,
          touch_page id
              (record t { row_space = insert id (append_row row_id row size page) t.row_space }),
        )
        else none
  ]

  -- `insert_row_into_page`
  unfoldable pub insert_row_into_page : RowId → Row → ℕ → Space → PageId × Space
  unfolding try_append_to_tail_page register_page write_through
  insert_row_into_page row_id row size t = elim (try_append_to_tail_page row_id row size t) [
    | some done ↦ done
    | none ↦ elim (try_append_to_tail_page row_id row size t) [
      | some done ↦ done
      | none ↦
          let (id, u) = register_page t in (id, write_through id (append_row row_id row size) u)
    ]
  ]

  -- The loop of `insert_overflow_row` over the continuation pages.
  unfoldable pub chain_pages : ℕ → PageId → Space → Space
  unfolding register_page write_through
  chain_pages zero previous t = t
  chain_pages (suc extra) previous t =
      let (id, u) = register_page t in
      chain_pages extra id
        (write_through previous (link_to id) (write_through id as_continuation u))

  -- `insert_overflow_row`
  unfoldable pub insert_overflow_row : RowId → Row → ℕ → Space → PageId × Space
  unfolding register_page write_through chain_pages
  insert_overflow_row row_id row size t =
      let (head, u) = register_page t in
      let v = write_through head (append_row row_id row size) u in
      (head, chain_pages (div_ceil size t.page_size - 1) head v)

  -- The part of `insert_row` that stores the row.
  unfoldable pub store_row : RowId → Row → Space → Space
  unfolding insert_overflow_row insert_row_into_page
  store_row row_id row t =
      let size = row_bytes row in
      let (id, u) =
        if ltb t.page_size size
        then insert_overflow_row row_id row size t
        else insert_row_into_page row_id row size t in
      record u { row_locations = insert row_id id u.row_locations }
