-- ===== src/Pages/Rows.antt =====
-- src/backend/core/table.rs: finding, reading, deleting and replacing rows by their ids, and what a
-- rollback reaches.
use ant_db.Common.{
  ℕ, ◌≡◌, refl, inl, inr, true, Option, none, some, [], ◌∷◌, ◌==◌, if◌then◌else◌, NatMap, lookup,
  insert, arith, lookup-insert, Option-cases, map_values, ◌∙◌,
}
use ant_db.Errors.{row_not_found, Result, ok, err}
use ant_db.Txn.{TransactionId, Transaction}
use ant_db.Row.Entry.{RowId}
use ant_db.Row.{Row, remove_row, rollback_row}
use ant_db.Pages.Defs.{PageId, Page, Sizes}
use ant_db.Pages.{Space, admit_page, ensure_page_resident, maybe_evict_pages, touch_page}
use ant_db.Pages.Eviction.{content, IsSynced, maybe_evict_pages-Keeps}

-- A change of a resident page through its lock.
abbrev pub put_page : PageId → Page → Space → Space
put_page id page t = record t { row_space = insert id page t.row_space }

-- `page.rows.insert(row_id, …)` and `page.is_dirty = true`
abbrev pub with_row : RowId → Row → Page → Page
with_row row_id row page = record page { rows = insert row_id row page.rows; is_dirty = true }

module _ (sizes : Sizes) where
  -- `page_for_row`
  unfoldable pub page_for_row : RowId → Space → Result (PageId × Page × Space)
  page_for_row row_id t = elim (lookup row_id t.row_locations) [
    | none ↦ err (row_not_found row_id)
    | some id ↦ elim (ensure_page_resident sizes id t) [
      | err e ↦ err e
      | ok (page, u) ↦ ok (id, page, u)
    ]
  ]

  -- `Table::get_row`
  unfoldable pub get_row : RowId → Space → Result (Row × Space)
  unfolding page_for_row
  get_row row_id t = elim (page_for_row row_id t) [
    | err e ↦ err e
    | ok (id, page, u) ↦ elim (lookup row_id page.rows) [
      | none ↦ err (row_not_found row_id)
      | some row ↦ ok (row, u)
    ]
  ]

  -- `get_mut(&row_id).ok_or(…)?` with a change of the row, as `delete_row` and `update_row` make it.
  unfoldable pub change_row : RowId → (Row → Row) → Space → Result Space
  unfolding page_for_row
  change_row row_id f t = elim (page_for_row row_id t) [
    | err e ↦ err e
    | ok (id, page, u) ↦ elim (lookup row_id page.rows) [
      | none ↦ err (row_not_found row_id)
      | some row ↦ ok (put_page id (with_row row_id (f row) page) u)
    ]
  ]

  -- `Table::delete_row`
  unfoldable pub delete_row : RowId → Transaction → Space → Result Space
  unfolding change_row
  delete_row row_id txn = change_row row_id (remove_row txn)

-- The rows of a table by their ids, wherever their pages are.
unfoldable pub row_at : RowId → Space → Option Row
row_at row_id t = elim (lookup row_id t.row_locations) [
  | none ↦ none
  | some id ↦ elim (content id t) [ none ↦ none | some page ↦ lookup row_id page.rows ]
]

rollback_page : TransactionId → Page → Page
rollback_page id page = record page { rows = map_values (rollback_row id) page.rows }

-- The loop of `Table::rollback_transaction` over the pages in memory.
unfoldable pub rollback_pages : TransactionId → Space → Space
unfolding rollback_page
rollback_pages id t = record t { row_space = map_values (rollback_page id) t.row_space }

pub lookup-map_values {ℓ κ} :
    {V : Type ℓ} {W : Type κ} (f : V → W) (k : ℕ) (m : NatMap V)
    → lookup k (map_values f m) ≡ (elim (lookup k m) [ none ↦ none | some v ↦ some (f v) ])
lookup-map_values f k [] = refl
lookup-map_values f k ((j, v) ∷ m) = ground (arith, lookup-map_values f k m)

-- A rollback undoes the transaction's work on the rows of the pages that are in memory, and on no
-- others: a page that has been evicted keeps what the transaction wrote.
pub row_at-rollback_pages :
    (t : TransactionId) (row_id : RowId) (s : Space) (id : PageId) (row : Row)
    → lookup row_id s.row_locations ≡ some id
    → row_at row_id s ≡ some row
    → row_at row_id (rollback_pages t s)
      ≡ some (elim (lookup id s.row_space) [ none ↦ row | some _ ↦ rollback_row t row ])
unfolding row_at rollback_pages
row_at-rollback_pages t row_id s id row at held = elim (Option-cases (lookup id s.row_space)) [
  | inl evicted ↦ ground (arith, lookup-map_values (rollback_page t) id s.row_space)
  | inr (page, e) ↦ ground (
    arith,
    lookup-map_values (rollback_page t) id s.row_space,
    lookup-map_values (rollback_row t) row_id page.rows,
  )
]

pub row_at_congr :
    (j : RowId) (u t : Space)
    → u.row_locations ≡ t.row_locations
    → ((k : PageId) → content k u ≡ content k t)
    → row_at j u ≡ row_at j t
unfolding row_at
row_at_congr j u t locs same = elim (Option-cases (lookup j t.row_locations)) [
  | inl absent ↦ ground (arith, locs)
  | inr (id, at) ↦ ground (arith, locs, same id)
]

put_page-IsSynced :
    (id : PageId) (row_id : RowId) (row : Row) (page : Page) (u : Space)
    → IsSynced u
    → IsSynced (put_page id (with_row row_id row page) u)
put_page-IsSynced id row_id row page u w j other r clean disk =
    ground (arith, w j other, lookup-insert id j (with_row row_id row page) u.row_space)

row_at-put_page :
    (id : PageId) (row_id : RowId) (row : Row) (page : Page) (u t : Space)
    → u.row_locations ≡ t.row_locations
    → ((k : PageId) → content k u ≡ content k t)
    → lookup id u.row_space ≡ some page
    → lookup row_id t.row_locations ≡ some id
    → (j : RowId)
    → row_at j (put_page id (with_row row_id row page) u)
      ≡ (if row_id == j then some row else row_at j t)
unfolding row_at
row_at-put_page id row_id row page u t locs same r at j =
    elim (Option-cases (lookup j t.row_locations)) [
      | inl absent ↦ ground (arith, locs)
      | inr (k, e) ↦ ground (
        arith,
        locs,
        same k,
        lookup-insert id k (with_row row_id row page) u.row_space,
        lookup-insert row_id j row page.rows,
      )
    ]

module _ (sizes : Sizes) where
  admit_page-content :
      (id j : PageId) (page : Page) (t : Space)
      → content id t ≡ some page
      → content j (admit_page sizes id page t) ≡ content j t
  unfolding admit_page
  admit_page-content id j page t h = ground (arith, lookup-insert id j page t.row_space)

  admit_page-IsSynced :
      (id : PageId) (page : Page) (t : Space)
      → lookup id t.page_store ≡ some page
      → IsSynced t
      → IsSynced (admit_page sizes id page t)
  unfolding admit_page
  admit_page-IsSynced id page t h w j other r clean disk =
      ground (arith, lookup-insert id j page t.row_space, w j other)

  -- Making a page resident gives its content, or fails where there is none, and changes the content
  -- of no page.
  pub ensure_page_resident-content :
      (id : PageId) (t : Space) (page : Page)
      → IsSynced t
      → content id t ≡ some page
      → (u : Space) × (ensure_page_resident sizes id t ≡ ok (page, u))
        × (lookup id u.row_space ≡ some page)
        × IsSynced u
        × (u.row_locations ≡ t.row_locations)
        × ((j : PageId) → content j u ≡ content j t)
  unfolding ensure_page_resident
  ensure_page_resident-content id t page w h = elim (Option-cases (lookup id t.row_space)) [
    | inl absent ↦
        let admitted = admit_page sizes id page t in
        let stored : lookup id t.page_store ≡ some page = ground arith in
        let k =
          maybe_evict_pages-Keeps sizes (some id) admitted
            (admit_page-IsSynced id page t stored w) in
        (
          maybe_evict_pages sizes (some id) admitted,
          ground arith,
          k.same_pinned id refl ∙ ground (arith, lookup-insert id id page t.row_space),
          k.synced,
          k.same_locations ∙ ground arith,
          λ j. k.same_content j ∙ admit_page-content id j page t h,
        )
    | inr (resident, e) ↦
        (touch_page id t, ground arith, ground arith, w, ground arith, λ j. ground arith)
  ]

  -- A row that the table holds is found, wherever its page is.
  pub page_for_row-found :
      (row_id : RowId) (t : Space) (row : Row)
      → IsSynced t
      → row_at row_id t ≡ some row
      → (id : PageId) × (page : Page) × (u : Space) × (page_for_row sizes row_id t
          ≡ ok (id, page, u))
        × (lookup row_id t.row_locations ≡ some id)
        × (lookup row_id page.rows ≡ some row)
        × (lookup id u.row_space ≡ some page)
        × IsSynced u
        × (u.row_locations ≡ t.row_locations)
        × ((j : PageId) → content j u ≡ content j t)
  unfolding page_for_row row_at
  page_for_row-found row_id t row w h = elim (Option-cases (lookup row_id t.row_locations)) [
    | inl absent ↦ absurd (ground arith)
    | inr (id, at) ↦ elim (Option-cases (content id t)) [
      | inl absent ↦ absurd (ground arith)
      | inr (page, e) ↦
          let (u, done, r, synced, locs, same) = ensure_page_resident-content id t page w e in
          (id, page, u, ground arith, at, ground arith, r, synced, locs, same)
    ]
  ]

  -- If memory and page file are in step, `get_row` gives every row that the table holds, also one
  -- whose page has been evicted, and leaves all rows as they were and the two in step.
  pub get_row-row_at :
      (row_id : RowId) (t : Space) (row : Row)
      → IsSynced t
      → row_at row_id t ≡ some row
      → (u : Space) × (get_row sizes row_id t ≡ ok (row, u))
        × IsSynced u
        × ((j : RowId) → row_at j u ≡ row_at j t)
  unfolding get_row
  get_row-row_at row_id t row w h =
      let (id, page, u, done, at, held, r, synced, locs, same) =
        page_for_row-found row_id t row w h in
      (u, ground arith, synced, λ j. row_at_congr j u t locs same)

  -- If memory and page file are in step, a change of a row that the table holds goes through, is read
  -- back under the row's id, changes no other row, and leaves the two in step.
  pub change_row-row_at :
      (row_id : RowId) (f : Row → Row) (t : Space) (row : Row)
      → IsSynced t
      → row_at row_id t ≡ some row
      → (u : Space) × (change_row sizes row_id f t ≡ ok u)
        × IsSynced u
        × ((j : RowId) → row_at j u ≡ (if row_id == j then some (f row) else row_at j t))
  unfolding change_row
  change_row-row_at row_id f t row w h =
      let (id, page, u, done, at, held, r, synced, locs, same) =
        page_for_row-found row_id t row w h in
      (
        put_page id (with_row row_id (f row) page) u,
        ground arith,
        put_page-IsSynced id row_id (f row) page u synced,
        λ j. row_at-put_page id row_id (f row) page u t locs same r at j,
      )

  -- A row that the table does not know is an error for every operation on it.
  pub change_row-missing :
      (row_id : RowId) (f : Row → Row) (t : Space)
      → lookup row_id t.row_locations ≡ none
      → (change_row sizes row_id f t ≡ err (row_not_found row_id))
        × (get_row sizes row_id t ≡ err (row_not_found row_id))
  unfolding change_row get_row
  change_row-missing row_id f t h = (ground arith, ground arith)
