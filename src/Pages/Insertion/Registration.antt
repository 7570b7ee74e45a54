-- ===== src/Pages/Insertion/Registration.antt =====
-- What registering pages and writing through them does to the rows on pages (src/backend/core/table.rs),
-- with eviction switched off.
use ant_db.Common.{
  ℕ, zero, suc, ◌+◌, ◌≤◌, ◌<◌, ◌≡◌, refl, ◌≢◌, inl, inr, Option, none, some, [], ◌∷◌, ◌==◌,
  if◌then◌else◌, NatMap, lookup, arith, lookup-insert, Option-cases, ◌∙◌,
}
use ant_db.Row.Entry.{RowId}
use ant_db.Row.{Row}
use ant_db.Pages.Defs.{PageId, Page, Sizes, new_page, u64_mod}
use ant_db.Pages.{Space, fetch_add, maybe_evict_pages}
use ant_db.Pages.Eviction.{content}
use ant_db.Pages.Rows.{row_at}
use ant_db.Pages.Insertion.{
  last_entry, write_through, as_continuation, link_to, register_page, chain_pages,
}

-- The keys of a map rise.
abbrev pub IsAscending {ℓ} : {V : Type ℓ} → NatMap V → Type 0
IsAscending [] = Unit
IsAscending (e ∷ []) = Unit
IsAscending (e ∷ f ∷ m) = (e.0 < f.0) × IsAscending (f ∷ m)

pub first_key-le {ℓ} :
    {V : Type ℓ} (e : ℕ × V) (m : NatMap V) (k : ℕ)
    → IsAscending (e ∷ m)
    → lookup k (e ∷ m) ≢ none
    → e.0 ≤ k
first_key-le e [] k s h = ground arith
first_key-le e (f ∷ m) k s h = ground (arith, first_key-le f m k s.1)

pub lookup-last_entry {ℓ} :
    {V : Type ℓ} (m : NatMap V) (e : ℕ × V)
    → IsAscending m
    → last_entry m ≡ some e
    → lookup e.0 m ≡ some e.1
lookup-last_entry [] e s h = absurd (cc)
lookup-last_entry (f ∷ []) e s h = ground arith
lookup-last_entry (f ∷ g ∷ m) e s h =
    let found = lookup-last_entry (g ∷ m) e s.1 h in ground (arith, first_key-le g m e.0 s.1)

-- The rows that lie on a page, in memory or in the page file.
abbrev pub rows_on : PageId → Space → Option (NatMap Row)
rows_on id t = elim (content id t) [ none ↦ none | some page ↦ some page.rows ]

pub row_at-rows_on :
    (j : RowId) (t : Space)
    → row_at j t ≡ elim (lookup j t.row_locations) [
      | none ↦ none
      | some id ↦ elim (rows_on id t) [ none ↦ none | some rows ↦ lookup j rows ]
    ]
unfolding row_at
row_at-rows_on j t = ground arith

pub rows_on-write_through :
    (id k : PageId) (f : Page → Page) (t : Space)
    → ((page : Page) → (f page).rows ≡ page.rows)
    → rows_on k (write_through id f t) ≡ rows_on k t
unfolding write_through
rows_on-write_through id k f t same = elim (Option-cases (lookup id t.row_space)) [
  | inl absent ↦ ground arith
  | inr (page, e) ↦ ground (arith, same page, lookup-insert id k (f page) t.row_space)
]

module _ (sizes : Sizes) where
  -- A fresh page is empty, and the other pages keep their rows.
  pub rows_on-register_page :
      (k : PageId) (t : Space)
      → t.memory_limit ≡ 0
      → rows_on k (register_page sizes t).1 ≡ (if t.next_page_id == k then some [] else rows_on k t)
  unfolding register_page maybe_evict_pages new_page
  rows_on-register_page k t off =
      ground
        (arith, lookup-insert t.next_page_id k (new_page t.next_page_id t.page_size) t.row_space)

  pub register_page-fields :
      (t : Space)
      → t.memory_limit ≡ 0
      → ((register_page sizes t).1.row_locations ≡ t.row_locations)
        × ((register_page sizes t).1.memory_limit ≡ 0)
        × ((register_page sizes t).1.next_page_id ≡ fetch_add t.next_page_id 1)
        × (lookup t.next_page_id (register_page sizes t).1.row_space
            ≡ some (new_page t.next_page_id t.page_size))
  unfolding register_page maybe_evict_pages
  register_page-fields t off = ground (
    arith,
    lookup-insert t.next_page_id t.next_page_id (new_page t.next_page_id t.page_size) t.row_space,
  )

  pub write_through-fields :
      (id : PageId) (f : Page → Page) (t : Space)
      → ((write_through id f t).row_locations ≡ t.row_locations)
        × ((write_through id f t).memory_limit ≡ t.memory_limit)
        × ((write_through id f t).next_page_id ≡ t.next_page_id)
  unfolding write_through
  write_through-fields id f t = elim (Option-cases (lookup id t.row_space)) [
    | inl absent ↦ ground arith
    | inr (page, e) ↦ ground arith
  ]

  -- The continuation pages of an overflow chain take no rows and change none.
  pub chain_pages-rows_on :
      (extra : ℕ) (previous k : PageId) (t : Space)
      → t.memory_limit ≡ 0
      → t.next_page_id + extra < u64_mod
      → k < t.next_page_id
      → (rows_on k (chain_pages sizes extra previous t) ≡ rows_on k t)
        × ((chain_pages sizes extra previous t).row_locations ≡ t.row_locations)
  unfolding chain_pages
  chain_pages-rows_on zero previous k t off room low = (refl, refl)
  chain_pages-rows_on (suc extra) previous k t off room low =
      let id = t.next_page_id in
      let u = (register_page sizes t).1 in
      let v = write_through id as_continuation u in
      let w = write_through previous (link_to id) v in
      let fu = register_page-fields t off in
      let fv = write_through-fields id as_continuation u in
      let fw = write_through-fields previous (link_to id) v in
      let next : w.next_page_id ≡ t.next_page_id + 1 = omega (arith, fw.2, fv.2, fu.2) in
      let rest =
        chain_pages-rows_on extra id k w (fw.1 ∙ fv.1 ∙ fu.1) (omega arith) (omega arith) in
      (
        rest.0
            ∙ rows_on-write_through previous k (link_to id) v (λ page. refl)
            ∙ rows_on-write_through id k as_continuation u (λ page. refl)
            ∙ rows_on-register_page k t off
            ∙ ground arith,
        rest.1 ∙ fw.0 ∙ fv.0 ∙ fu.0,
      )
