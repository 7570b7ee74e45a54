-- ===== src/Pages/Compaction/Packed.antt =====
-- The pages that a compaction builds, and their chains of continuation pages (src/backend/core/table.rs, the loop of `compact`).
use ant_db.Common.{
  ℕ, zero, suc, ◌+◌, ◌≤◌, ◌<◌, ◌≡◌, refl, ◌≢◌, ◌∙◌, inl, inr, Option, none, some, [], ◌∷◌, ltb,
  ◌==◌, if◌then◌else◌, NatMap, lookup, insert, arith, lookup-insert, ==_iff, Bool-cases,
  Option-cases,
}
use mathlib.Core.Path.{subst}
use ant_db.Row.Entry.{RowId}
use ant_db.Row.{Row}
use ant_db.Pages.Defs.{PageId, Page, new_page}
use ant_db.Pages.Insertion.{last_entry, link_to}
use ant_db.Pages.Compaction.{Packing, change_page, alloc_page, filled, extend_chain}

-- The keys of a map rise, from a bound on.
abbrev pub IsAbove {ℓ} : {V : Type ℓ} → ℕ → NatMap V → Type 0
IsAbove bound [] = Unit
IsAbove bound ((k, v) ∷ m) = (bound ≤ k) × IsAbove (suc k) m

module _ {ℓ} {V : Type ℓ} where
  IsAbove-insert :
      (bound k : ℕ) (v : V) (m : NatMap V)
      → bound ≤ k
      → IsAbove bound m
      → IsAbove bound (insert k v m)
  IsAbove-insert bound k v [] low h = (low, tt)
  IsAbove-insert bound k v ((j, w) ∷ m) low (lowj, h) = elim (Bool-cases (j == k)) [
    | inl same ↦ rw (same) (low, subst (λ (i : ℕ). IsAbove (suc i) m) ((==_iff j k).0 same) h)
    | inr other ↦ elim (Bool-cases (ltb k j)) [
      | inl before ↦ rw (other, before) (low, (ground arith, h))
      | inr after ↦ rw (other, after) (lowj, IsAbove-insert (suc j) k v m (ground arith) h)
    ]
  ]

  pub lookup-below : (bound k : ℕ) (m : NatMap V) → IsAbove bound m → k < bound → lookup k m ≡ none
  lookup-below bound k [] h low = refl
  lookup-below bound k ((j, w) ∷ m) (lowj, h) low =
      ground (arith, lookup-below (suc j) k m h (omega arith))

  pub last_entry-IsAbove :
      (bound : ℕ) (m : NatMap V) (e : ℕ × V)
      → IsAbove bound m
      → last_entry m ≡ some e
      → lookup e.0 m ≡ some e.1
  last_entry-IsAbove bound [] e h last = absurd (cc)
  last_entry-IsAbove bound (f ∷ []) e h last = ground arith
  last_entry-IsAbove bound (f ∷ g ∷ m) e (low, h) last =
      let found = last_entry-IsAbove (suc f.0) (g ∷ m) e h last in
      elim (Bool-cases (f.0 == e.0)) [
        | inl same ↦ absurd (ground (arith, lookup-below (suc f.0) e.0 (g ∷ m) h (ground arith)))
        | inr other ↦ ground arith
      ]

-- The rows of a page of a packing, and the row that it holds under an id.
abbrev pub rows_in : PageId → Packing → Option (NatMap Row)
rows_in id k = elim (lookup id k.pages) [ none ↦ none | some page ↦ some page.rows ]

abbrev pub packed_row : RowId → Packing → Option Row
packed_row j k = elim (lookup j k.locations) [
  | none ↦ none
  | some id ↦ elim (rows_in id k) [ none ↦ none | some rows ↦ lookup j rows ]
]

-- The pages stand in the order of their ids, and all ids in use are below the next one.
pub record IsPacked (k : Packing) : Type 0 where
  pub above : IsAbove 0 k.pages
  pub fresh : (id : PageId) → k.next ≤ id → lookup id k.pages ≡ none
  pub issued : (j : RowId) (id : PageId) → lookup j k.locations ≡ some id → id < k.next
  pub there : (j : RowId) (id : PageId) → lookup j k.locations ≡ some id → lookup id k.pages ≢ none

abbrev with_page : PageId → (Page → Page) → Packing → Packing
with_page id f k = record k { pages = change_page id f k.pages }

pub IsAbove-change_page :
    (id : PageId) (f : Page → Page) (pages : NatMap Page)
    → IsAbove 0 pages
    → IsAbove 0 (change_page id f pages)
unfolding change_page
IsAbove-change_page id f pages h = elim (Option-cases (lookup id pages)) [
  | inl absent ↦ rw (absent, change_page) h
  | inr (page, e) ↦ rw (e, change_page) (IsAbove-insert 0 id (f page) pages (omega arith) h)
]

pub lookup-change_page :
    (id j : PageId) (f : Page → Page) (pages : NatMap Page)
    → lookup j (change_page id f pages)
      ≡ elim (lookup j pages) [ none ↦ none | some page ↦ some (if id == j then f page else page) ]
unfolding change_page
lookup-change_page id j f pages = elim (Option-cases (lookup id pages)) [
  | inl absent ↦ ground arith
  | inr (page, e) ↦ ground (arith, lookup-insert id j (f page) pages)
]

pub with_page-IsPacked :
    (id : PageId) (f : Page → Page) (k : Packing) → IsPacked k → IsPacked (with_page id f k)
with_page-IsPacked id f k h = record {
  above = IsAbove-change_page id f k.pages h.above;
  fresh = λ j low. ground (arith, lookup-change_page id j f k.pages, h.fresh j);
  issued = h.issued;
  there = λ j i e. ground (arith, lookup-change_page id i f k.pages, h.there j i e);
}

pub rows_in-with_page :
    (id j : PageId) (f : Page → Page) (k : Packing)
    → ((page : Page) → (f page).rows ≡ page.rows)
    → rows_in j (with_page id f k) ≡ rows_in j k
rows_in-with_page id j f k same = elim (Option-cases (lookup j k.pages)) [
  | inl absent ↦ ground (arith, lookup-change_page id j f k.pages)
  | inr (page, e) ↦ ground (arith, same page, lookup-change_page id j f k.pages)
]

-- The packing after `alloc_page`
abbrev pub allocated : ℕ → Packing → Packing
allocated page_size k = record k {
  pages = insert k.next (new_page k.next page_size) k.pages;
  next = k.next + 1;
}

pub allocated-IsPacked :
    (page_size : ℕ) (k : Packing) → IsPacked k → IsPacked (allocated page_size k)
allocated-IsPacked page_size k h = record {
  above = IsAbove-insert 0 k.next (new_page k.next page_size) k.pages (omega arith) h.above;
  fresh = λ j low.
      ground (arith, lookup-insert k.next j (new_page k.next page_size) k.pages, h.fresh j);
  issued = λ j id e. omega (arith, h.issued j id e);
  there = λ j id e.
      ground (arith, lookup-insert k.next id (new_page k.next page_size) k.pages, h.there j id e);
}

pub rows_in-allocated :
    (page_size : ℕ) (j : PageId) (k : Packing)
    → rows_in j (allocated page_size k) ≡ (if k.next == j then some [] else rows_in j k)
unfolding new_page
rows_in-allocated page_size j k =
    ground (arith, lookup-insert k.next j (new_page k.next page_size) k.pages)

-- The continuation pages of an oversized row take no rows and change none.
pub extend_chain-rows_in :
    (page_size extra : ℕ) (previous : PageId) (k : Packing)
    → IsPacked k
    → IsPacked (extend_chain page_size extra previous k)
      × ((extend_chain page_size extra previous k).locations ≡ k.locations)
      × ((j : PageId)
          → j < k.next
          → rows_in j (extend_chain page_size extra previous k) ≡ rows_in j k)
unfolding extend_chain alloc_page
extend_chain-rows_in page_size zero previous k h = (h, refl, λ j low. refl)
extend_chain-rows_in page_size (suc extra) previous k h =
    let u = allocated page_size k in
    let v = with_page k.next filled u in
    let w = with_page previous (link_to k.next) v in
    let (packed, locs, same) = extend_chain-rows_in page_size extra k.next w (
      with_page-IsPacked previous (link_to k.next) v
        (with_page-IsPacked k.next filled u (allocated-IsPacked page_size k h))) in
    (
      packed,
      locs,
      λ j low.
          same j (omega arith)
          ∙ rows_in-with_page previous j (link_to k.next) v (λ page. refl)
          ∙ rows_in-with_page k.next j filled u (λ page. refl)
          ∙ rows_in-allocated page_size j k
          ∙ ground arith,
    )
