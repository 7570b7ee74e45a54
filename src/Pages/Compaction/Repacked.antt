-- ===== src/Pages/Compaction/Repacked.antt =====
-- A compaction (src/backend/core/table.rs, `compact`) keeps the rows on the pages in memory.
use ant_db.Common.{
  ℕ, suc, ◌≡◌, refl, ◌≢◌, ap, ◌∙◌, inl, inr, Option, none, some, List, [], ◌∷◌, leb, ◌==◌,
  if◌then◌else◌, NatMap, lookup, arith, All, Bool-cases, Option-cases,
}
use ant_db.Row.Entry.{RowId}
use ant_db.Row.{Row}
use ant_db.Pages.Defs.{PageId, Page, Sizes}
use ant_db.Pages.{Space}
use ant_db.Pages.Rows.{row_at}
use ant_db.Pages.Compaction.{
  LiveRow, Packing, empty_packing, has_no_version, place_rows, insert_live, sort_live, page_rows,
  live_rows, count_pages, rebuild_runtime_state, compact,
}
use ant_db.Pages.Compaction.Packed.{IsAbove, lookup-below, packed_row, IsPacked}
use ant_db.Pages.Compaction.Placing.{
  row_among, place_rows-row_among, place_rows-IsPacked, empty-IsPacked,
}

row_among-insert_live :
    (j : RowId) (r : LiveRow) (rs : List LiveRow) (base : Option Row)
    → row_among j (insert_live r rs) base ≡ row_among j (r ∷ rs) base
unfolding insert_live
row_among-insert_live j r [] base = refl
row_among-insert_live j r (s ∷ rs) base = elim (Bool-cases (leb r.live_id s.live_id)) [
  | inl before ↦ rw (before) refl
  | inr after ↦ rw (after) (
      row_among-insert_live j r rs (if s.live_id == j then some s.live_row else base)
      ∙ ap (row_among j rs) (ground arith))
]

row_among-sort_live :
    (j : RowId) (rs : List LiveRow) (base : Option Row)
    → row_among j (sort_live rs) base ≡ row_among j rs base
unfolding sort_live
row_among-sort_live j [] base = refl
row_among-sort_live j (r ∷ rs) base =
    row_among-insert_live j r (sort_live rs) base
    ∙ row_among-sort_live j rs (if r.live_id == j then some r.live_row else base)

-- A row, unless it has no version.
abbrev pub unless_empty : Row → Option Row
unless_empty row = if has_no_version row then none else some row

-- What a vacuum keeps of a row that may be there.
abbrev pub kept : Option Row → Option Row
kept none = none
kept (some row) = unless_empty row

-- A map's value, or else a given one.
abbrev or_base : Option Row → Option Row → Option Row
or_base none base = base
or_base (some row) base = some row

or_base-none : (o : Option Row) → or_base o none ≡ o
or_base-none none = refl
or_base-none (some row) = refl

pub some_injective {ℓ} : {A : Type ℓ} (a b : A) → some a ≡ some b → a ≡ b
some_injective a b e = ground arith

unheld : (o : Option Row) → ¬ (o ≢ none) → o ≡ none
unheld none h = refl
unheld (some row) h = absurd (h (λ e. cc))

-- The rows of every page stand in the order of their ids.
abbrev pub ArePagesAbove : NatMap Page → Type 0
ArePagesAbove pages = All (λ e. IsAbove 0 e.1.rows) pages

-- A row lies on no page in memory but the one that it is located on.
abbrev pub IsOnlyAt : RowId → Space → Type 0
IsOnlyAt j t =
    (id : PageId) (page : Page)
    → lookup id t.row_space ≡ some page
    → lookup j page.rows ≢ none
    → lookup j t.row_locations ≡ some id

-- What the pages in memory hold under an id.
abbrev pub resident_row : RowId → Space → Option Row
resident_row j t = elim (lookup j t.row_locations) [
  | none ↦ none
  | some id ↦ elim (lookup id t.row_space) [ none ↦ none | some page ↦ lookup j page.rows ]
]

module _ (sizes : Sizes) where
  row_among-page_rows :
      (j bound : ℕ) (rows : NatMap Row) (rest : List LiveRow) (base : Option Row)
      → IsAbove bound rows
      → row_among j (page_rows sizes rows rest) base
        ≡ row_among j rest (or_base (kept (lookup j rows)) base)
  unfolding page_rows
  row_among-page_rows j bound [] rest base h = refl
  row_among-page_rows j bound ((i, row) ∷ rows) rest base (low, h) =
      let later = row_among-page_rows j (suc i) rows rest in
      let below = lookup-below (suc i) j rows h in
      elim (Bool-cases (has_no_version row)) [
        | inl gone ↦ rw (gone) (later base h ∙ ap (row_among j rest) (ground (arith, below)))
        | inr lives ↦ rw (lives) (
            later (if i == j then some row else base) h
            ∙ ap (row_among j rest) (ground (arith, below)))
      ]

  -- The last of the pages in memory that holds a row under an id with a version left says what is kept.
  last_held : RowId → NatMap Page → Option Row → Option Row
  last_held j [] base = base
  last_held j ((id, page) ∷ pages) base =
      last_held j pages (or_base (kept (lookup j page.rows)) base)

  row_among-live_rows :
      (j : RowId) (pages : NatMap Page) (base : Option Row)
      → ArePagesAbove pages
      → row_among j (live_rows sizes pages) base ≡ last_held j pages base
  unfolding live_rows last_held
  row_among-live_rows j [] base h = refl
  row_among-live_rows j ((id, page) ∷ pages) base (above, h) =
      row_among-page_rows j 0 page.rows (live_rows sizes pages) base above
      ∙ row_among-live_rows j pages (or_base (kept (lookup j page.rows)) base) h

  none_held :
      (j bound : ℕ) (pages : NatMap Page) (base : Option Row)
      → ((id : PageId) (page : Page) → lookup id pages ≡ some page → lookup j page.rows ≡ none)
      → IsAbove bound pages
      → last_held j pages base ≡ base
  unfolding last_held
  none_held j bound [] base h above = refl
  none_held j bound ((id, page) ∷ pages) base h (low, above) =
      let here : lookup j page.rows ≡ none = h id page (ground arith) in
      rw (here) (
        none_held j (suc id) pages base
          (λ i other e. h i other (ground (arith, lookup-below (suc id) i pages above))) above)

  one_held :
      (j k bound : ℕ) (pages : NatMap Page) (held : Page)
      → IsAbove bound pages
      → lookup k pages ≡ some held
      → ((id : PageId) (page : Page)
          → lookup id pages ≡ some page
          → k ≢ id
          → lookup j page.rows ≡ none)
      → last_held j pages none ≡ kept (lookup j held.rows)
  unfolding last_held
  one_held j k bound [] held above e h = absurd (cc)
  one_held j k bound ((id, page) ∷ pages) held (low, above) e h = elim (Bool-cases (id == k)) [
    | inl same ↦
        let rows : lookup j page.rows ≡ lookup j held.rows =
          ap (λ (p : Page). lookup j p.rows) (some_injective page held (ground arith)) in
        none_held j (suc id) pages (or_base (kept (lookup j page.rows)) none)
          (λ i other f.
            let absent = lookup-below (suc id) i pages above in
            h i other (ground (arith, absent)) (λ at. ground (arith, absent)))
          above
        ∙ or_base-none (kept (lookup j page.rows))
        ∙ ap kept rows
    | inr other ↦
        let here : lookup j page.rows ≡ none = h id page (ground arith) (ground arith) in
        rw (here) (
          one_held j k (suc id) pages held above (ground arith) (λ i page' f apart.
            h i page' (ground (arith, lookup-below (suc id) i pages above)) apart))
  ]

  count_pages-fields :
      (pages : NatMap Page) (t : Space)
      → ((count_pages sizes pages t).row_space ≡ t.row_space)
        × ((count_pages sizes pages t).row_locations ≡ t.row_locations)
  unfolding count_pages
  count_pages-fields [] t = (refl, refl)
  count_pages-fields ((id, page) ∷ pages) t = count_pages-fields pages _

  row_at-packed_row :
      (j : RowId) (k : Packing) (t : Space)
      → IsPacked k
      → t.row_space ≡ k.pages
      → t.row_locations ≡ k.locations
      → row_at j t ≡ packed_row j k
  unfolding row_at
  row_at-packed_row j k t h pages locs = elim (Option-cases (lookup j k.locations)) [
    | inl absent ↦ ground arith
    | inr (id, e) ↦ elim (Option-cases (lookup id k.pages)) [
      | inl missing ↦ absurd (h.there j id e missing)
      | inr (page, at) ↦ ground arith
    ]
  ]

  resident-kept :
      (j : RowId) (t : Space)
      → IsAbove 0 t.row_space
      → IsOnlyAt j t
      → last_held j t.row_space none ≡ kept (resident_row j t)
  resident-kept j t above only = elim (Option-cases (lookup j t.row_locations)) [
    | inl unknown ↦
        none_held j 0 t.row_space none
          (λ id page e. unheld (lookup j page.rows) (λ held. ground (arith, only id page e held)))
          above
        ∙ ground arith
    | inr (k, located) ↦ elim (Option-cases (lookup k t.row_space)) [
      | inl evicted ↦
          none_held j 0 t.row_space none
            (λ id page e. unheld (lookup j page.rows) (λ held. ground (arith, only id page e held)))
            above
          ∙ ground arith
      | inr (page, e) ↦
          one_held j k 0 t.row_space page above e (λ id other f apart.
            unheld (lookup j other.rows) (λ held. apart (ground (arith, only id other f held))))
          ∙ ground arith
    ]
  ]

  -- A compaction keeps every row on a page in memory that has a version left, under its id, and no
  -- other row: a row whose page has been evicted is not found any more. (The pages and the rows of each
  -- page stand in the order of their ids, and a row lies on no page in memory but the one that it is
  -- located on.)
  pub row_at-compact :
      (j : RowId) (t : Space)
      → IsAbove 0 t.row_space
      → ArePagesAbove t.row_space
      → IsOnlyAt j t
      → row_at j (compact sizes t) ≡ kept (resident_row j t)
  unfolding compact rebuild_runtime_state
  row_at-compact j t above rows only =
      let live = live_rows sizes t.row_space in
      let packed = place_rows t.page_size (sort_live live) empty_packing in
      let counted = count_pages-fields packed.pages _ in
      row_at-packed_row j packed (compact sizes t)
        (place_rows-IsPacked t.page_size (sort_live live) empty_packing empty-IsPacked) counted.0
        counted.1
      ∙ place_rows-row_among t.page_size (sort_live live) empty_packing j empty-IsPacked
      ∙ row_among-sort_live j live none
      ∙ row_among-live_rows j t.row_space none rows
      ∙ resident-kept j t above only
