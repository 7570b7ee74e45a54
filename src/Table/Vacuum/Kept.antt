-- ===== src/Table/Vacuum/Kept.antt =====
-- What a vacuum (src/backend/core/table.rs) keeps of the rows of a table, and what it forgets.
use ant_db.Common.{
  ℕ, suc, ◌≤◌, ◌≡◌, refl, ap, sym, ◌∙◌, inl, inr, Option, none, some, [], ◌∷◌, ◌==◌, NatMap, lookup,
  insert, arith, lookup-insert, map_values, Bool-cases, Option-cases,
}
use ant_db.Errors.{ok}
use ant_db.Txn.{TransactionId}
use mathlib.Core.Path.{subst}
use ant_db.Row.Entry.{RowId}
use ant_db.Row.{Row, prune_row}
use ant_db.Pages.Defs.{PageId, Page, Sizes}
use ant_db.Pages.{Space}
use ant_db.Pages.Rows.{row_at, lookup-map_values}
use ant_db.Pages.Compaction.{
  has_no_version, materialize_all_pages, compact, flush_all_pages, overlay, clean, clean_pages,
}
use ant_db.Pages.Compaction.Packed.{IsAbove, lookup-below}
use ant_db.Pages.Compaction.Repacked.{
  kept, resident_row, IsOnlyAt, ArePagesAbove, row_at-compact, some_injective,
}
use ant_db.Database.{Table}
use ant_db.Table.Vacuum.Unmoved.{HasSamePages}
use ant_db.Table.Vacuum.{prune_rows, prune_page, prune_space, prune_table_versions, vacuum_table}

-- A row that may be there, pruned
abbrev pub pruned : TransactionId → Option Row → Option Row
pruned oldest none = none
pruned oldest (some row) = kept (some (prune_row oldest row))

IsAbove-later :
    (bound bound' : ℕ) (rows : NatMap Row)
    → bound ≤ bound'
    → IsAbove bound' rows
    → IsAbove bound rows
IsAbove-later bound bound' [] le h = tt
IsAbove-later bound bound' ((i, row) ∷ rows) le (low, h) = (omega arith, h)

prune_rows-IsAbove :
    (oldest : TransactionId) (bound : ℕ) (rows : NatMap Row)
    → IsAbove bound rows
    → IsAbove bound (prune_rows oldest rows)
unfolding prune_rows
prune_rows-IsAbove oldest bound [] h = tt
prune_rows-IsAbove oldest bound ((i, row) ∷ rows) (low, h) =
    let later = prune_rows-IsAbove oldest (suc i) rows h in
    elim (Bool-cases (has_no_version (prune_row oldest row))) [
      | inl gone ↦
          rw (gone) (IsAbove-later bound (suc i) (prune_rows oldest rows) (omega arith) later)
      | inr lives ↦ rw (lives) (low, later)
    ]

lookup-prune_rows :
    (oldest : TransactionId) (j bound : ℕ) (rows : NatMap Row)
    → IsAbove bound rows
    → lookup j (prune_rows oldest rows) ≡ pruned oldest (lookup j rows)
unfolding prune_rows
lookup-prune_rows oldest j bound [] h = refl
lookup-prune_rows oldest j bound ((i, row) ∷ rows) (low, h) =
    let later = lookup-prune_rows oldest j (suc i) rows h in
    let below = lookup-below (suc i) j rows h in
    elim (Bool-cases (has_no_version (prune_row oldest row))) [
      | inl gone ↦ rw (gone) (later ∙ ground (arith, below))
      | inr lives ↦ rw (lives) (ground (arith, later))
    ]

kept-pruned : (oldest : TransactionId) (o : Option Row) → kept (pruned oldest o) ≡ pruned oldest o
kept-pruned oldest none = refl
kept-pruned oldest (some row) = elim (Bool-cases (has_no_version (prune_row oldest row))) [
  | inl gone ↦ rw (gone) refl
  | inr lives ↦ rw (lives) (rw (lives) refl)
]

map_values-IsAbove :
    (f : Page → Page) (bound : ℕ) (pages : NatMap Page)
    → IsAbove bound pages
    → IsAbove bound (map_values f pages)
map_values-IsAbove f bound [] h = tt
map_values-IsAbove f bound ((i, page) ∷ pages) (low, h) =
    (low, map_values-IsAbove f (suc i) pages h)

ArePagesAbove-pruned :
    (oldest : TransactionId) (pages : NatMap Page)
    → ArePagesAbove pages
    → ArePagesAbove (map_values (prune_page oldest) pages)
ArePagesAbove-pruned oldest [] h = tt
ArePagesAbove-pruned oldest ((id, page) ∷ pages) (above, h) =
    (prune_rows-IsAbove oldest 0 page.rows above, ArePagesAbove-pruned oldest pages h)

page-IsAbove :
    (id : PageId) (pages : NatMap Page) (page : Page)
    → ArePagesAbove pages
    → lookup id pages ≡ some page
    → IsAbove 0 page.rows
page-IsAbove id [] page h e = absurd (cc)
page-IsAbove id ((i, p) ∷ pages) page (above, h) e = elim (Bool-cases (i == id)) [
  | inl same ↦ subst (λ (p : Page). IsAbove 0 p.rows) (some_injective p page (ground arith)) above
  | inr other ↦ page-IsAbove id pages page h (ground arith)
]

resident_row-pruned :
    (oldest : TransactionId) (j : RowId) (t : Space)
    → ArePagesAbove t.row_space
    → resident_row j (prune_space oldest t) ≡ pruned oldest (resident_row j t)
unfolding prune_space
resident_row-pruned oldest j t h = elim (Option-cases (lookup j t.row_locations)) [
  | inl unknown ↦ ground arith
  | inr (id, at) ↦ elim (Option-cases (lookup id t.row_space)) [
    | inl evicted ↦ ground (arith, lookup-map_values (prune_page oldest) id t.row_space)
    | inr (page, e) ↦ ground (
      arith,
      lookup-map_values (prune_page oldest) id t.row_space,
      lookup-prune_rows oldest j 0 page.rows (page-IsAbove id t.row_space page h e),
    )
  ]
]

IsOnlyAt-pruned :
    (oldest : TransactionId) (j : RowId) (t : Space)
    → ArePagesAbove t.row_space
    → IsOnlyAt j t
    → IsOnlyAt j (prune_space oldest t)
unfolding prune_space
IsOnlyAt-pruned oldest j t h only id page e held = elim (Option-cases (lookup id t.row_space)) [
  | inl evicted ↦ absurd (ground (arith, lookup-map_values (prune_page oldest) id t.row_space))
  | inr (unpruned, f) ↦ only id unpruned f (λ absent. held (
      ground (
        arith,
        lookup-map_values (prune_page oldest) id t.row_space,
        lookup-prune_rows oldest j 0 unpruned.rows (page-IsAbove id t.row_space unpruned h f),
      )))
]

lookup-clean_pages :
    (id : PageId) (pages : NatMap Page)
    → lookup id (clean_pages pages)
      ≡ elim (lookup id pages) [ none ↦ none | some page ↦ some (clean page) ]
lookup-clean_pages id [] = refl
lookup-clean_pages id ((i, page) ∷ pages) = ground (arith, lookup-clean_pages id pages)

lookup-overlay :
    (id : PageId) (pages stored : NatMap Page)
    → lookup id pages ≡ none
    → lookup id (overlay pages stored) ≡ lookup id stored
unfolding overlay
lookup-overlay id [] stored h = refl
lookup-overlay id ((i, page) ∷ pages) stored h =
    lookup-overlay id pages (insert i (clean page) stored) (ground arith)
    ∙ ground (arith, lookup-insert i id (clean page) stored)

locs_at :
    (j : RowId) (id : PageId) (v w : Space)
    → w.row_locations ≡ v.row_locations
    → lookup j v.row_locations ≡ some id
    → lookup j w.row_locations ≡ some id
locs_at j id v w locs e = ap (lookup j) locs ∙ e

resident_row_congr :
    (j : RowId) (v w : Space)
    → w.row_space ≡ v.row_space
    → w.row_locations ≡ v.row_locations
    → resident_row j w ≡ resident_row j v
resident_row_congr j v w pages locs =
    ap
      (λ (m : NatMap Page). elim (lookup j w.row_locations) [
        | none ↦ none
        | some id ↦ elim (lookup id m) [ none ↦ none | some page ↦ lookup j page.rows ]
      ])
      pages
    ∙ ap
        (λ (l : NatMap PageId). elim (lookup j l) [
          | none ↦ none
          | some id ↦ elim (lookup id v.row_space) [ none ↦ none | some page ↦ lookup j page.rows ]
        ])
        locs

-- Writing all pages back changes no row.
pub row_at-flush_all_pages : (j : RowId) (t : Space) → row_at j (flush_all_pages t) ≡ row_at j t
unfolding row_at flush_all_pages
row_at-flush_all_pages j t = elim (Option-cases (lookup j t.row_locations)) [
  | inl unknown ↦ ground arith
  | inr (id, at) ↦ elim (Option-cases (lookup id t.row_space)) [
    | inl evicted ↦ ground (
      arith,
      lookup-clean_pages id t.row_space,
      lookup-overlay id t.row_space t.page_store evicted,
    )
    | inr (page, e) ↦ ground (arith, lookup-clean_pages id t.row_space)
  ]
]

module _ (sizes : Sizes) where
  -- What a compaction leaves depends on the pages in memory and the locations alone.
  row_at-compact_same :
      (j : RowId) (v w : Space)
      → HasSamePages v w
      → IsAbove 0 v.row_space
      → ArePagesAbove v.row_space
      → IsOnlyAt j v
      → row_at j (compact sizes w) ≡ kept (resident_row j v)
  row_at-compact_same j v w (pages, locs) above rows only =
      row_at-compact sizes j w (subst (IsAbove 0) (sym pages) above)
        (subst ArePagesAbove (sym pages) rows)
        (λ id page e held.
          locs_at j id v w locs (only id page (ap (lookup id) (sym pages) ∙ e) held))
      ∙ ap kept (resident_row_congr j v w pages locs)

  -- A vacuum whose pages could be loaded keeps under every id what pruning leaves of the row on the
  -- pages that are then in memory, and nothing where no version is left. (The pages then in memory and
  -- the rows of each stand in the order of their ids, the row lies on no page there but the one that it
  -- is located on, and the pruning of indexes leaves the pages as they are.)
  pub row_at-vacuum_table :
      (oldest : TransactionId) (j : RowId) (t : Table) (u : Space)
      → materialize_all_pages sizes t.space ≡ ok u
      → IsAbove 0 u.row_space
      → ArePagesAbove u.row_space
      → IsOnlyAt j u
      → HasSamePages
          (prune_space oldest u)
          (prune_table_versions sizes oldest (record t { space = u })).space
      → row_at j (vacuum_table sizes oldest t).space ≡ pruned oldest (resident_row j u)
  unfolding vacuum_table
  row_at-vacuum_table oldest j t u loaded above rows only unmoved =
      let w = (prune_table_versions sizes oldest (record t { space = u })).space in
      let same : (vacuum_table sizes oldest t).space ≡ flush_all_pages (compact sizes w) =
        ground (arith, loaded) in
      ap (row_at j) same
      ∙ row_at-flush_all_pages j (compact sizes w)
      ∙ row_at-compact_same j (prune_space oldest u) w unmoved
          (map_values-IsAbove (prune_page oldest) 0 u.row_space above)
          (ArePagesAbove-pruned oldest u.row_space rows) (IsOnlyAt-pruned oldest j u rows only)
      ∙ ap kept (resident_row-pruned oldest j u rows)
      ∙ kept-pruned oldest (resident_row j u)
