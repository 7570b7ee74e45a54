-- ===== src/Table/Vacuum/Unmoved.antt =====
-- What the pruning of index entries leaves of the pages (src/backend/core/table.rs): it may bring pages into
-- memory and evict others, but where no index is kept, or all pages are in memory, they stay as they are.
use ant_db.Common.{
  ℕ, ◌≡◌, refl, ap, ◌∙◌, inl, inr, Bool, none, some, List, [], ◌∷◌, NatMap, lookup, arith, All,
  Bool-cases, Option-cases,
}
use ant_db.Txn.{TransactionId}
use ant_db.Versions.{prune_versions, is_retained}
use ant_db.Row.Entry.{RowId}
use ant_db.Pages.Defs.{PageId, Page, Sizes}
use ant_db.Pages.{Space, touch_page, ensure_page_resident}
use ant_db.Pages.Rows.{page_for_row, lookup-map_values}
use ant_db.Column.Entries.{Index, AddedBy, split_alive, prune_entries, drop_rows}
use ant_db.Column.{
  InternalColumn, Column, column_versioned, prune_version_index, prune_index, prune_column,
}
use ant_db.Database.{Table}
use ant_db.Table.Vacuum.{
  prune_page, prune_space, row_is_alive_for_prune, prune_columns, prune_table_versions,
}

-- What asking for one row preserves, the pruning of an index preserves.
module _ {ℓ κ} {S : Type ℓ} (is_alive : RowId → S → Bool × S) (P : S → Type κ) where
  module _ (step : (r : RowId) (s : S) → P s → P (is_alive r s).1) where
    split_alive-keeps : (ids : List ℕ) (s : S) → P s → P (split_alive is_alive ids s).1
    unfolding split_alive
    split_alive-keeps [] s h = h
    split_alive-keeps (r ∷ ids) s h = split_alive-keeps ids (is_alive r s).1 (step r s h)

    prune_entries-keeps :
        (index : Index) (added : AddedBy) (s : S) → P s → P (prune_entries is_alive index added s).1
    unfolding prune_entries
    prune_entries-keeps [] added s h = h
    prune_entries-keeps ((k, ids) ∷ index) added s h =
        let split = split_alive is_alive ids s in
        prune_entries-keeps index (drop_rows k split.0.1 added) split.1 (split_alive-keeps ids s h)

    prune_version_index-keeps :
        (c : InternalColumn) (s : S) → P s → P (prune_version_index is_alive c s).1
    unfolding prune_version_index
    prune_version_index-keeps c s h = elim (Option-cases c.index) [
      | inl bare ↦ rw (bare) h
      | inr (index, e) ↦ rw (e) (prune_entries-keeps index c.index_added_by s h)
    ]

    pub prune_index-keeps :
        (cs : List InternalColumn) (s : S) → P s → P (prune_index is_alive cs s).1
    unfolding prune_index
    prune_index-keeps [] s h = h
    prune_index-keeps (c ∷ cs) s h =
        prune_index-keeps cs (prune_version_index is_alive c s).1 (prune_version_index-keeps c s h)

-- No version of a column keeps an index, so that pruning reads no row.
abbrev pub HasNone : List InternalColumn → Type 0
HasNone versions = All (λ (v : InternalColumn). v.index ≡ none) versions

abbrev pub HasNoIndex : NatMap Column → Type 0
HasNoIndex columns = All (λ (e : ℕ × Column). HasNone e.1.versions) columns

HasNone-prune_versions :
    (oldest : TransactionId) (vs : List InternalColumn)
    → HasNone vs
    → HasNone (prune_versions column_versioned oldest vs)
unfolding prune_versions
HasNone-prune_versions oldest [] h = tt
HasNone-prune_versions oldest (v ∷ vs) (hv, h) =
    let rest = HasNone-prune_versions oldest vs h in
    elim (Bool-cases (is_retained oldest v.transaction_header.deleted_by)) [
      | inl stays ↦ rw (stays) (hv, rest)
      | inr goes ↦ rw (goes) rest
    ]

prune_index-HasNone :
    {S : Type 0} (is_alive : RowId → S → Bool × S) (vs : List InternalColumn) (s : S)
    → HasNone vs
    → (prune_index is_alive vs s).1 ≡ s
unfolding prune_index prune_version_index
prune_index-HasNone is_alive [] s h = refl
prune_index-HasNone is_alive (v ∷ vs) s (hv, h) = rw (hv) (prune_index-HasNone is_alive vs s h)

-- The pages in memory and the row locations of the two are the same.
abbrev pub HasSamePages : Space → Space → Type 0
HasSamePages t u = (u.row_space ≡ t.row_space) × (u.row_locations ≡ t.row_locations)

-- The page of every location is in memory.
abbrev pub IsResident : Space → Type 0
IsResident t =
    (r : RowId) (id : PageId)
    → lookup r t.row_locations ≡ some id
    → (page : Page) × (lookup id t.row_space ≡ some page)

module _ (sizes : Sizes) where
  row_is_alive-HasSamePages :
      (oldest : TransactionId) (t : Space)
      → IsResident t
      → (r : RowId) (u : Space) → HasSamePages t u
      → HasSamePages t (row_is_alive_for_prune sizes oldest r u).1
  unfolding row_is_alive_for_prune page_for_row ensure_page_resident touch_page
  row_is_alive-HasSamePages oldest t resident r u (pages, locs) =
      elim (Option-cases (lookup r u.row_locations)) [
        | inl unknown ↦ rw (row_is_alive_for_prune, page_for_row, unknown) (pages, locs)
        | inr (id, at) ↦
            let (page, held) = resident r id (ground (arith, at, locs)) in
            let held' : lookup id u.row_space ≡ some page = ground (arith, held, pages) in
            elim (Option-cases (lookup r page.rows)) [
              | inl absent ↦
                  rw (row_is_alive_for_prune, page_for_row, ensure_page_resident, at, held', absent)
                    (pages, locs)
              | inr (row, e) ↦
                  rw (row_is_alive_for_prune, page_for_row, ensure_page_resident, at, held', e)
                    (pages, locs)
            ]
      ]

  prune_columns-resident :
      (oldest : TransactionId) (columns : NatMap Column) (t u : Space)
      → IsResident t
      → HasSamePages t u
      → HasSamePages t (prune_columns sizes oldest columns u).1
  unfolding prune_columns prune_column
  prune_columns-resident oldest [] t u resident h = h
  prune_columns-resident oldest ((id, c) ∷ columns) t u resident h =
      let is_alive = row_is_alive_for_prune sizes oldest in
      prune_columns-resident oldest columns t (prune_column is_alive oldest c u).1 resident (
        prune_index-keeps is_alive (HasSamePages t) (row_is_alive-HasSamePages oldest t resident)
          (prune_versions column_versioned oldest c.versions) u h)

  prune_columns-unindexed :
      (oldest : TransactionId) (columns : NatMap Column) (t : Space)
      → HasNoIndex columns
      → (prune_columns sizes oldest columns t).1 ≡ t
  unfolding prune_columns prune_column
  prune_columns-unindexed oldest [] t h = refl
  prune_columns-unindexed oldest ((id, c) ∷ columns) t (hc, h) =
      let is_alive = row_is_alive_for_prune sizes oldest in
      let same =
        prune_index-HasNone is_alive (prune_versions column_versioned oldest c.versions) t
          (HasNone-prune_versions oldest c.versions hc) in
      ap (λ u. (prune_columns sizes oldest columns u).1) same
      ∙ prune_columns-unindexed oldest columns t h

  IsResident-pruned :
      (oldest : TransactionId) (t : Space) → IsResident t → IsResident (prune_space oldest t)
  unfolding prune_space
  IsResident-pruned oldest t resident r id at =
      let (page, held) = resident r id at in
      (
        prune_page oldest page,
        ground (arith, held, lookup-map_values (prune_page oldest) id t.row_space),
      )

  -- The pages after the versions are pruned, where all pages were in memory.
  pub prune_table_versions-resident :
      (oldest : TransactionId) (t : Table)
      → IsResident t.space
      → HasSamePages (prune_space oldest t.space) (prune_table_versions sizes oldest t).space
  unfolding prune_table_versions
  prune_table_versions-resident oldest t resident =
      prune_columns-resident oldest t.columns (prune_space oldest t.space)
        (prune_space oldest t.space) (IsResident-pruned oldest t.space resident) (refl, refl)

  -- The pages after the versions are pruned, where no index is kept.
  pub prune_table_versions-unindexed :
      (oldest : TransactionId) (t : Table)
      → HasNoIndex t.columns
      → HasSamePages (prune_space oldest t.space) (prune_table_versions sizes oldest t).space
  unfolding prune_table_versions
  prune_table_versions-unindexed oldest t h =
      let same = prune_columns-unindexed oldest t.columns (prune_space oldest t.space) h in
      (ap (λ (u : Space). u.row_space) same, ap (λ (u : Space). u.row_locations) same)
