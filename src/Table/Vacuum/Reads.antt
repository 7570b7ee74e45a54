-- ===== src/Table/Vacuum/Reads.antt =====
-- What transactions read of a table after a vacuum (src/backend/core/table.rs), with no limit on memory,
-- and what a limit loses.
use ant_db.Common.{
  ◌≤◌, ◌≡◌, refl, ap, sym, ◌∙◌, inl, inr, true, Option, none, some, List, [], ◌∷◌, ◌==◌,
  if◌then◌else◌, NatMap, lookup, values, contains, arith, lookup-insert, contains-insert_key, All,
  Option-cases, Bool-cases, ==_iff,
}
use ant_db.Errors.{ok, Result-cases}
use ant_db.Txn.{TransactionId, TransactionSnapshot, Transaction}
use ant_db.Versions.{reader, prune_versions, view, latest}
use ant_db.Versions.Vacuum.{IsOwn, view-prune}
use ant_db.Row.Entry.{RowId, RowData}
use ant_db.Row.{InternalRow, Row, row_versioned, row_view, prune_row}
use ant_db.Pages.Defs.{PageId, Page, Sizes}
use ant_db.Pages.{Space, touch_page, admit_page, maybe_evict_pages, ensure_page_resident}
use ant_db.Pages.Eviction.{content}
use ant_db.Pages.Rows.{row_at}
use ant_db.Pages.Compaction.{id_set, load_pages, materialize_all_pages}
use ant_db.Pages.Compaction.Packed.{IsAbove}
use ant_db.Pages.Compaction.Repacked.{unless_empty, resident_row, IsOnlyAt, ArePagesAbove}
use ant_db.Database.{Table}
use ant_db.Table.Vacuum.{vacuum_table}
use ant_db.Table.Vacuum.Unmoved.{
  HasNoIndex, IsResident, prune_table_versions-resident, prune_table_versions-unindexed,
}
use ant_db.Table.Vacuum.Kept.{pruned, row_at-vacuum_table}

contains-id_set : (id : PageId) (ids : List PageId) → contains id (id_set ids) ≡ contains id ids
contains-id_set id [] = refl
contains-id_set id (i ∷ ids) =
    ground (arith, contains-id_set id ids, contains-insert_key i id (id_set ids))

contains-values :
    (j : RowId) (id : PageId) (m : NatMap PageId)
    → lookup j m ≡ some id
    → contains id (values m) ≡ true
contains-values j id [] e = absurd (cc)
contains-values j id ((i, k) ∷ m) e = ground (arith, contains-values j id m)

-- What a transaction reads under a row id
abbrev pub seen_at : Transaction → RowId → Space → Option RowData
seen_at txn j t = elim (row_at j t) [ none ↦ none | some row ↦ row_view txn row ]

module _ (sizes : Sizes) where
  -- Loading a page where memory has no limit
  ensure_unlimited :
      (id : PageId) (t u : Space) (page : Page)
      → t.memory_limit ≡ 0
      → ensure_page_resident sizes id t ≡ ok (page, u)
      → (u.memory_limit ≡ 0)
        × (u.row_locations ≡ t.row_locations)
        × (u.page_store ≡ t.page_store)
        × ((k : PageId)
            → lookup k u.row_space ≡ (if id == k then content k t else lookup k t.row_space))
  unfolding ensure_page_resident touch_page admit_page maybe_evict_pages
  ensure_unlimited id t u page off e = elim (Option-cases (lookup id t.row_space)) [
    | inl absent ↦ elim (Option-cases (lookup id t.page_store)) [
      | inl missing ↦ absurd (ground arith)
      | inr (stored, f) ↦ (
        ground arith,
        ground arith,
        ground arith,
        λ k. ground (arith, lookup-insert id k stored t.row_space),
      )
    ]
    | inr (resident, f) ↦ (ground arith, ground arith, ground arith, λ k. ground arith)
  ]

  load_unlimited :
      (ids : List PageId) (t u : Space)
      → t.memory_limit ≡ 0
      → load_pages sizes ids t ≡ ok u
      → (u.row_locations ≡ t.row_locations)
        × ((k : PageId)
            → lookup k u.row_space ≡ (if contains k ids then content k t else lookup k t.row_space))
  unfolding load_pages
  load_unlimited [] t u off e = (ground arith, λ k. ground arith)
  load_unlimited (id ∷ ids) t u off e = elim (Result-cases (ensure_page_resident sizes id t)) [
    | inr (failure, f) ↦ absurd (ground arith)
    | inl ((page, v), f) ↦
        let (still, locs, store, pages) = ensure_unlimited id t v page off f in
        let (locs', pages') = load_unlimited ids v u still (ground arith) in
        (locs' ∙ locs, λ k. ground (arith, pages k, pages' k, store))
  ]

  ensured-content :
      (id : PageId) (t : Space) (page : Page) (u : Space)
      → ensure_page_resident sizes id t ≡ ok (page, u)
      → (held : Page) × (content id t ≡ some held)
  unfolding ensure_page_resident
  ensured-content id t page u e = elim (Option-cases (lookup id t.row_space)) [
    | inr (held, f) ↦ (held, ground arith)
    | inl absent ↦ elim (Option-cases (lookup id t.page_store)) [
      | inr (held, f) ↦ (held, ground arith)
      | inl missing ↦ absurd (ground arith)
    ]
  ]

  -- A page that could be loaded was in memory or in the page file.
  loaded-content :
      (ids : List PageId) (t u : Space) (k : PageId)
      → t.memory_limit ≡ 0
      → load_pages sizes ids t ≡ ok u
      → contains k ids ≡ true
      → (page : Page) × (content k t ≡ some page)
  unfolding load_pages ensure_page_resident
  loaded-content [] t u k off e m = absurd (cc)
  loaded-content (id ∷ ids) t u k off e m = elim (Result-cases (ensure_page_resident sizes id t)) [
    | inr (failure, f) ↦ absurd (ground arith)
    | inl ((page, v), f) ↦
        let (still, locs, store, pages) = ensure_unlimited id t v page off f in
        elim (Bool-cases (id == k)) [
          | inl same ↦
              let there = ensured-content id t page v f in
              let e' : id ≡ k = (==_iff id k).0 same in (there.0, rw (← e') there.1)
          | inr other ↦
              let (held, at) = loaded-content ids v u k still (ground arith) (ground arith) in
              (held, ground (arith, pages k, store, at))
        ]
  ]

  -- With no limit on memory, loading all pages brings the page of every location into memory.
  materialized-IsResident :
      (t u : Space) → t.memory_limit ≡ 0 → materialize_all_pages sizes t ≡ ok u → IsResident u
  unfolding materialize_all_pages
  materialized-IsResident t u off e r id at =
      let ids = id_set (values t.row_locations) in
      let (locs, pages) = load_unlimited ids t u off e in
      let listed : contains id ids ≡ true =
        contains-id_set id (values t.row_locations)
        ∙ contains-values r id t.row_locations (ap (lookup r) (sym locs) ∙ at) in
      let (page, held) = loaded-content ids t u id off e listed in
      (page, ground (arith, pages id, listed, held))

  -- With no limit on memory, loading all pages brings every row into memory.
  resident_row-materialized :
      (j : RowId) (t u : Space)
      → t.memory_limit ≡ 0
      → materialize_all_pages sizes t ≡ ok u
      → resident_row j u ≡ row_at j t
  unfolding materialize_all_pages row_at
  resident_row-materialized j t u off e =
      let (locs, pages) = load_unlimited (id_set (values t.row_locations)) t u off e in
      elim (Option-cases (lookup j t.row_locations)) [
        | inl unknown ↦ ground (arith, locs)
        | inr (id, at) ↦ ground (
          arith,
          locs,
          pages id,
          contains-id_set id (values t.row_locations),
          contains-values j id t.row_locations,
        )
      ]

  seen_unless_empty :
      (txn : Transaction) (vs : List InternalRow)
      → elim (unless_empty (record { versions = vs })) [ none ↦ none | some row ↦ row_view txn row ]
        ≡ view row_versioned txn vs
  unfolding row_view view latest
  seen_unless_empty txn [] = refl
  seen_unless_empty txn (v ∷ vs) = refl

  seen_pruned :
      (s : TransactionSnapshot) (reader_id : TransactionId) (held : Option Row)
      → s.smallest_active_transaction_id ≤ reader_id
      → ((row : Row) → held ≡ some row → All (IsOwn row_versioned s reader_id) row.versions)
      → elim (pruned s.smallest_active_transaction_id held) [
        | none ↦ none
        | some row ↦ row_view (reader s reader_id) row
      ]
        ≡ elim held [ none ↦ none | some row ↦ row_view (reader s reader_id) row ]
  unfolding row_view prune_row
  seen_pruned s reader_id none low own = refl
  seen_pruned s reader_id (some row) low own =
      seen_unless_empty (reader s reader_id)
        (prune_versions row_versioned s.smallest_active_transaction_id row.versions)
      ∙ view-prune row_versioned s reader_id row.versions low (own row refl)

  -- A vacuum of a table with no limit on memory, at the oldest active transaction of the snapshot,
  -- changes what no transaction reads that is at least as young as that one and whose own versions
  -- nobody else has deleted: under every row id it reads what it read before. (All pages could be loaded;
  -- the pages then in memory and the rows of each stand in the order of their ids, and the row lies on
  -- no page there but the one that it is located on.)
  pub vacuum_table-seen_at :
      (s : TransactionSnapshot) (reader_id : TransactionId) (j : RowId) (t : Table) (u : Space)
      → t.space.memory_limit ≡ 0
      → materialize_all_pages sizes t.space ≡ ok u
      → IsAbove 0 u.row_space
      → ArePagesAbove u.row_space
      → IsOnlyAt j u
      → s.smallest_active_transaction_id ≤ reader_id
      → ((row : Row)
          → row_at j t.space ≡ some row
          → All (IsOwn row_versioned s reader_id) row.versions)
      → seen_at (reader s reader_id) j (vacuum_table sizes s.smallest_active_transaction_id t).space
        ≡ seen_at (reader s reader_id) j t.space
  vacuum_table-seen_at s reader_id j t u off loaded above rows only low own =
      let oldest = s.smallest_active_transaction_id in
      let kept_row =
        row_at-vacuum_table sizes oldest j t u loaded above rows only (
          prune_table_versions-resident sizes oldest (record t { space = u })
            (materialized-IsResident t.space u off loaded))
        ∙ ap (pruned oldest) (resident_row-materialized j t.space u off loaded) in
      rw (kept_row, seen_at) (seen_pruned s reader_id (row_at j t.space) low own)

  -- A vacuum loses rows that a limit on memory keeps on disk: where the page of a row is not in memory
  -- once all pages have been loaded in turn, the row is not found any more after the vacuum, whatever
  -- versions it has. (The pages then in memory and the rows of each stand in the order of their ids, and
  -- the row lies on none of them. No column has an index, since pruning an index reads rows and so loads
  -- pages again.)
  pub vacuum_table-lost :
      (oldest : TransactionId) (j : RowId) (t : Table) (u : Space) (id : PageId)
      → materialize_all_pages sizes t.space ≡ ok u
      → lookup j u.row_locations ≡ some id
      → lookup id u.row_space ≡ none
      → IsAbove 0 u.row_space
      → ArePagesAbove u.row_space
      → IsOnlyAt j u
      → HasNoIndex t.columns
      → row_at j (vacuum_table sizes oldest t).space ≡ none
  vacuum_table-lost oldest j t u id loaded at evicted above rows only unindexed =
      row_at-vacuum_table sizes oldest j t u loaded above rows only
        (prune_table_versions-unindexed sizes oldest (record t { space = u }) unindexed)
      ∙ ap (pruned oldest) {y = none} (ground arith)
