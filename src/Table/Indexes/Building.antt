-- ===== src/Table/Indexes/Building.antt =====
-- `build_column_index_from_rows` of src/backend/core/table.rs: which entries the index has afterwards.
use ant_db.Common.{
  ℕ, suc, ◌≡◌, refl, ap, sym, ◌∙◌, Bool, true, ◌&&◌, ◌||◌, some, List, [], ◌∷◌, ◌==◌, if◌then◌else◌,
  lookup, keys, contains, arith, All, lookup-insert,
}
use ant_db.Errors.{Result, ok}
use ant_db.Txn.{Transaction}
use ant_db.Row.Entry.{Primitives, RowId, ColumnId}
use ant_db.Row.{Row}
use ant_db.Column.{
  Column, InternalColumn, column_versioned, get_versioned_column, ensure_index_ready,
  ensure_index_empty, is_indexed, index_row, version_index_row, version_is_indexed,
}
use ant_db.Column.Rollback.{finds}
use ant_db.Versions.{modify_latest}
use ant_db.Versions.Changes.{changed, latest-modify_latest}
use ant_db.Pages.Defs.{PageId, Page, Sizes}
use ant_db.Pages.{Space}
use ant_db.Pages.Eviction.{IsSynced}
use ant_db.Pages.Rows.{row_at, row_at_congr, page_for_row, page_for_row-found}
use ant_db.Database.{Table}
use ant_db.Table.Indexes.{index_rows, build_column_index_from_rows, set_column}
use ant_db.Table.Indexes.Entered.{
  merge_tests, shows_key, finds-version_index_row, index_row-seen, still_indexed,
}

module _ (p : Primitives) (sizes : Sizes) (txn : Transaction) where
  abbrev pub IsHeld : Space → RowId → Type 0
  IsHeld t j = (row : Row) × (row_at j t ≡ some row)

  -- The outcome of a build: a count, with the column's index led by a test of keys and rows, and all rows
  -- as they were
  abbrev pub IsBuilt : ColumnId → (ℕ → RowId → Bool) → Space → Result ℕ × Table → Type 0
  IsBuilt id g t outcome =
      (n : ℕ) × (u : Table) × (c : Column) × (version : InternalColumn) × (outcome ≡ (ok n, u))
      × (lookup id u.columns ≡ some c)
      × (get_versioned_column txn c ≡ some version)
      × ((k r : ℕ) → finds k r version ≡ g k r)
      × ((j : RowId) → row_at j u.space ≡ row_at j t)

  AreHeld-congr :
      (ids : List RowId) (t u : Space)
      → ((j : RowId) → row_at j u ≡ row_at j t)
      → All (IsHeld t) ids
      → All (IsHeld u) ids
  AreHeld-congr [] t u same h = tt
  AreHeld-congr (j ∷ ids) t u same ((row, e), h) = ((row, same j ∙ e), AreHeld-congr ids t u same h)

  index_rows-step :
      (id : ColumnId) (row_id : RowId) (ids : List RowId) (n : ℕ) (t : Table) (u : Space)
      (page_id : PageId) (page : Page) (row : Row) (c : Column)
      → page_for_row sizes row_id t.space ≡ ok (page_id, page, u)
      → lookup row_id page.rows ≡ some row
      → lookup id t.columns ≡ some c
      → index_rows p sizes txn id (row_id ∷ ids) n t
        ≡ index_rows p sizes txn id ids
            (if (index_row p row_id row txn c).0 then suc n else n)
            (set_column id (index_row p row_id row txn c).1 (record t { space = u }))
  unfolding index_rows
  index_rows-step id row_id ids n t u page_id page row c found held at =
      rw (index_rows, found, held, at) refl

  finds-step :
      (row_id : RowId) (ids : List RowId) (t u : Space) (row : Row) (version : InternalColumn)
      (k r : ℕ)
      → row_at row_id t ≡ some row
      → version_is_indexed version ≡ true
      → row_at r u ≡ row_at r t
      → (finds k r (version_index_row p row_id row txn version).1
          || (contains r ids
              && shows_key p txn
                  (version_index_row p row_id row txn version).1.column_id
                  k
                  (row_at r u)))
        ≡ (finds k r version
            || (contains r (row_id ∷ ids) && shows_key p txn version.column_id k (row_at r t)))
  finds-step row_id ids t u row version k r here indexed same =
      let found = finds-version_index_row p txn row_id row version k r indexed in
      let (_, same_id) = still_indexed p txn row_id row version indexed in
      let shown : row_id == r ≡ true
          → shows_key p txn version.column_id k (some row)
            ≡ shows_key p txn version.column_id k (row_at r t) =
        λ e.
          ap (shows_key p txn version.column_id k)
            (sym here ∙ ap (λ j. row_at j t) (ground (arith, e))) in
      rw (found, same_id, same)
        (merge_tests (finds k r version) (row_id == r) (contains r ids)
          (shows_key p txn version.column_id k (some row))
          (shows_key p txn version.column_id k (row_at r t)) shown)

  -- The loop indexes every row of its list that shows a value in the column.
  index_rows-IsBuilt :
      (id : ColumnId) (ids : List RowId) (n : ℕ) (t : Table) (c : Column) (version : InternalColumn)
      → lookup id t.columns ≡ some c
      → get_versioned_column txn c ≡ some version
      → version_is_indexed version ≡ true
      → IsSynced t.space
      → All (IsHeld t.space) ids
      → IsBuilt id
          (λ k r.
            finds k r version
            || (contains r ids && shows_key p txn version.column_id k (row_at r t.space)))
          t.space
          (index_rows p sizes txn id ids n t)
  unfolding index_rows
  index_rows-IsBuilt id [] n t c version at seen indexed w held =
      (n, t, c, version, refl, at, seen, λ k r. ground arith, λ j. refl)
  index_rows-IsBuilt id (row_id ∷ ids) n t c version at seen indexed w ((row, here), held) =
      let (page_id, page, u, found, _, on_page, _, synced, locs, same_content) =
        page_for_row-found sizes row_id t.space row w here in
      let same : (j : RowId) → row_at j u ≡ row_at j t.space =
        λ j. row_at_congr j u t.space locs same_content in
      let (indexed_still, same_id) = still_indexed p txn row_id row version indexed in
      let changed_column = (index_row p row_id row txn c).1 in
      let next = set_column id changed_column (record t { space = u }) in
      let (m, v, c', after, done, at', seen', finds', same') =
        index_rows-IsBuilt id ids (if (index_row p row_id row txn c).0 then suc n else n) next
          changed_column (version_index_row p row_id row txn version).1
          (ground (arith, lookup-insert id id changed_column t.columns))
          (index_row-seen p txn row_id row c version seen) indexed_still synced
          (AreHeld-congr ids t.space u same held) in
      (
        m,
        v,
        c',
        after,
        index_rows-step id row_id ids n t u page_id page row c found on_page at ∙ done,
        at',
        seen',
        λ k r. finds' k r ∙ finds-step row_id ids t.space u row version k r here indexed (same r),
        λ j. same' j ∙ same j,
      )

  ensure_empty :
      (version : InternalColumn) → version.index ≡ some [] → ensure_index_empty version ≡ ok version
  unfolding ensure_index_empty
  ensure_empty version empty = ground arith

  ready_is :
      (c : Column) (version : InternalColumn)
      → get_versioned_column txn c ≡ some version
      → version.index ≡ some []
      → (ready : Column) × (ensure_index_ready txn c ≡ ok ready)
        × (get_versioned_column txn ready ≡ some version)
  unfolding ensure_index_ready ensure_index_empty get_versioned_column
  ready_is c version seen empty =
      let set : Column = record {
        versions = (modify_latest column_versioned txn (λ _. version) c.versions).1;
      } in
      (
        set,
        rw (ensure_index_ready, seen, ensure_empty version empty) refl,
        latest-modify_latest column_versioned txn (λ _. version) c.versions (λ v h. cc)
            ∙ ap (changed column_versioned txn (λ _. version)) seen,
      )

  indexed_now :
      (c : Column) (version : InternalColumn)
      → get_versioned_column txn c ≡ some version
      → version.index ≡ some []
      → is_indexed txn c ≡ true
  unfolding is_indexed
  indexed_now c version seen empty = ground arith

  build-IsBuilt :
      (id : ColumnId) (t : Table) (c : Column) (version : InternalColumn) (ready : Column)
      → lookup id t.columns ≡ some c
      → get_versioned_column txn c ≡ some version
      → version.index ≡ some []
      → ensure_index_ready txn c ≡ ok ready
      → IsBuilt id
          (λ k r.
            finds k r version
            || (contains r (keys t.space.row_locations)
                && shows_key p txn version.column_id k (row_at r t.space)))
          t.space
          (index_rows p sizes txn id (keys t.space.row_locations) 0 (set_column id ready t))
      → IsBuilt id
          (λ k r.
            contains r (keys t.space.row_locations)
            && shows_key p txn version.column_id k (row_at r t.space))
          t.space
          (build_column_index_from_rows p sizes txn id t)
  unfolding build_column_index_from_rows
  build-IsBuilt id t c version ready at seen empty done
        (n, u, c', after, built, at', seen', finds', same) =
      let is_ready : is_indexed txn c ≡ true = indexed_now c version seen empty in
      (
        n,
        u,
        c',
        after,
        rw (build_column_index_from_rows, at, is_ready, done) built,
        at',
        seen',
        λ k r. finds' k r ∙ ground arith,
        same,
      )

  -- Building the index of a column whose index is empty goes through, if memory and page file are in step
  -- and every located row is there. Afterwards the index leads from a key to a row exactly if the row
  -- shows the transaction a value with that key in the column, and all rows are as they were.
  pub build_column_index_from_rows-IsBuilt :
      (id : ColumnId) (t : Table) (c : Column) (version : InternalColumn)
      → lookup id t.columns ≡ some c
      → get_versioned_column txn c ≡ some version
      → version.index ≡ some []
      → IsSynced t.space
      → All (IsHeld t.space) (keys t.space.row_locations)
      → IsBuilt id
          (λ k r.
            contains r (keys t.space.row_locations)
            && shows_key p txn version.column_id k (row_at r t.space))
          t.space
          (build_column_index_from_rows p sizes txn id t)
  unfolding build_column_index_from_rows is_indexed
  build_column_index_from_rows-IsBuilt id t c version at seen empty w held =
      let (ready, done, seen') = ready_is c version seen empty in
      let reached =
        index_rows-IsBuilt id (keys t.space.row_locations) 0 (set_column id ready t) ready version
          (ground (arith, lookup-insert id id ready t.columns)) seen' (ground arith) w held in
      build-IsBuilt id t c version ready at seen empty done reached
