-- ===== src/Execute/Deletion.antt =====
-- DELETE (src/backend/core/plan/execute.rs): which rows it marks, and how many it counts.
use ant_db.Common.{
  ℕ, suc, ◌+◌, ◌≡◌, refl, ap, sym, ◌∙◌, inl, inr, Bool, true, false, Option, none, some, List, [],
  ◌∷◌, ◌==◌, if◌then◌else◌, values, arith, All, map, contains, length, AreDistinct, Bool-cases,
}
use mathlib.Core.Path.{subst}
use ant_db.Errors.{Text, ok, Result-cases}
use ant_db.Txn.{Transaction}
use ant_db.Row.Entry.{Primitives, RowId}
use ant_db.Row.{Row, remove_row}
use ant_db.Column.Validate.{FkLookup}
use ant_db.Pages.Defs.{Sizes}
use ant_db.Pages.{Space}
use ant_db.Pages.Eviction.{IsSynced}
use ant_db.Pages.Rows.{row_at, row_at_congr, delete_row, change_row-row_at}
use ant_db.Planner.{ColumnMap, seq_scan, get_visible_column_map}
use ant_db.Search.{SearchExpression}
use ant_db.Query.Results.{SearchResult, limited}
use ant_db.Database.{Table, Database, get_table}
use ant_db.Table.Scan.{visible_rows, page_set}
use ant_db.Table.Walk.{ArePresent}
use ant_db.Table.Search.{
  row_passes, search, projection_columns, sort_columns, path_lookup, sorted_columns,
}
use ant_db.Table.Search.Reference.{
  SeenRow, id_of, matching_rows, sort_rows, insert_by, result_of, answer, All-matching_rows,
}
use ant_db.Table.Search.Reading.{IsFound}
use ant_db.Table.Search.Sequential.{IsAnswered, search_rows-answer}
use ant_db.Execute.{single_table, put_back, on_table, delete_rows, delete_matching, execute_delete}

-- A row after a deletion of the rows with some ids.
abbrev pub removed_in : Transaction → List RowId → RowId → Option Row → Option Row
removed_in txn ids j none = none
removed_in txn ids j (some row) = some (if contains j ids then remove_row txn row else row)

abbrev pub ids_of : List SearchResult → List RowId
ids_of [] = []
ids_of (r ∷ rs) = r.row_id ∷ ids_of rs

abbrev IsHeld : Space → SearchResult → Type 0
IsHeld t r = (row : Row) × (row_at r.row_id t ≡ some row)

module _ (p : Primitives) (sizes : Sizes) (fk : FkLookup) (txn : Transaction) where
  changed-IsHeld :
      (rs : List SearchResult) (id : RowId) (row : Row) (t u : Space)
      → ((j : RowId) → row_at j u ≡ (if id == j then some row else row_at j t))
      → All (IsHeld t) rs
      → All (IsHeld u) rs
  changed-IsHeld [] id row t u same h = tt
  changed-IsHeld (r ∷ rs) id row t u same ((held, e), h) = (
    (if id == r.row_id then row else held, ground (arith, same r.row_id, e)),
    changed-IsHeld rs id row t u same h,
  )

  removed_none : (j : RowId) (held : Option Row) → removed_in txn [] j held ≡ held
  removed_none j none = refl
  removed_none j (some row) = refl

  removed_first :
      (id j : RowId) (ids : List RowId) (row : Row) (t u : Space)
      → row_at id t ≡ some row
      → contains id ids ≡ false
      → row_at j u ≡ (if id == j then some (remove_row txn row) else row_at j t)
      → removed_in txn ids j (row_at j u) ≡ removed_in txn (id ∷ ids) j (row_at j t)
  removed_first id j ids row t u held once same = elim (Bool-cases (id == j)) [
    | inl here ↦
        let at : id ≡ j = ground arith in
        rw (same, here)
          (ground (arith, ap (λ (k : ℕ). row_at k t) at, ap (λ (k : ℕ). contains k ids) at))
    | inr other ↦ ground arith
  ]

  delete_rows-removed_in :
      (rs : List SearchResult) (n : ℕ) (t : Table)
      → IsSynced t.space
      → All (IsHeld t.space) rs
      → AreDistinct (ids_of rs)
      → (u : Space) × (delete_rows p sizes fk txn rs n t
          ≡ (ok (n + length rs), record t { space = u }))
        × IsSynced u
        × ((j : RowId) → row_at j u ≡ removed_in txn (ids_of rs) j (row_at j t.space))
  unfolding delete_rows delete_row
  delete_rows-removed_in [] n t w held once = (
    t.space,
    ap (λ (count : ℕ). (ok count, t)) (omega arith),
    w,
    λ j. sym (removed_none j (row_at j t.space)),
  )
  delete_rows-removed_in (r ∷ rs) n t w ((row, e), held) (first, once) =
      let (u, done, synced, same) =
        change_row-row_at sizes r.row_id (remove_row txn) t.space row w e in
      let (v, finished, synced', rows) =
        delete_rows-removed_in rs (suc n) (record t { space = u }) synced
          (changed-IsHeld rs r.row_id (remove_row txn row) t.space u same held) once in
      (
        v,
        rw (done, delete_rows)
            (finished ∙ ap (λ (count : ℕ). (ok count, record t { space = v })) (omega arith)),
        synced',
        λ j. rows j ∙ removed_first r.row_id j (ids_of rs) row t.space u e first (same j),
      )

  kept_once :
      (matches : Bool) (r : SeenRow) (ms : List SeenRow)
      → contains r.0 (map id_of ms) ≡ false
      → AreDistinct (map id_of ms)
      → AreDistinct (map id_of (if matches then r ∷ ms else ms))
  kept_once true r ms first once = (first, once)
  kept_once false r ms first once = once

  not_kept :
      (matches : Bool) (j : RowId) (r : SeenRow) (ms : List SeenRow)
      → (r.0 == j) ≡ false
      → contains j (map id_of ms) ≡ false
      → contains j (map id_of (if matches then r ∷ ms else ms)) ≡ false
  not_kept true j r ms other h = ground arith
  not_kept false j r ms other h = h

  inserted : (r : SeenRow) (ms : List SeenRow) → insert_by p [] r ms ≡ r ∷ ms
  inserted r [] = refl
  inserted r (m ∷ ms) = refl

  contains-matching_rows :
      (j : RowId) (columns : ColumnMap) (filter : Option SearchExpression) (rows ms : List SeenRow)
      → matching_rows p columns filter rows ≡ ok ms
      → contains j (map id_of rows) ≡ false
      → contains j (map id_of ms) ≡ false
  contains-matching_rows j columns filter [] [] e h = refl
  contains-matching_rows j columns filter [] (m ∷ ms) e h = absurd (ground arith)
  contains-matching_rows j columns filter (r ∷ rows) ms e h =
      elim (Result-cases (row_passes p columns filter r.1)) [
        | inr (failure, f) ↦ absurd (ground arith)
        | inl (matches, f) ↦ elim (Result-cases (matching_rows p columns filter rows)) [
          | inr (failure, g) ↦ absurd (ground arith)
          | inl (rest, g) ↦
              subst (λ ms. contains j (map id_of ms) ≡ false) (ground arith)
                (not_kept matches j r rest (ground arith)
                  (contains-matching_rows j columns filter rows rest g (ground arith)))
        ]
      ]

  AreDistinct-matching_rows :
      (columns : ColumnMap) (filter : Option SearchExpression) (rows ms : List SeenRow)
      → matching_rows p columns filter rows ≡ ok ms
      → AreDistinct (map id_of rows)
      → AreDistinct (map id_of ms)
  AreDistinct-matching_rows columns filter [] [] e h = tt
  AreDistinct-matching_rows columns filter [] (m ∷ ms) e h = absurd (ground arith)
  AreDistinct-matching_rows columns filter (r ∷ rows) ms e (first, once) =
      elim (Result-cases (row_passes p columns filter r.1)) [
        | inr (failure, f) ↦ absurd (ground arith)
        | inl (matches, f) ↦ elim (Result-cases (matching_rows p columns filter rows)) [
          | inr (failure, g) ↦ absurd (ground arith)
          | inl (rest, g) ↦
              subst (λ ms. AreDistinct (map id_of ms)) (ground arith)
                (kept_once matches r rest
                  (contains-matching_rows r.0 columns filter rows rest g first)
                  (AreDistinct-matching_rows columns filter rows rest g once))
        ]
      ]

  sort_rows-unsorted : (ms : List SeenRow) → sort_rows p [] ms ≡ ms
  sort_rows-unsorted [] = refl
  sort_rows-unsorted (r ∷ ms) = rw (sort_rows-unsorted ms, sort_rows) (inserted r ms)

  ids_of-result_of :
      (columns : ColumnMap) (ms : List SeenRow)
      → ids_of (map (result_of p columns) ms) ≡ map id_of ms
  ids_of-result_of columns [] = refl
  ids_of-result_of columns (r ∷ ms) = ap (λ ids. r.0 ∷ ids) (ids_of-result_of columns ms)

  length-result_of :
      (columns : ColumnMap) (ms : List SeenRow) → length (map (result_of p columns) ms) ≡ length ms
  length-result_of columns [] = refl
  length-result_of columns (r ∷ ms) = ap suc (length-result_of columns ms)

  IsFound-IsHeld :
      (columns : ColumnMap) (ms : List SeenRow) (t u : Space)
      → ((j : RowId) → row_at j u ≡ row_at j t)
      → All (IsFound p sizes txn t) ms
      → All (IsHeld u) (map (result_of p columns) ms)
  IsFound-IsHeld columns [] t u same h = tt
  IsFound-IsHeld columns (r ∷ ms) t u same ((row, version, at, _, _), h) =
      ((row, same r.0 ∙ at), IsFound-IsHeld columns ms t u same h)

  -- What the query of a DELETE or an UPDATE finds.
  search-single_table :
      (name : Text) (filter : Option SearchExpression) (t : Table) (ms : List SeenRow)
      → IsSynced t.space
      → ArePresent (page_set (values t.space.row_locations)) t.space
      → All (IsFound p sizes txn t.space) (visible_rows sizes txn t.space)
      → matching_rows p (get_visible_column_map txn t) filter (visible_rows sizes txn t.space)
        ≡ ok ms
      → IsAnswered p sizes txn t.space
          (search p sizes txn (single_table name filter) (some seq_scan) t)
          (ok (map (result_of p (sorted_columns (get_visible_column_map txn t))) ms))
  unfolding projection_columns sort_columns path_lookup limited
  search-single_table name filter t ms w there found e =
      let columns = sorted_columns (get_visible_column_map txn t) in
      let sorted : answer p (get_visible_column_map txn t) columns [] (single_table name filter)
            (visible_rows sizes txn t.space)
          ≡ ok (map (result_of p columns) ms) =
        rw (e, sort_rows-unsorted ms) refl in
      subst
        (λ r.
          IsAnswered p sizes txn t.space
            (search p sizes txn (single_table name filter) (some seq_scan) t) r)
        sorted
        (search_rows-answer p sizes txn (single_table name filter) (some seq_scan) t columns [] refl
          refl refl refl w there found)

  -- DELETE through a sequential scan marks exactly the visible rows that the filter lets through, and
  -- counts them: each of them gets the deletion of the transaction, and every other row stays as it
  -- was. (Memory and page file are in step, every page that rows are located on exists, the ids of the
  -- visible rows are distinct and lead to them, and the filter gives no error.)
  pub execute_delete-removed_in :
      (name : Text) (filter : Option SearchExpression) (db : Database) (t : Table)
      (ms : List SeenRow)
      → get_table name db ≡ some t
      → IsSynced t.space
      → ArePresent (page_set (values t.space.row_locations)) t.space
      → All (IsFound p sizes txn t.space) (visible_rows sizes txn t.space)
      → AreDistinct (map id_of (visible_rows sizes txn t.space))
      → matching_rows p (get_visible_column_map txn t) filter (visible_rows sizes txn t.space)
        ≡ ok ms
      → (u : Space) × (execute_delete p sizes fk txn name filter seq_scan db
          ≡ (ok (length ms), put_back name (record t { space = u }) db))
        × IsSynced u
        × ((j : RowId) → row_at j u ≡ removed_in txn (map id_of ms) j (row_at j t.space))
  unfolding execute_delete on_table delete_matching
  execute_delete-removed_in name filter db t ms at w there found once e =
      let columns = sorted_columns (get_visible_column_map txn t) in
      let seen = visible_rows sizes txn t.space in
      let results = map (result_of p columns) ms in
      let (u, searched, (synced, locs, same)) =
        search-single_table name filter t ms w there found e in
      let same_rows = λ (j : RowId). row_at_congr j u t.space locs same in
      let held = IsFound-IsHeld columns ms t.space u same_rows (
        All-matching_rows p (IsFound p sizes txn t.space) (get_visible_column_map txn t) filter seen
          ms e found) in
      let distinct =
        AreDistinct-matching_rows (get_visible_column_map txn t) filter seen ms e once in
      let (v, deleted, synced', rows) =
        delete_rows-removed_in results 0 (record t { space = u }) synced held
          (rw (ids_of-result_of columns ms) distinct) in
      (
        v,
        ground (arith, at, searched, deleted, length-result_of columns ms),
        synced',
        λ j.
            rows j
            ∙ ap (removed_in txn (ids_of results) j) (same_rows j)
            ∙ ap (λ ids. removed_in txn ids j (row_at j t.space)) (ids_of-result_of columns ms),
      )
