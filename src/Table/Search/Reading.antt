-- ===== src/Table/Search/Reading.antt =====
-- Reading rows back by their ids (src/backend/core/table.rs): in the sort and in the results of a query.
use ant_db.Common.{
  ◌≡◌, refl, ap, sym, ◌∙◌, inl, inr, some, List, [], ◌∷◌, ◌++◌, values, arith, All, map, Bool-cases,
}
use mathlib.Core.List.{append_assoc, append-nil}
use ant_db.Errors.{ok}
use ant_db.Txn.{Transaction}
use ant_db.Row.Entry.{Primitives, ColumnId, is_gt}
use ant_db.Row.{Row, InternalRow, get_versioned_row}
use ant_db.Pages.Defs.{Sizes}
use ant_db.Pages.{Space}
use ant_db.Pages.Eviction.{IsSynced}
use ant_db.Pages.Rows.{row_at, page_for_row-found, row_at_congr}
use ant_db.Planner.{ColumnMap}
use ant_db.Query.Rows.{entry_or_null}
use ant_db.Query.Results.{SortBy, SearchResult}
use ant_db.Table.Scan.{lookup_visible_row_data}
use ant_db.Table.Walk.{IsSameSpace}
use ant_db.Table.Search.{sorted_entry, compare_ids, insert_id, sort_ids, read_results}
use ant_db.Table.Search.Reference.{SeenRow, id_of, row_order, insert_by, sort_rows, result_of}

module _ (p : Primitives) (sizes : Sizes) (txn : Transaction) where
  -- The id of a row leads to the row.
  abbrev pub IsFound : Space → SeenRow → Type 0
  IsFound t (row_id, row_data) =
      (row : Row) × (version : InternalRow) × (row_at row_id t ≡ some row)
      × (get_versioned_row txn row ≡ some version)
      × (version.row_data ≡ row_data)

  IsFound-same : (t u : Space) (r : SeenRow) → IsSameSpace t u → IsFound t r → IsFound u r
  IsFound-same t u (row_id, row_data) (synced, locs, same) (row, version, at, seen, values) =
      (row, version, row_at_congr row_id u t locs same ∙ at, seen, values)

  pub All-IsFound-same :
      (t u : Space) (rows : List SeenRow)
      → IsSameSpace t u
      → All (IsFound t) rows
      → All (IsFound u) rows
  All-IsFound-same t u [] s h = tt
  All-IsFound-same t u (r ∷ rows) s (h, hs) =
      (IsFound-same t u r s h, All-IsFound-same t u rows s hs)

  pub lookup_visible_row_data-IsFound :
      (r : SeenRow) (t : Space)
      → IsSynced t
      → IsFound t r
      → (u : Space) × (lookup_visible_row_data sizes txn r.0 t ≡ ok (some r.1, u)) × IsSameSpace t u
  unfolding lookup_visible_row_data
  lookup_visible_row_data-IsFound (row_id, row_data) t w (row, version, at, seen, values) =
      let (id, page, u, done, located, held, r, synced, locs, same) =
        page_for_row-found sizes row_id t row w at in
      (u, ground (arith, done, held, seen, values), (synced, locs, same))

  sorted_entry-IsFound :
      (id : ColumnId) (t : Space) (r : SeenRow)
      → IsSynced t
      → IsFound t r
      → sorted_entry p sizes txn id t r.0 ≡ ok (entry_or_null id r.1)
  unfolding sorted_entry
  sorted_entry-IsFound id t r w h =
      let (u, done, same) = lookup_visible_row_data-IsFound r t w h in rw (done, sorted_entry) refl

  compare_ids-row_order :
      (sorts : List (ColumnId × SortBy)) (t : Space) (a b : SeenRow)
      → IsSynced t
      → IsFound t a
      → IsFound t b
      → compare_ids p sizes txn sorts t a.0 b.0 ≡ ok (row_order p sorts a b)
  unfolding compare_ids
  compare_ids-row_order [] t a b w ha hb = refl
  compare_ids-row_order ((id, sort_by) ∷ sorts) t a b w ha hb = ground (
    arith,
    sorted_entry-IsFound id t a w ha,
    sorted_entry-IsFound id t b w hb,
    compare_ids-row_order sorts t a b w ha hb,
  )

  insert_id-insert_by :
      (sorts : List (ColumnId × SortBy)) (t : Space) (a : SeenRow) (rows : List SeenRow)
      → IsSynced t
      → IsFound t a
      → All (IsFound t) rows
      → (insert_id p sizes txn sorts t a.0 (map id_of rows)
          ≡ ok (map id_of (insert_by p sorts a rows)))
        × All (IsFound t) (insert_by p sorts a rows)
  unfolding insert_id
  insert_id-insert_by sorts t a [] w ha h = (refl, (ha, tt))
  insert_id-insert_by sorts t a (b ∷ rows) w ha (hb, h) =
      let (done, found) = insert_id-insert_by sorts t a rows w ha h in
      let compared = compare_ids-row_order sorts t a b w ha hb in
      elim (Bool-cases (is_gt (row_order p sorts a b))) [
        | inl after ↦ (ground (arith, compared, done, after), rw (after) (hb, found))
        | inr here ↦ (ground (arith, compared, here), rw (here) (ha, (hb, h)))
      ]

  pub sort_ids-sort_rows :
      (sorts : List (ColumnId × SortBy)) (t : Space) (rows : List SeenRow)
      → IsSynced t
      → All (IsFound t) rows
      → (sort_ids p sizes txn sorts t (map id_of rows) ≡ ok (map id_of (sort_rows p sorts rows)))
        × All (IsFound t) (sort_rows p sorts rows)
  unfolding sort_ids
  sort_ids-sort_rows sorts t [] w h = (refl, tt)
  sort_ids-sort_rows sorts t (r ∷ rows) w (hr, h) =
      let (done, found) = sort_ids-sort_rows sorts t rows w h in
      let (inserted, found') = insert_id-insert_by sorts t r (sort_rows p sorts rows) w hr found in
      (rw (done) inserted, found')

  pub IsSameSpace-trans : (t u v : Space) → IsSameSpace t u → IsSameSpace u v → IsSameSpace t v
  IsSameSpace-trans t u v (_, locs, same) (synced, locs', same') =
      (synced, locs' ∙ locs, λ id. same' id ∙ same id)

  pub read_results-result_of :
      (columns : ColumnMap) (rows : List SeenRow) (t : Space) (results : List SearchResult)
      → IsSynced t
      → All (IsFound t) rows
      → (u : Space) × (read_results p sizes txn columns (map id_of rows) t results
          ≡ ok (results ++ map (result_of p columns) rows, u))
        × IsSameSpace t u
  unfolding read_results
  read_results-result_of columns [] t results w h =
      (t, ap (λ r. ok (r, t)) (sym (append-nil results)), (w, refl, λ id. refl))
  read_results-result_of columns (r ∷ rows) t results w (hr, h) =
      let (u, got, same) = lookup_visible_row_data-IsFound r t w hr in
      let (v, done, same') =
        read_results-result_of columns rows u (results ++ result_of p columns r ∷ []) same.0
          (All-IsFound-same t u rows same h) in
      (
        v,
        rw (got, read_results)
            (done
              ∙ ap (λ rs. ok (rs, v))
                  (append_assoc results (result_of p columns r ∷ [])
                    (map (result_of p columns) rows))),
        IsSameSpace-trans t u v same same',
      )
