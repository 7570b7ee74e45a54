-- ===== src/Table/Search/Sequential.antt =====
-- `Table::search` of src/backend/core/table.rs without an index, against a query on the list of the
-- visible rows.
use ant_db.Common.{
  ℕ, ◌+◌, ◌≡◌, refl, ap, ◌∙◌, inl, inr, Option, none, some, List, [], ◌∷◌, values, arith, All, map,
  length,
}
use ant_db.Common.Int.{pos}
use mathlib.Core.Path.{subst}
use ant_db.Errors.{Text, Result, ok, err, ◌>>=◌, Result-cases}
use ant_db.Txn.{Transaction}
use ant_db.Row.Entry.{DataBaseDataEntry, Primitives, ColumnId}
use ant_db.Pages.Defs.{Sizes}
use ant_db.Pages.{Space}
use ant_db.Pages.Eviction.{IsSynced}
use ant_db.Planner.{ColumnMap, AccessPath, get_visible_column_map}
use ant_db.Query.Results.{SortBy, SearchResult, limited}
use ant_db.Query.{SearchRequest}
use ant_db.Database.{Table}
use ant_db.Table.Scan.{visible_rows, page_set}
use ant_db.Table.Walk.{
  ArePresent, IsSameSpace, IsWalked-ok, IsWalked-err, for_each_visible_row-IsWalked,
}
use ant_db.Table.Search.{
  push_matching_row, count_row, projection_columns, sort_columns, path_lookup, filter_lookup,
  finish_search, search, search_rows, search_count, index_lookup_candidates, visit_rows_of,
}
use ant_db.Table.Search.Reference.{
  SeenRow, id_of, matching_rows, sort_rows, result_of, answer, fold_rows-push, fold_rows-count,
  limited-map, All-limited, All-matching_rows,
}
use ant_db.Table.Search.Asked.{
  IsProjection, AreOrdering, asked, answer-asked, projection_columns-IsProjection,
  sort_columns-AreOrdering,
}
use ant_db.Table.Search.Reading.{
  IsFound, All-IsFound-same, IsSameSpace-trans, sort_ids-sort_rows, read_results-result_of,
}

module _ (p : Primitives) (sizes : Sizes) (txn : Transaction) where
  finish_search-result_of :
      (projected : ColumnMap) (sorts : List (ColumnId × SortBy)) (request : SearchRequest)
      (ms : List SeenRow) (t : Space)
      → IsSynced t
      → All (IsFound p sizes txn t) ms
      → (u : Space) × (finish_search p sizes txn projected sorts request (map id_of ms, t)
          ≡ ok (
            map
                (result_of p projected)
                (limited request.limit request.offset (sort_rows p sorts ms)),
            u,
          ))
        × IsSameSpace t u
  unfolding finish_search
  finish_search-result_of projected sorts request ms t w h =
      let (sorted, found) = sort_ids-sort_rows p sizes txn sorts t ms w h in
      let rows = limited request.limit request.offset (sort_rows p sorts ms) in
      let (u, done, same) = read_results-result_of p sizes txn projected rows t [] w (
        All-limited (IsFound p sizes txn t) request.limit request.offset (sort_rows p sorts ms)
          found) in
      (
        u,
        rw (sorted, limited-map id_of request.limit request.offset (sort_rows p sorts ms)) done,
        same,
      )

  -- What a query does when a list query has given a result: the same, and no page is changed.
  abbrev pub IsAnswered :
      Space → Result (List SearchResult × Space) → Result (List SearchResult) → Type 0
  IsAnswered t searched (err e) = searched ≡ err e
  IsAnswered t searched (ok results) = (u : Space) × (searched ≡ ok (results, u)) × IsSameSpace t u

  -- The same query on the list of the visible rows, by the functions that the search runs on each row.
  pub search_rows-answer :
      (request : SearchRequest) (path : Option AccessPath) (t : Table) (projected : ColumnMap)
      (sorts : List (ColumnId × SortBy))
      → request.aggregate ≡ none
      → projection_columns (get_visible_column_map txn t) request.projection ≡ ok projected
      → sort_columns (get_visible_column_map txn t) request.order_by ≡ ok sorts
      → path_lookup path request.filter ≡ none
      → IsSynced t.space
      → ArePresent (page_set (values t.space.row_locations)) t.space
      → All (IsFound p sizes txn t.space) (visible_rows sizes txn t.space)
      → IsAnswered t.space (search p sizes txn request path t) (
          answer p
            (get_visible_column_map txn t)
            projected
            sorts
            request
            (visible_rows sizes txn t.space))
  unfolding search search_rows index_lookup_candidates visit_rows_of
  search_rows-answer request path t projected sorts plain shown sorted unindexed w there found =
      let columns = get_visible_column_map txn t in
      let push = push_matching_row p columns request.filter in
      let seen = visible_rows sizes txn t.space in
      let walked = for_each_visible_row-IsWalked sizes txn push [] t.space w there in
      let folded = fold_rows-push p sizes txn columns request.filter seen [] in
      elim (Result-cases (matching_rows p columns request.filter seen)) [
        | inr (failure, e) ↦
            let stopped =
              IsWalked-err sizes txn push t.space _ _ failure (folded ∙ rw (e) refl) walked in
            rw (e, answer) (ground (arith, plain, shown, sorted, unindexed, stopped))
        | inl (ms, e) ↦
            let (u, done, same) =
              IsWalked-ok sizes txn push t.space _ _ (map id_of ms) (folded ∙ rw (e) refl) walked in
            let (v, finished, same') = finish_search-result_of projected sorts request ms u same.0 (
              All-IsFound-same p sizes txn t.space u ms same (
                All-matching_rows p (IsFound p sizes txn t.space) columns request.filter seen ms e
                  found)) in
            rw (e, answer)
              (
                v,
                ground (arith, plain, shown, sorted, unindexed, done, finished),
                IsSameSpace-trans p sizes txn t.space u v same same',
              )
      ]

  -- If memory and page file are in step, every page that rows are located on exists, and the id of
  -- every visible row leads to it, then a query without COUNT(*) that asks for no index lookup and whose
  -- projection and ORDER BY name visible columns gives: the visible rows on whose values the filter
  -- holds, sorted by the first ORDER BY column in which they differ, upwards or downwards, with equal
  -- rows in the order of the walk, without the first OFFSET of them and at most LIMIT of the rest, and of
  -- each row the value of every projected column under its output name, NULL where it has none; or the
  -- first error of the filter. It changes no page.
  pub search-answer :
      (request : SearchRequest) (path : Option AccessPath) (t : Table) (projected : ColumnMap)
      (sorts : List (ColumnId × SortBy))
      → request.aggregate ≡ none
      → IsProjection (get_visible_column_map txn t) request.projection projected
      → AreOrdering (get_visible_column_map txn t) request.order_by sorts
      → path_lookup path request.filter ≡ none
      → IsSynced t.space
      → ArePresent (page_set (values t.space.row_locations)) t.space
      → All (IsFound p sizes txn t.space) (visible_rows sizes txn t.space)
      → IsAnswered t.space (search p sizes txn request path t) (
          asked p
            (get_visible_column_map txn t)
            projected
            sorts
            request
            (visible_rows sizes txn t.space))
  search-answer request path t projected sorts plain shown sorted unindexed w there found =
      let columns = get_visible_column_map txn t in
      subst (IsAnswered t.space (search p sizes txn request path t))
        (answer-asked p columns projected sorts request (visible_rows sizes txn t.space))
        (search_rows-answer request path t projected sorts plain
          (projection_columns-IsProjection columns request.projection projected shown)
          (sort_columns-AreOrdering columns request.order_by sorts sorted) unindexed w there found)

  -- If memory and page file are in step and every page that rows are located on exists, then a query
  -- for `COUNT(*)` that has no order and asks for no index lookup gives, in one row, the number of the
  -- visible rows that the filter lets through, or the first error of the filter; and it changes no page.
  pub search_count-length :
      (output_name : Text) (request : SearchRequest) (path : Option AccessPath) (t : Table)
      → request.aggregate ≡ some output_name
      → request.order_by ≡ []
      → filter_lookup request.filter ≡ none
      → IsSynced t.space
      → ArePresent (page_set (values t.space.row_locations)) t.space
      → IsAnswered t.space (search p sizes txn request path t) (
          matching_rows p
            (get_visible_column_map txn t)
            request.filter
            (visible_rows sizes txn t.space)
          >>= λ ms. ok (
              record {
                row_id = 0;
                result_values = (output_name, DataBaseDataEntry.integer_i64 (pos (length ms))) ∷ [];
              }
              ∷ []))
  unfolding search search_count index_lookup_candidates visit_rows_of
  search_count-length output_name request path t counted unsorted unindexed w there =
      let columns = get_visible_column_map txn t in
      let count = count_row p columns request.filter in
      let seen = visible_rows sizes txn t.space in
      let walked = for_each_visible_row-IsWalked sizes txn count 0 t.space w there in
      let folded = fold_rows-count p sizes txn columns request.filter seen 0 in
      elim (Result-cases (matching_rows p columns request.filter seen)) [
        | inr (failure, e) ↦
            let stopped =
              IsWalked-err sizes txn count t.space _ _ failure (folded ∙ rw (e) refl) walked in
            rw (e) (ground (arith, counted, unsorted, unindexed, stopped))
        | inl (ms, e) ↦
            let zero_add : ok (0 + length ms) ≡ ok (length ms) =
              ap (λ (n : ℕ). ok n) (omega arith) in
            let (u, done, same) =
              IsWalked-ok sizes txn count t.space _ _ (length ms) (folded ∙ rw (e) zero_add)
                walked in
            rw (e) (u, ground (arith, counted, unsorted, unindexed, done), same)
      ]
