-- ===== src/Table/Search.antt =====
-- src/backend/core/table.rs, `Table::search`: the query on one table.
pub mod Reference
pub mod Asked
pub mod Reading
pub mod Sequential
use Prim.Native.Nat.{Ordering}
use ant_db.Common.{
  ℕ, suc, Bool, true, Option, none, some, List, [], ◌∷◌, ◌++◌, if◌then◌else◌, NatMap, lookup,
}
use ant_db.Common.Int.{pos}
use ant_db.Errors.{Text, query_error, row_not_found, Result, ok, err, ◌>>=◌, ok_or}
use ant_db.Txn.{Transaction}
use ant_db.Row.Entry.{
  DataBaseDataEntry, Primitives, RowData, RowId, ColumnId, compare_entry, compare_list, is_lt,
  is_gt, is_eq,
}
use ant_db.Copy.{text_eq}
use ant_db.Column.{Column, index_lookup}
use ant_db.Pages.Defs.{Sizes}
use ant_db.Pages.{Space}
use ant_db.Planner.{
  ColumnMap, AccessPath, seq_scan, index_equality, column_named, get_visible_column_map,
}
use ant_db.Search.{SearchExpression, RowEvaluationContext, evaluate, equality_lookup}
use ant_db.Query.Rows.{entry_or_null}
use ant_db.Query.Results.{ProjectionColumn, SortBy, SearchResult, directed, limited}
use ant_db.Query.{SearchRequest}
use ant_db.Database.{Table}
use ant_db.Table.Scan.{
  page_set, for_each_visible_row, lookup_visible_row_data, filter_visible_index_candidates,
}

-- The values that a filter sees on a row.
abbrev pub row_context : ColumnMap → RowData → RowEvaluationContext
row_context [] row_data = []
row_context ((name, id) ∷ columns) row_data =
    (name, entry_or_null id row_data) ∷ row_context columns row_data

-- `match &request.filter { Some(filter) => filter.evaluate(&ctx)?, None => true }`
unfoldable pub row_passes : Primitives → ColumnMap → Option SearchExpression → RowData → Result Bool
unfolding evaluate
row_passes p columns none row_data = ok true
row_passes p columns (some filter) row_data = evaluate p (row_context columns row_data) filter

-- `push_matching_row`
unfoldable pub push_matching_row :
    Primitives
    → ColumnMap
    → Option SearchExpression
    → RowId
    → RowData
    → List RowId
    → Result (List RowId)
unfolding row_passes
push_matching_row p columns filter row_id row_data matching = do
  matches ← row_passes p columns filter row_data
  ok (if matches then matching ++ row_id ∷ [] else matching)

-- `count_row`
unfoldable pub count_row :
    Primitives → ColumnMap → Option SearchExpression → RowId → RowData → ℕ → Result ℕ
unfolding row_passes
count_row p columns filter row_id row_data count = do
  matches ← row_passes p columns filter row_data
  ok (if matches then suc count else count)

-- `sort_by` of the entries of a map of names, each name once with the id that counts
unfoldable pub put_column : Text → ColumnId → ColumnMap → ColumnMap
put_column name id [] = (name, id) ∷ []
put_column name id ((n, j) ∷ columns) =
    let rest = put_column name id columns in
    if text_eq name n
    then (name, id) ∷ columns
    else if is_lt (compare_list name n)
    then (name, id) ∷ (n, j) ∷ columns
    else (n, j) ∷ rest

abbrev pub sorted_columns : ColumnMap → ColumnMap
sorted_columns [] = []
sorted_columns ((name, id) ∷ columns) = put_column name id (sorted_columns columns)

-- The column of a projection, under its output name.
unfoldable pub projected_column : ColumnMap → ProjectionColumn → Result (Text × ColumnId)
projected_column columns column = elim column.source_alias [
  | some _ ↦ err (query_error "Qualified column is only supported in JOIN queries")
  | none ↦ do
    id ← ok_or (column_named column.column_name columns) (query_error "Projection column not found")
    ok (column.output_name, id)
]

unfoldable pub projected_columns : ColumnMap → List ProjectionColumn → Result ColumnMap
unfolding projected_column
projected_columns columns [] = ok []
projected_columns columns (column ∷ projection) =
    let rest = projected_columns columns projection in
    do c ← projected_column columns column; cs ← rest; ok (c ∷ cs)

-- `projection_columns`
unfoldable pub projection_columns : ColumnMap → Option (List ProjectionColumn) → Result ColumnMap
unfolding projected_columns put_column
projection_columns columns (some projection) = projected_columns columns projection
projection_columns columns none = ok (sorted_columns columns)

-- `sort_columns`
unfoldable pub sort_columns : ColumnMap → List SortBy → Result (List (ColumnId × SortBy))
sort_columns columns [] = ok []
sort_columns columns (sort_by ∷ order_by) =
    let rest = sort_columns columns order_by in
    do
      id ←
          ok_or (column_named sort_by.sort_column columns) (query_error "ORDER BY column not found")
      sorts ← rest
      ok ((id, sort_by) ∷ sorts)

-- The values of a result. Of two columns of one output name the later one counts.
unfoldable pub projected_values : ColumnMap → RowData → RowEvaluationContext → RowEvaluationContext
projected_values [] row_data seen = seen
projected_values ((name, id) ∷ columns) row_data seen =
    projected_values columns row_data ((name, entry_or_null id row_data) ∷ seen)

-- `filter.equality_lookup()` of the request's filter
unfoldable pub filter_lookup : Option SearchExpression → Option (Text × DataBaseDataEntry)
unfolding equality_lookup
filter_lookup none = none
filter_lookup (some filter) = equality_lookup filter

-- The index lookup that an access path asks for.
unfoldable pub path_lookup :
    Option AccessPath → Option SearchExpression → Option (Text × DataBaseDataEntry)
unfolding filter_lookup
path_lookup (some seq_scan) filter = none
path_lookup (some (index_equality name value)) filter = some (name, value)
path_lookup none filter = filter_lookup filter

module _ (p : Primitives) (sizes : Sizes) (txn : Transaction) where
  -- `index_lookup_candidates`, where there is a lookup to make
  unfoldable pub index_lookup_candidates :
      Option (Text × DataBaseDataEntry)
      → ColumnMap
      → NatMap Column
      → Space
      → Result (Option (List RowId) × Space)
  unfolding index_lookup filter_visible_index_candidates
  index_lookup_candidates none columns cs t = ok (none, t)
  index_lookup_candidates (some (name, value)) columns cs t = elim (column_named name columns) [
    | none ↦ ok (none, t)
    | some id ↦ elim (lookup id cs) [
      | none ↦ err (query_error "Column not found while resolving index lookup")
      | some c ↦ elim (index_lookup p value txn c) [
        | none ↦ ok (none, t)
        | some row_ids ↦ elim (filter_visible_index_candidates sizes txn (page_set row_ids) [] t) [
          | err e ↦ err e
          | ok (ids, u) ↦ ok (some (page_set ids), u)
        ]
      ]
    ]
  ]

  module _ {ℓ} {A : Type ℓ} (f : RowId → RowData → A → Result A) where
    -- The loop over the candidates.
    unfoldable pub visit_candidates : List RowId → A → Space → Result (A × Space)
    unfolding lookup_visible_row_data
    visit_candidates [] a t = ok (a, t)
    visit_candidates (row_id ∷ row_ids) a t = elim (lookup_visible_row_data sizes txn row_id t) [
      | err e ↦ err e
      | ok (none, u) ↦ visit_candidates row_ids a u
      | ok (some row_data, u) ↦ elim (f row_id row_data a) [
        | err e ↦ err e
        | ok b ↦ visit_candidates row_ids b u
      ]
    ]

    -- The candidates where there are any to look at, or else all visible rows.
    unfoldable pub visit_rows_of : Option (List RowId) → A → Space → Result (A × Space)
    unfolding visit_candidates for_each_visible_row
    visit_rows_of none a t = for_each_visible_row sizes txn f a t
    visit_rows_of (some row_ids) a t = visit_candidates row_ids a t

  -- `with_versioned_column_entry` of `unwrap_or(Null)` and `expect`: a panic is an error of the model.
  -- Which pages the sort brings into memory is not followed.
  unfoldable pub sorted_entry : ColumnId → Space → RowId → Result DataBaseDataEntry
  unfolding lookup_visible_row_data
  sorted_entry id t row_id = elim (lookup_visible_row_data sizes txn row_id t) [
    | err e ↦ err (query_error "matching row must remain readable during sort")
    | ok (none, u) ↦ ok DataBaseDataEntry.null
    | ok (some row_data, u) ↦ ok (entry_or_null id row_data)
  ]

  -- The closure of the sort.
  unfoldable pub compare_ids : List (ColumnId × SortBy) → Space → RowId → RowId → Result Ordering
  unfolding sorted_entry compare_entry
  compare_ids [] t a b = ok Ordering.eq
  compare_ids ((id, sort_by) ∷ sorts) t a b =
      let rest = compare_ids sorts t a b in
      do
        left ← sorted_entry id t a
        right ← sorted_entry id t b
        let order = compare_entry p left right
        if is_eq order then rest else ok (directed sort_by.order_by order)

  -- A stable sort, as an insertion sort.
  unfoldable pub insert_id :
      List (ColumnId × SortBy) → Space → RowId → List RowId → Result (List RowId)
  unfolding compare_ids
  insert_id sorts t a [] = ok (a ∷ [])
  insert_id sorts t a (b ∷ ids) =
      let rest = insert_id sorts t a ids in
      do
        order ← compare_ids sorts t a b
        if is_gt order then (do bs ← rest; ok (b ∷ bs)) else ok (a ∷ b ∷ ids)

  unfoldable pub sort_ids : List (ColumnId × SortBy) → Space → List RowId → Result (List RowId)
  unfolding insert_id
  sort_ids sorts t [] = ok []
  sort_ids sorts t (a ∷ ids) = do sorted ← sort_ids sorts t ids; insert_id sorts t a sorted

  -- The `map` that makes the results.
  unfoldable pub read_results :
      ColumnMap → List RowId → Space → List SearchResult → Result (List SearchResult × Space)
  unfolding lookup_visible_row_data projected_values
  read_results columns [] t results = ok (results, t)
  read_results columns (row_id ∷ row_ids) t results =
      elim (lookup_visible_row_data sizes txn row_id t) [
        | err e ↦ err e
        | ok (none, u) ↦ err (row_not_found row_id)
        | ok (some row_data, u) ↦ read_results columns row_ids u (
            results
            ++ record { row_id = row_id; result_values = projected_values columns row_data [] }
              ∷ [])
      ]

  -- What follows the loops: the sort, `skip` and `take`, and the results.
  unfoldable pub finish_search :
      ColumnMap
      → List (ColumnId × SortBy)
      → SearchRequest
      → List RowId × Space
      → Result (List SearchResult × Space)
  unfolding sort_ids limited read_results
  finish_search columns sorts request (matching, t) = do
    sorted ← sort_ids sorts t matching
    read_results columns (limited request.limit request.offset sorted) t []

  -- The branch of `COUNT(*)`.
  unfoldable pub search_count : Text → SearchRequest → Table → Result (List SearchResult × Space)
  unfolding get_visible_column_map index_lookup_candidates visit_rows_of count_row filter_lookup
  search_count output_name request t = elim request.order_by [
    | _ ∷ _ ↦ err (query_error "ORDER BY is unsupported with COUNT(*)")
    | [] ↦ do
      let columns = get_visible_column_map txn t
      (candidates, u) ←
          index_lookup_candidates (filter_lookup request.filter) columns t.columns t.space
      (count, v) ← visit_rows_of (count_row p columns request.filter) candidates 0 u
      ok (
        record {
          row_id = 0;
          result_values = (output_name, DataBaseDataEntry.integer_i64 (pos count)) ∷ [];
        }
            ∷ [],
        v,
      )
  ]

  -- The branch of rows.
  unfoldable pub search_rows :
      SearchRequest → Option AccessPath → Table → Result (List SearchResult × Space)
  unfolding get_visible_column_map index_lookup_candidates visit_rows_of push_matching_row
      path_lookup projection_columns sort_columns finish_search
  search_rows request path t = do
    let columns = get_visible_column_map txn t
    projected ← projection_columns columns request.projection
    sorts ← sort_columns columns request.order_by
    (candidates, u) ←
        index_lookup_candidates (path_lookup path request.filter) columns t.columns t.space
    found ← visit_rows_of (push_matching_row p columns request.filter) candidates [] u
    finish_search projected sorts request found

  -- `Table::search`
  unfoldable pub search :
      SearchRequest → Option AccessPath → Table → Result (List SearchResult × Space)
  unfolding search_count search_rows
  search request path t = elim request.aggregate [
    | some output_name ↦ search_count output_name request t
    | none ↦ search_rows request path t
  ]
