-- ===== src/Query.antt =====
-- src/backend/core/query.rs: queries over joined tables, given the tables as a transaction sees them.
pub mod Rows
pub mod Joins
pub mod Results
pub mod Extension
pub mod Context
pub mod Probe
pub mod Names
pub mod Sorting
use ant_db.Common.{
  ℕ, Bool, true, false, Option, none, some, List, [], ◌∷◌, if◌then◌else◌, not, any, map,
}
use ant_db.Errors.{Text, query_error, table_not_found, Result, ok, err, ◌>>=◌, ok_or, fail_if}
use ant_db.Row.Entry.{Primitives, RowData, RowId, compare_list, is_lt, is_eq}
use ant_db.Copy.{text_eq}
use ant_db.Planner.{AccessPath, ColumnMap}
use ant_db.Search.{SearchExpression, evaluate}
use ant_db.Query.Rows.{
  TableSource, JoinSpec, TableBinding, JoinedRow, alias_or_name, append_binding, build_row_context,
}
use ant_db.Query.Joins.{VisibleTable, apply_join}
use ant_db.Query.Results.{
  ProjectionColumn, SortBy, SearchResult, JoinTableSchema, resolve_projection, project,
  sort_results, limited,
}

pub record FromClause : Type 0 where
  pub base : TableSource
  pub joins : List JoinSpec

-- `SearchRequest`; the aggregate is the output name of `COUNT(*)`.
pub record SearchRequest : Type 0 where
  pub from : FromClause
  pub projection : Option (List ProjectionColumn)
  pub aggregate : Option Text
  pub filter : Option SearchExpression
  pub order_by : List SortBy
  pub limit : Option ℕ
  pub offset : Option ℕ

-- A table of the database under the transaction of the query: what `get_visible_column_map` gives, its
-- visible rows, and `Table::search`.
pub record QueriedTable : Type 0 where
  pub column_map : ColumnMap
  pub visible : VisibleTable
  pub search : SearchRequest → Option AccessPath → Result (List SearchResult)

-- `PhysicalSelectPlan`
pub record PhysicalSelectPlan : Type 0 where
  pub request : SearchRequest
  pub access_paths : List (Text × AccessPath)

-- `sort` of the keys of a map, each of them once
unfoldable pub insert_name : Text → List Text → List Text
insert_name name [] = name ∷ []
insert_name name (n ∷ names) =
    let rest = insert_name name names in
    if text_eq name n
    then n ∷ names
    else if is_lt (compare_list name n)
    then name ∷ n ∷ names
    else n ∷ rest

abbrev pub sorted_names : ColumnMap → List Text
unfolding insert_name
sorted_names [] = []
sorted_names ((name, _) ∷ columns) = insert_name name (sorted_names columns)

path_of : Text → List (Text × AccessPath) → Option AccessPath
path_of name [] = none
path_of name ((n, path) ∷ paths) = if text_eq n name then some path else path_of name paths

module _ (p : Primitives) (get_table : Text → Option QueriedTable) where
  find_table : TableSource → Result QueriedTable
  find_table source = ok_or (get_table source.table_name) (table_not_found source.table_name)

  -- `load_table_schema`
  unfoldable pub load_table_schema : TableSource → Result JoinTableSchema
  unfolding find_table
  load_table_schema source = do
    table ← find_table source
    ok (record {
      source = source;
      schema_map = table.column_map;
      column_names = sorted_names table.column_map;
    })

  -- The loop of `resolve_join_schema`: no alias twice.
  unfoldable pub load_join_schemas : List Text → List JoinSpec → Result (List JoinTableSchema)
  unfolding load_table_schema
  load_join_schemas aliases [] = ok []
  load_join_schemas aliases (join ∷ joins) =
      let alias = alias_or_name join.table in
      let rest = load_join_schemas (alias ∷ aliases) joins in
      do
        schema ← load_table_schema join.table
        _ ← fail_if (any (text_eq alias) aliases) (query_error "Duplicate table alias in JOIN")
        schemas ← rest
        ok (schema ∷ schemas)

  -- `resolve_join_schema`
  unfoldable pub resolve_join_schema : FromClause → Result (JoinTableSchema × List JoinTableSchema)
  unfolding load_join_schemas
  resolve_join_schema from = do
    base ← load_table_schema from.base
    join_tables ← load_join_schemas (alias_or_name from.base ∷ []) from.joins
    ok (base, join_tables)

  -- `initial_rows`
  unfoldable pub initial_rows : TableSource → Result (List JoinedRow)
  unfolding find_table append_binding
  initial_rows source = do
    table ← find_table source
    _ ← table.visible.walk_end
    ok (
        map
          (λ row.
            append_binding [] (alias_or_name source) source.table_name row.0 table.column_map row.1)
          table.visible.walk)

  -- The loop over the joins
  unfoldable pub apply_joins :
      List JoinSpec → List JoinTableSchema → List JoinedRow → Result (List JoinedRow)
  unfolding find_table apply_join
  apply_joins (join ∷ joins) (schema ∷ schemas) current = elim (find_table join.table) [
    | err e ↦ err e
    | ok table ↦ elim (apply_join p schema.schema_map table.visible join current) [
      | err e ↦ err e
      | ok next ↦ apply_joins joins schemas next
    ]
  ]
  apply_joins _ _ current = ok current

  -- `filter.evaluate(&ctx)?` where there is a filter
  abbrev pub passes : Option SearchExpression → JoinedRow → Result Bool
  unfolding evaluate build_row_context
  passes none joined = ok true
  passes (some filter) joined = evaluate p (build_row_context joined) filter

  -- `joined.tables.first().map(…).unwrap_or(0)`
  abbrev pub first_row_id : JoinedRow → RowId
  first_row_id [] = 0
  first_row_id (binding ∷ bindings) = binding.row_id

  -- The loop over the joined rows
  unfoldable pub collect_results :
      Option SearchExpression → List ProjectionColumn → List JoinedRow → Result (List SearchResult)
  unfolding project
  collect_results filter projection [] = ok []
  collect_results filter projection (joined ∷ current) =
      let rest = collect_results filter projection current in
      do
        matches ← passes filter joined
        elim matches [
          | false ↦ rest
          | true ↦ do
            values ← project joined projection []
            results ← rest
            ok (record { row_id = first_row_id joined; result_values = values } ∷ results)
        ]

  -- `execute_join_search`
  unfoldable pub execute_join_search : SearchRequest → Result (List SearchResult)
  unfolding resolve_join_schema resolve_projection initial_rows apply_joins collect_results
      sort_results limited
  execute_join_search request = do
    (base, join_tables) ← resolve_join_schema request.from
    let projection = resolve_projection base join_tables request.projection
    start ← initial_rows request.from.base
    current ← apply_joins request.from.joins join_tables start
    results ← collect_results request.filter projection current
    ok (limited request.limit request.offset (sort_results p request.order_by results))

  -- `execute_physical_select`
  unfoldable pub execute_physical_select : PhysicalSelectPlan → Result (List SearchResult)
  unfolding execute_join_search find_table path_of
  execute_physical_select plan = elim plan.request.from.joins [
    | [] ↦ do
      table ← find_table plan.request.from.base
      table.search plan.request (path_of plan.request.from.base.table_name plan.access_paths)
    | _ ∷ _ ↦ execute_join_search plan.request
  ]
