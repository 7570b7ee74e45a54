-- ===== src/Query/Results.antt =====
-- src/backend/core/query.rs: projection, order and limits of joined rows.
use Prim.Native.Nat.{Ordering}
use ant_db.Common.{ℕ, Option, none, some, List, [], ◌∷◌, ◌++◌, if◌then◌else◌, find, take, drop, map}
use ant_db.Errors.{Text, query_error, Result, ok, err, ◌>>=◌, ok_or}
use ant_db.Row.Entry.{DataBaseDataEntry, Primitives, RowId, compare_entry, is_gt, is_eq}
use ant_db.Copy.{text_eq, to_ascii_lowercase}
use ant_db.Planner.{ColumnMap, column_named}
use ant_db.Search.{RowEvaluationContext, value_of}
use ant_db.Query.Rows.{TableSource, JoinedRow, alias_or_name, dotted, entry_or_null}

pub data OrderBy : Type 0 where
  asc desc : OrderBy

pub record ProjectionColumn : Type 0 where
  pub output_name : Text
  pub source_alias : Option Text
  pub column_name : Text

pub record SortBy : Type 0 where
  pub sort_alias : Option Text
  pub sort_column : Text
  pub order_by : OrderBy

-- The values are a `HashMap`: what is inserted later stands first.
pub record SearchResult : Type 0 where
  pub row_id : RowId
  pub result_values : RowEvaluationContext

-- `JoinTableSchema`
pub record JoinTableSchema : Type 0 where
  pub source : TableSource
  pub schema_map : ColumnMap
  pub column_names : List Text

-- The alias that `resolve_projection_value` looks for.
projected_alias : JoinedRow → ProjectionColumn → Option Text
projected_alias joined column = elim column.source_alias [
  | some alias ↦ some alias
  | none ↦ elim joined [
    | [] ↦ none
    | binding ∷ rest ↦ elim rest [ [] ↦ some binding.alias | _ ∷ _ ↦ none ]
  ]
]

-- `resolve_projection_value`
unfoldable pub resolve_projection_value : JoinedRow → ProjectionColumn → Result DataBaseDataEntry
unfolding projected_alias
resolve_projection_value joined column = do
  table_alias ←
      ok_or (projected_alias joined column)
        (query_error "Column is ambiguous; qualify it with a table alias")
  binding ←
      ok_or (find (λ table. text_eq table.alias table_alias) joined)
        (query_error "Table alias not found in JOIN")
  column_id ←
      ok_or (column_named column.column_name binding.column_map) (query_error "Column not found")
  ok (entry_or_null column_id binding.row_data)

-- `append_table_projection`
unfoldable pub append_table_projection :
    List ProjectionColumn → JoinTableSchema → List ProjectionColumn
append_table_projection projection schema =
    let alias = alias_or_name schema.source in
    projection
    ++ map
        (λ name. record {
          output_name = dotted alias name;
          source_alias = some alias;
          column_name = name;
        })
        schema.column_names

append_projections : List ProjectionColumn → List JoinTableSchema → List ProjectionColumn
unfolding append_table_projection
append_projections projection [] = projection
append_projections projection (schema ∷ schemas) =
    append_projections (append_table_projection projection schema) schemas

-- `resolve_projection`, of a request with joins
unfoldable pub resolve_projection :
    JoinTableSchema → List JoinTableSchema → Option (List ProjectionColumn) → List ProjectionColumn
unfolding append_projections
resolve_projection base join_tables (some columns) = columns
resolve_projection base join_tables none = append_projections [] (base ∷ join_tables)

-- The values of a result, the projected columns in turn.
unfoldable pub project :
    JoinedRow → List ProjectionColumn → RowEvaluationContext → Result RowEvaluationContext
unfolding resolve_projection_value
project joined [] seen = ok seen
project joined (column ∷ columns) seen = elim (resolve_projection_value joined column) [
  | err e ↦ err e
  | ok value ↦ project joined columns ((column.output_name, value) ∷ seen)
]

-- `sort_key`
abbrev pub sort_key : Text → Option Text → Text
sort_key name none = to_ascii_lowercase name
sort_key name (some alias) = dotted (to_ascii_lowercase alias) (to_ascii_lowercase name)

-- The value that a result is sorted by.
unfoldable pub sort_value : SortBy → SearchResult → DataBaseDataEntry
sort_value sort_by result =
    elim (value_of (sort_key sort_by.sort_column sort_by.sort_alias) result.result_values) [
      | some value ↦ value
      | none ↦ elim (value_of sort_by.sort_column result.result_values) [
        | some value ↦ value
        | none ↦ DataBaseDataEntry.null
      ]
    ]

-- `Ordering::reverse`
abbrev pub reverse_order : Ordering → Ordering
reverse_order Ordering.lt = Ordering.gt
reverse_order Ordering.eq = Ordering.eq
reverse_order Ordering.gt = Ordering.lt

abbrev pub directed : OrderBy → Ordering → Ordering
directed asc order = order
directed desc order = reverse_order order

module _ (p : Primitives) where
  -- `compare_rows`, which has no error to return
  unfoldable pub compare_rows : SearchResult → SearchResult → List SortBy → Ordering
  unfolding sort_value compare_entry
  compare_rows left right [] = Ordering.eq
  compare_rows left right (sort_by ∷ sort_columns) =
      let rest = compare_rows left right sort_columns in
      let order = compare_entry p (sort_value sort_by left) (sort_value sort_by right) in
      if is_eq order then rest else directed sort_by.order_by order

  -- `sort_by` is a stable sort: a row goes before the first later row that is not less than it.
  unfoldable pub insert_result : List SortBy → SearchResult → List SearchResult → List SearchResult
  unfolding compare_rows
  insert_result sort_columns result [] = result ∷ []
  insert_result sort_columns result (r ∷ rs) =
      let rest = insert_result sort_columns result rs in
      if is_gt (compare_rows result r sort_columns) then r ∷ rest else result ∷ r ∷ rs

  unfoldable pub sort_results : List SortBy → List SearchResult → List SearchResult
  unfolding insert_result
  sort_results sort_columns [] = []
  sort_results sort_columns (r ∷ rs) = insert_result sort_columns r (sort_results sort_columns rs)

-- `skip(offset.unwrap_or(0)).take(limit.unwrap_or(usize::MAX))`
unfoldable pub limited {ℓ} : {A : Type ℓ} → Option ℕ → Option ℕ → List A → List A
limited {A} limit offset results =
    let skipped : List A = elim offset [ none ↦ results | some n ↦ drop n results ] in
    elim limit [ none ↦ skipped | some n ↦ take n skipped ]
