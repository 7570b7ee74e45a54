-- ===== src/Execute.antt =====
-- src/backend/core/plan/execute.rs: running the plans of SELECT, DELETE, UPDATE and INSERT on the
-- tables of a database. A plan that fails leaves what it has done so far: the caller rolls it back.
pub mod Deletion
use Prim.Native.String.{String}
use ant_db.Common.{ℕ, suc, Option, none, some, List, [], ◌∷◌, if◌then◌else◌, NatMap, lookup, insert}
use ant_db.Errors.{Text, query_error, table_not_found, Result, ok, err, ◌>>=◌}
use ant_db.Txn.{Transaction}
use ant_db.Row.Entry.{DataBaseDataType, Primitives, RowData, ColumnId, compare_list, is_gt}
use ant_db.Copy.{text_eq, to_ascii_lowercase}
use ant_db.Column.{Column, get_versioned_column}
use ant_db.Column.Validate.{FkLookup}
use ant_db.Pages.Defs.{Sizes}
use ant_db.Pages.Rows.{delete_row}
use ant_db.Database.{Table, TableMap, Database, find_table, get_table}
use ant_db.Dml.{UpdateAssignment, apply_update_assignment}
use ant_db.Planner.{ColumnMap, AccessPath, column_named, get_visible_column_map}
use ant_db.Search.{SearchExpression, RowEvaluationContext}
use ant_db.Query.Results.{ProjectionColumn, SearchResult}
use ant_db.Query.{
  SearchRequest, PhysicalSelectPlan, QueriedTable, execute_physical_select, insert_name,
}
use ant_db.Table.{insert_row, update_table_row}
use ant_db.Table.Search.{search}
use ant_db.Table.Queried.{queried_table}

-- `SearchRequest::single_table` with a filter alone
abbrev pub single_table : Text → Option SearchExpression → SearchRequest
single_table table_name filter = record {
  from = record { base = record { table_name = table_name; table_alias = none }; joins = [] };
  projection = none;
  aggregate = none;
  filter = filter;
  order_by = [];
  limit = none;
  offset = none;
}

-- A change of a table through the lock that `get_table` has found: under its exact name, or else under
-- the first that is the same in lower case.
unfoldable pub put_exact : Text → Table → TableMap → TableMap
put_exact name u [] = []
put_exact name u ((n, t) ∷ tables) =
    let rest = put_exact name u tables in if text_eq n name then (n, u) ∷ tables else (n, t) ∷ rest

unfoldable pub put_lowercase : Text → Table → TableMap → TableMap
put_lowercase requested u [] = []
put_lowercase requested u ((n, t) ∷ tables) =
    let rest = put_lowercase requested u tables in
    if text_eq (to_ascii_lowercase n) requested then (n, u) ∷ tables else (n, t) ∷ rest

unfoldable pub put_back : Text → Table → Database → Database
unfolding put_exact put_lowercase
put_back name u db = record db {
  tables = elim (find_table name db.tables) [
    | some _ ↦ put_exact name u db.tables
    | none ↦ put_lowercase (to_ascii_lowercase name) u db.tables
  ];
}

-- What a plan does to a table: its result, and the table as it leaves it.
abbrev pub Change : Type 0
Change = Table → Result ℕ × Table

-- `db.get_table(…).ok_or_else(…)?`, and what is done with the table.
unfoldable pub on_table : Text → Change → Database → Result ℕ × Database
unfolding put_back
on_table name change db = elim (get_table name db) [
  | none ↦ (err (table_not_found name), db)
  | some t ↦ let (result, u) = change t in (result, put_back name u db)
]

-- `Table::column_data_type`
unfoldable pub column_data_type : Transaction → ColumnId → Table → Result (Option DataBaseDataType)
column_data_type txn id t = elim (lookup id t.columns) [
  | none ↦ err (query_error "Column not found")
  | some c ↦
      ok (elim (get_versioned_column txn c) [ none ↦ none | some version ↦ some version.data_type ])
]

-- The loop over the values of a row in `execute_update`. Its order does not matter: the keys of the
-- values are names of distinct columns.
unfoldable pub values_by_id : ColumnMap → RowEvaluationContext → RowData → Result RowData
values_by_id columns [] row_data = ok row_data
values_by_id columns ((name, value) ∷ rest) row_data = elim (column_named name columns) [
  | none ↦ err (query_error "Column not found during update")
  | some id ↦ values_by_id columns rest (insert id value row_data)
]

-- The loop over the assignments of `execute_update`
unfoldable pub assign_all :
    Transaction → Table → ColumnMap → List (Text × UpdateAssignment) → RowData → Result RowData
unfolding column_data_type
assign_all txn t columns [] row_data = ok row_data
assign_all txn t columns ((name, assignment) ∷ assignments) row_data =
    elim (column_named name columns) [
      | none ↦ err (query_error "Assignment column not found")
      | some id ↦ elim (column_data_type txn id t) [
        | err e ↦ err e
        | ok none ↦ err (query_error "Assignment column not found")
        | ok (some expected) ↦ elim (apply_update_assignment assignment row_data id expected) [
          | err e ↦ err e
          | ok value ↦ assign_all txn t columns assignments (insert id value row_data)
        ]
      ]
    ]

module _ (p : Primitives) (sizes : Sizes) (fk : FkLookup) (txn : Transaction) where
  -- The loop of `execute_delete`
  unfoldable pub delete_rows : List SearchResult → ℕ → Change
  unfolding delete_row
  delete_rows [] deleted_count t = (ok deleted_count, t)
  delete_rows (row ∷ rows) deleted_count t = elim (delete_row sizes row.row_id txn t.space) [
    | err e ↦ (err e, t)
    | ok u ↦ delete_rows rows (suc deleted_count) (record t { space = u })
  ]

  -- `execute_delete` on the table
  unfoldable pub delete_matching : Text → Option SearchExpression → AccessPath → Change
  unfolding search delete_rows
  delete_matching name filter path t =
      elim (search p sizes txn (single_table name filter) (some path) t) [
        | err e ↦ (err e, t)
        | ok (rows, u) ↦ delete_rows rows 0 (record t { space = u })
      ]

  -- `execute_delete`
  unfoldable pub execute_delete :
      Text → Option SearchExpression → AccessPath → Database → Result ℕ × Database
  unfolding on_table delete_matching
  execute_delete name filter path = on_table name (delete_matching name filter path)

  -- The loop of `execute_update`
  unfoldable pub update_rows :
      ColumnMap → List (Text × UpdateAssignment) → List SearchResult → ℕ → Change
  unfolding values_by_id assign_all update_table_row
  update_rows columns assignments [] updated_count t = (ok updated_count, t)
  update_rows columns assignments (row ∷ rows) updated_count t =
      elim (values_by_id columns row.result_values []) [
        | err e ↦ (err e, t)
        | ok row_data ↦ elim (assign_all txn t columns assignments row_data) [
          | err e ↦ (err e, t)
          | ok assigned ↦ elim (update_table_row p sizes fk txn row.row_id assigned t) [
            | err e ↦ (err e, t)
            | ok u ↦ update_rows columns assignments rows (suc updated_count) u
          ]
        ]
      ]

  -- `execute_update` on the table
  unfoldable pub update_matching :
      Text → List (Text × UpdateAssignment) → Option SearchExpression → AccessPath → Change
  unfolding search update_rows get_visible_column_map
  update_matching name assignments filter path t =
      elim (search p sizes txn (single_table name filter) (some path) t) [
        | err e ↦ (err e, t)
        | ok (rows, u) ↦
            update_rows (get_visible_column_map txn t) assignments rows 0 (record t { space = u })
      ]

  -- `execute_update`
  unfoldable pub execute_update :
      Text
      → List (Text × UpdateAssignment)
      → Option SearchExpression
      → AccessPath
      → Database
      → Result ℕ × Database
  unfolding on_table update_matching
  execute_update name assignments filter path =
      on_table name (update_matching name assignments filter path)

  -- The loop of `execute_insert`
  unfoldable pub insert_rows : List RowData → ℕ → Change
  unfolding insert_row
  insert_rows [] inserted_count t = (ok inserted_count, t)
  insert_rows (row_data ∷ rows) inserted_count t = elim (insert_row p sizes fk txn row_data t) [
    | err e ↦ (err e, t)
    | ok (row_id, u) ↦ insert_rows rows (suc inserted_count) u
  ]

  -- `execute_insert`
  unfoldable pub execute_insert : Text → List RowData → Database → Result ℕ × Database
  unfolding on_table insert_rows
  execute_insert name rows = on_table name (insert_rows rows 0)

-- `PhysicalPlan`
pub data PhysicalPlan : Type 0 where
  select : PhysicalSelectPlan → PhysicalPlan
  delete :
      (table_name : Text)
      → (filter : Option SearchExpression) → (access_path : AccessPath) → PhysicalPlan
  update :
      (table_name : Text)
      → (assignments : List (Text × UpdateAssignment)) → (filter : Option SearchExpression)
      → (access_path : AccessPath) → PhysicalPlan
  insert_into : (table_name : Text) → (rows : List RowData) → PhysicalPlan

-- `ExecutionResult`, of the plans that `execute` runs; the tag is the name of the statement.
pub data ExecutionResult : Type 0 where
  selected : (column_names : List Text) → (rows : List SearchResult) → ExecutionResult
  rows_affected : (tag : String) → (count : ℕ) → ExecutionResult

-- `keys().cloned().collect()` and `sort`, of a map of values
unfoldable pub sorted_keys : RowEvaluationContext → List Text
unfolding insert_name
sorted_keys [] = []
sorted_keys ((name, _) ∷ rest) = insert_name name (sorted_keys rest)

-- `sort` of names
unfoldable pub put_name : Text → List Text → List Text
put_name name [] = name ∷ []
put_name name (n ∷ names) =
    let rest = put_name name names in
    if is_gt (compare_list name n) then n ∷ rest else name ∷ n ∷ names

unfoldable pub sort_names : List Text → List Text
unfolding put_name
sort_names [] = []
sort_names (n ∷ names) = put_name n (sort_names names)

abbrev pub visible_names : Transaction → NatMap Column → List Text
visible_names txn [] = []
visible_names txn ((id, c) ∷ columns) = elim (get_versioned_column txn c) [
  | none ↦ visible_names txn columns
  | some version ↦ version.name ∷ visible_names txn columns
]

-- `Table::get_visible_column_names`
unfoldable pub get_visible_column_names : Transaction → Table → List Text
unfolding sort_names
get_visible_column_names txn t = sort_names (visible_names txn t.columns)

abbrev pub output_names : List ProjectionColumn → List Text
output_names [] = []
output_names (column ∷ columns) = column.output_name ∷ output_names columns

-- The names of a result, by the request and, for a join without a projection, the first row.
unfoldable pub result_names :
    Database → Transaction → SearchRequest → List SearchResult → Result (List Text)
unfolding sorted_keys get_visible_column_names
result_names db txn request rows = elim request.aggregate [
  | some output_name ↦ ok (output_name ∷ [])
  | none ↦ elim request.projection [
    | some projection ↦ ok (output_names projection)
    | none ↦ elim request.from.joins [
      | _ ∷ _ ↦ elim rows [ [] ↦ ok [] | row ∷ _ ↦ ok (sorted_keys row.result_values) ]
      | [] ↦ elim (get_table request.from.base.table_name db) [
        | none ↦ err (table_not_found request.from.base.table_name)
        | some t ↦ ok (get_visible_column_names txn t)
      ]
    ]
  ]
]

-- `ExecutionResult::RowsAffected` of a count
abbrev pub affected : String → Result ℕ × Database → Result ExecutionResult × Database
affected tag (err e, db) = (err e, db)
affected tag (ok count, db) = (ok (rows_affected tag count), db)

module _ (p : Primitives) (sizes : Sizes) (fk : FkLookup) (txn : Transaction) where
  -- The tables of a database as a query sees them
  abbrev pub queried : Database → Text → Option QueriedTable
  queried db name = elim (get_table name db) [
    | none ↦ none
    | some t ↦ some (queried_table p sizes txn t)
  ]

  -- `execute_select`
  unfoldable pub execute_select : PhysicalSelectPlan → Database → Result ExecutionResult
  unfolding execute_physical_select queried_table result_names
  execute_select plan db = do
    rows ← execute_physical_select p (queried db) plan
    names ← result_names db txn plan.request rows
    ok (selected names rows)

  -- `execute`
  unfoldable pub execute : PhysicalPlan → Database → Result ExecutionResult × Database
  unfolding execute_select execute_delete execute_update execute_insert
  execute (select plan) db = (execute_select plan db, db)
  execute (delete name filter path) db =
      affected "DELETE" (execute_delete p sizes fk txn name filter path db)
  execute (update name assignments filter path) db =
      affected "UPDATE" (execute_update p sizes fk txn name assignments filter path db)
  execute (insert_into name rows) db =
      affected "INSERT" (execute_insert p sizes fk txn name rows db)
