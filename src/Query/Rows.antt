-- ===== src/Query/Rows.antt =====
-- src/backend/core/query.rs: joined rows, the values that a filter or an ON clause sees on them, and
-- the test of a join; with the join requests and `join_equality_lookup` of src/backend/core/search.rs.
use ant_db.Common.{
  ℕ, ◌+◌, Bool, true, false, Option, none, some, List, [], ◌∷◌, ◌++◌, ◌==◌, if◌then◌else◌, lookup,
}
use ant_db.Errors.{Text, query_error, Result, ok, err, ◌>>=◌, ok_or}
use ant_db.Row.Entry.{DataBaseDataEntry, Primitives, RowData, RowId, entry_eq}
use ant_db.Copy.{text_eq, to_ascii_lowercase}
use ant_db.Planner.{ColumnMap, column_named}
use ant_db.Search.{
  SearchExpression, RowEvaluationContext, resolve, evaluate, qualified_column, comparison, equal,
}

pub data JoinType : Type 0 where
  inner left_outer cross : JoinType

pub record TableSource : Type 0 where
  pub table_name : Text
  pub table_alias : Option Text

-- `TableSource::alias_or_name`
abbrev pub alias_or_name : TableSource → Text
alias_or_name source = elim source.table_alias [ none ↦ source.table_name | some alias ↦ alias ]

pub record JoinSpec : Type 0 where
  pub table : TableSource
  pub join_type : JoinType
  pub on : Option SearchExpression
  pub using_columns : Option (List Text)

pub record TableBinding : Type 0 where
  pub alias : Text
  pub table_name : Text
  pub row_id : RowId
  pub column_map : ColumnMap
  pub row_data : RowData

-- The bindings of a joined row, the first table first.
abbrev pub JoinedRow : Type 0
JoinedRow = List TableBinding

-- `append_binding`
unfoldable pub append_binding : JoinedRow → Text → Text → RowId → ColumnMap → RowData → JoinedRow
append_binding joined alias table_name row_id column_map row_data =
    joined
    ++ record {
      alias = alias;
      table_name = table_name;
      row_id = row_id;
      column_map = column_map;
      row_data = row_data;
    }
      ∷ []

-- `data.get(column_id).cloned().unwrap_or(Null)`
abbrev pub entry_or_null : ℕ → RowData → DataBaseDataEntry
entry_or_null id row_data = elim (lookup id row_data) [
  | none ↦ DataBaseDataEntry.null
  | some entry ↦ entry
]

-- How many of the tables have a column of a name.
unfoldable pub owners : Text → JoinedRow → ℕ
owners name [] = 0
owners name (binding ∷ joined) =
    elim (column_named name binding.column_map) [ none ↦ 0 | some _ ↦ 1 ] + owners name joined

-- `format!("{}.{}", …)`; 46 is the dot.
abbrev pub dotted : Text → Text → Text
dotted table name = table ++ 46 ∷ name

-- The value of a column of a table, by the column's name.
abbrev pub column_value : TableBinding → Text → DataBaseDataEntry
column_value binding name = elim (column_named name binding.column_map) [
  | none ↦ DataBaseDataEntry.null
  | some id ↦ entry_or_null id binding.row_data
]

-- The body of the inner loop of `build_row_context`. What is inserted later stands first.
unfoldable pub bind_column :
    JoinedRow → TableBinding → Text → RowEvaluationContext → RowEvaluationContext
unfolding owners
bind_column all binding name ctx =
    let value = column_value binding name in
    let qualified = (dotted (to_ascii_lowercase binding.alias) name, value) ∷ ctx in
    if owners name all == 1 then (name, value) ∷ qualified else qualified

-- The inner loop of `build_row_context`, over the keys of the column map of one table.
unfoldable pub bind_columns :
    JoinedRow → TableBinding → ColumnMap → RowEvaluationContext → RowEvaluationContext
unfolding bind_column
bind_columns all binding [] ctx = ctx
bind_columns all binding ((name, _) ∷ columns) ctx =
    bind_columns all binding columns (bind_column all binding name ctx)

-- The outer loop of `build_row_context`.
unfoldable pub bind_tables :
    JoinedRow → List TableBinding → RowEvaluationContext → RowEvaluationContext
unfolding bind_columns
bind_tables all [] ctx = ctx
bind_tables all (binding ∷ bindings) ctx =
    bind_tables all bindings (bind_columns all binding binding.column_map ctx)

-- `build_row_context`
unfoldable pub build_row_context : JoinedRow → RowEvaluationContext
unfolding bind_tables
build_row_context joined = bind_tables joined joined []

-- `join_equality_lookup`
unfoldable pub join_equality_lookup :
    SearchExpression → RowEvaluationContext → Text → Option (Text × DataBaseDataEntry)
unfolding resolve
join_equality_lookup
      (comparison (qualified_column table name) equal (qualified_column right_table right_name)) ctx
      right_alias =
    if text_eq (to_ascii_lowercase right_table) (to_ascii_lowercase right_alias)
    then elim (resolve ctx (some table) name) [ err _ ↦ none | ok value ↦ some (right_name, value) ]
    else none
join_equality_lookup _ ctx right_alias = none

-- The last two bindings of a joined row: the right table of the join and the table before it.
unfoldable pub last_two : JoinedRow → Option (TableBinding × TableBinding)
last_two [] = none
last_two (left ∷ []) = none
last_two (left ∷ right ∷ []) = some (left, right)
last_two (binding ∷ left ∷ right ∷ joined) = last_two (left ∷ right ∷ joined)

-- The value of a column of a USING clause.
using_value : TableBinding → Text → Result DataBaseDataEntry
using_value binding column = do
  id ← ok_or (column_named column binding.column_map) (query_error "USING column not found")
  ok (entry_or_null id binding.row_data)

module _ (p : Primitives) where
  -- The loop over the columns of a USING clause.
  unfoldable pub using_matches : TableBinding → TableBinding → List Text → Result Bool
  unfolding using_value entry_eq
  using_matches left right [] = ok true
  using_matches left right (column ∷ columns) =
      let rest = using_matches left right columns in
      do
        left_value ← using_value left column
        right_value ← using_value right column
        if entry_eq p left_value right_value then rest else ok false

  -- `join_matches`
  unfoldable pub join_matches : JoinedRow → JoinSpec → Result Bool
  unfolding using_matches evaluate build_row_context last_two
  join_matches joined join = elim join.join_type [
    | cross ↦ ok true
    | _ ↦ elim join.on [
      | some on ↦ evaluate p (build_row_context joined) on
      | none ↦ elim join.using_columns [
        | none ↦ err (query_error "JOIN requires an ON or USING clause")
        | some columns ↦ elim (last_two joined) [
          | none ↦ err (query_error "Invalid JOIN state")
          | some (left, right) ↦ using_matches left right columns
        ]
      ]
    ]
  ]
