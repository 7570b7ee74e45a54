-- ===== src/Tests/Queries.antt =====
-- Joins of two small tables: u with the columns id and name, o with the columns id and user.
use ant_db.Common.{◌≡◌, ℕ, refl, inr, lookup, none, some, List, [], ◌∷◌, arith}
use ant_db.Common.Int.{pos}
use ant_db.Errors.{Text, ok}
use ant_db.Row.Entry.{DataBaseDataEntry, RowData, RowId, entry_eq, compare_list}
use ant_db.Row.Entry.Order.{entry_eq_comm}
use ant_db.Planner.{ColumnMap}
use ant_db.Search.{qualified_column, comparison, equal, resolve}
use ant_db.Query.Rows.{JoinType, JoinSpec, TableBinding, JoinedRow, build_row_context}
use ant_db.Query.Joins.{VisibleTable, apply_join, join_row}
use ant_db.Query.Results.{SortBy, OrderBy, SearchResult}
use ant_db.Query.Extension.{IsJoinOf, least, apply_join-IsJoinOf}
use ant_db.Query.Probe.{IsConsistent, IsEqualityJoin, rows_with, nested_loop, join_row-nested_loop}
use ant_db.Tests.{prims}

abbrev number : ℕ → DataBaseDataEntry
number n = DataBaseDataEntry.integer_i32 (pos n)

abbrev u : Text
u = 117 ∷ []

abbrev o : Text
o = 111 ∷ []

abbrev id : Text
id = 105 ∷ 100 ∷ []

abbrev user : Text
user = 117 ∷ 115 ∷ 114 ∷ []

abbrev order_columns : ColumnMap
order_columns = (id, 0) ∷ (user, 1) ∷ []

abbrev orders : List (RowId × RowData)
orders =
    (1, (0, number 10) ∷ (1, number 7) ∷ [])
    ∷ (2, (0, number 11) ∷ (1, number 8) ∷ [])
    ∷ (3, (0, number 12) ∷ [])
    ∷ []

abbrev order_table : VisibleTable
order_table = record {
  walk = orders;
  walk_end = ok tt;
  lookup_rows_by_column_value = λ column_id value. ok (rows_with prims column_id value orders);
  lookup_visible_row_data = λ row_id. ok (lookup row_id orders);
}

-- LEFT JOIN o ON u.id = o.usr
abbrev on_user : JoinSpec
on_user = record {
  table = record { table_name = o; table_alias = none };
  join_type = JoinType.left_outer;
  on = some (comparison (qualified_column u id) equal (qualified_column o user));
  using_columns = none;
}

abbrev user_binding : ℕ → TableBinding
user_binding n = record {
  alias = u;
  table_name = u;
  row_id = n;
  column_map = (id, 0) ∷ [];
  row_data = (0, number n) ∷ [];
}

abbrev user_row : ℕ → JoinedRow
user_row n = user_binding n ∷ []

abbrev joined_rows : List JoinedRow
joined_rows =
    (user_binding 7
      ∷ record {
        alias = o;
        table_name = o;
        row_id = 1;
        column_map = order_columns;
        row_data = (0, number 10) ∷ (1, number 7) ∷ [];
      }
      ∷ [])
    ∷ (user_binding 9
        ∷ record {
          alias = o;
          table_name = o;
          row_id = 0;
          column_map = order_columns;
          row_data = [];
        }
        ∷ [])
    ∷ []

-- User 9 has no order.
apply_join-IsJoinOf_example :
    IsJoinOf (least JoinType.left_outer) (user_row 7 ∷ user_row 9 ∷ []) joined_rows
unfolding apply_join compare_list
apply_join-IsJoinOf_example =
    apply_join-IsJoinOf prims order_columns order_table on_user (user_row 7 ∷ user_row 9 ∷ [])
      joined_rows refl

on_user-IsEqualityJoin : IsEqualityJoin on_user order_columns u id o user 1
unfolding compare_list
on_user-IsEqualityJoin = record {
  tests = inr refl;
  on_is = refl;
  right_is = refl;
  left_other = refl;
  right_dotless = refl;
  left_dotless = refl;
  columns_dotless = (refl, (refl, tt));
  column_is = refl;
}

order_table-IsConsistent : IsConsistent prims order_table 1
order_table-IsConsistent = record {
  walks = refl;
  finds = λ value. refl;
  reads = (refl, (refl, (refl, tt)));
}

join_row-nested_loop_example :
    join_row prims order_columns order_table on_user (user_row 7)
    ≡ nested_loop prims order_columns order_table on_user (user_row 7)
unfolding resolve build_row_context compare_list entry_eq
join_row-nested_loop_example =
    join_row-nested_loop prims order_columns order_table on_user u id o user 1
      on_user-IsEqualityJoin (user_row 7)
      (entry_eq_comm prims (λ a b. ground arith) (λ a b. ground arith)) ((refl, tt), tt)
      order_table-IsConsistent (λ value e. ground arith)

-- Both tables have a column id.
abbrev both : JoinedRow
both =
    user_binding 7
    ∷ record {
      alias = o;
      table_name = o;
      row_id = 1;
      column_map = order_columns;
      row_data = (0, number 10) ∷ [];
    }
    ∷ []

abbrev result : ℕ → SearchResult
result n = record { row_id = n; result_values = (id, number n) ∷ [] }

abbrev by_user : SortBy
by_user = record { sort_alias = none; sort_column = user; order_by = OrderBy.asc }
