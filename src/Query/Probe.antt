-- ===== src/Query/Probe.antt =====
-- The index probe of a join and its nested loop (src/backend/core/query.rs, `apply_join`).
use ant_db.Common.{
  ◌≡◌, refl, ap, sym, ◌∙◌, ◌⊎◌, inl, inr, Bool, true, false, Option, none, some, List, [], ◌∷◌,
  lookup, All, arith, Option-cases, Bool-cases, if◌then◌else◌,
}
use ant_db.Errors.{Text, DataBaseErrors, Result, ok, err, ◌>>=◌, Result-cases, ok_or}
use ant_db.Row.Entry.{DataBaseDataEntry, Primitives, RowData, RowId, ColumnId, entry_eq}
use ant_db.Copy.{text_eq, to_ascii_lowercase}
use ant_db.Planner.{ColumnMap, column_named}
use ant_db.Search.{
  evaluate, resolve, qualified_column, comparison, equal, compare_values, resolve_value,
}
use ant_db.Query.Rows.{
  left_outer, inner, JoinSpec, TableBinding, JoinedRow, alias_or_name, append_binding,
  build_row_context, join_equality_lookup, join_matches, entry_or_null,
}
use ant_db.Query.Joins.{
  VisibleTable, candidate, scan_rows, probe_rows, keep_left, probe_join, use_index_probe, join_row,
}
use ant_db.Query.Context.{
  IsDotless, HasDotlessColumns, AreDotless, text_eq→eq, value_of-build_row_context,
  qualified_value-own, qualified_value-other,
}

-- `data.get(&column_id).map(|entry| entry == value).unwrap_or(false)`
abbrev pub holds_value : Primitives → ColumnId → DataBaseDataEntry → RowData → Bool
holds_value p id value row_data = elim (lookup id row_data) [
  | none ↦ false
  | some entry ↦ entry_eq p entry value
]

-- What `lookup_rows_by_column_value` of src/backend/core/table.rs gives, without an index: the visible
-- rows with the value.
abbrev pub rows_with :
    Primitives → ColumnId → DataBaseDataEntry → List (RowId × RowData) → List RowId
rows_with p id value [] = []
rows_with p id value ((row_id, row_data) ∷ rows) =
    let rest = rows_with p id value rows in
    if holds_value p id value row_data then row_id ∷ rest else rest

-- A table whose lookups agree with its visible rows.
pub record IsConsistent (p : Primitives) (table : VisibleTable) (id : ColumnId) : Type 0 where
  pub walks : table.walk_end ≡ ok tt
  pub finds :
      (value : DataBaseDataEntry)
      → table.lookup_rows_by_column_value id value ≡ ok (rows_with p id value table.walk)
  pub reads : All (λ row. table.lookup_visible_row_data row.0 ≡ ok (some row.1)) table.walk

ok_or-ok {ℓ} :
    {A : Type ℓ} (o : Option A) (e : DataBaseErrors) (a : A) → ok_or o e ≡ ok a → o ≡ some a
ok_or-ok none e a h = absurd (ground arith)
ok_or-ok (some b) e a h = ground arith

bind_ok {ℓ} : {A : Type ℓ} (m : Result A) → m ≡ (m >>= λ a. ok a)
bind_ok (ok a) = refl
bind_ok (err e) = refl

-- `ON left_table.left_column = right_table.right_column`, where the right side names the joined table
-- and its column `id`, and the left side another table; no name has a dot in it.
pub record IsEqualityJoin (join : JoinSpec) (right_map : ColumnMap)
    (left_table left_column right_table right_column : Text) (id : ColumnId) : Type 0 where
  pub tests : (join.join_type ≡ inner) ⊎ (join.join_type ≡ left_outer)
  pub on_is :
      join.on
      ≡ some (
          comparison
            (qualified_column left_table left_column)
            equal
            (qualified_column right_table right_column))
  pub right_is :
      text_eq (to_ascii_lowercase right_table) (to_ascii_lowercase (alias_or_name join.table))
      ≡ true
  pub left_other :
      text_eq (to_ascii_lowercase (alias_or_name join.table)) (to_ascii_lowercase left_table)
      ≡ false
  pub right_dotless : IsDotless (to_ascii_lowercase (alias_or_name join.table))
  pub left_dotless : IsDotless (to_ascii_lowercase left_table)
  pub columns_dotless : HasDotlessColumns right_map
  pub column_is : column_named (to_ascii_lowercase right_column) right_map ≡ some id

-- The nested loop for one row on the left.
unfoldable pub nested_loop :
    Primitives → ColumnMap → VisibleTable → JoinSpec → JoinedRow → Result (List JoinedRow)
unfolding scan_rows keep_left
nested_loop p right_map table join partial = do
  found ← scan_rows p right_map table join partial table.walk
  ok (keep_left p right_map table join partial found)

module _ (p : Primitives) (right_map : ColumnMap) (table : VisibleTable) (join : JoinSpec)
    (left_table left_column right_table right_column : Text) (id : ColumnId)
    (w : IsEqualityJoin join right_map left_table left_column right_table right_column id) where
  left_found :
      (partial : JoinedRow) (row_id : RowId) (row_data : RowData) (value : DataBaseDataEntry)
      → AreDotless partial
      → resolve (build_row_context partial) (some left_table) left_column ≡ ok value
      → resolve
          (build_row_context (candidate p right_map table join partial row_id row_data))
          (some left_table)
          left_column
        ≡ ok value
  unfolding resolve append_binding
  left_found partial row_id row_data value dotless left =
      let table_name = to_ascii_lowercase left_table in
      let name = to_ascii_lowercase left_column in
      let binding : TableBinding = record {
        alias = alias_or_name join.table;
        table_name = join.table.table_name;
        row_id = row_id;
        column_map = right_map;
        row_data = row_data;
      } in
      let before = ok_or-ok _ _ value left in
      let after =
        value_of-build_row_context table_name name partial binding dotless w.columns_dotless in
      let none_there =
        qualified_value-other table_name name binding right_map w.right_dotless w.left_dotless
          w.left_other in
      ground (arith, before, after, none_there)

  right_found :
      (partial : JoinedRow) (row_id : RowId) (row_data : RowData)
      → AreDotless partial
      → resolve
          (build_row_context (candidate p right_map table join partial row_id row_data))
          (some right_table)
          right_column
        ≡ ok (entry_or_null id row_data)
  unfolding resolve append_binding
  right_found partial row_id row_data dotless =
      let name = to_ascii_lowercase right_column in
      let binding : TableBinding = record {
        alias = alias_or_name join.table;
        table_name = join.table.table_name;
        row_id = row_id;
        column_map = right_map;
        row_data = row_data;
      } in
      let alias = to_ascii_lowercase binding.alias in
      let same : to_ascii_lowercase right_table ≡ alias = text_eq→eq _ _ w.right_is in
      let after = value_of-build_row_context alias name partial binding dotless w.columns_dotless in
      let there = qualified_value-own name binding right_map in
      rw (same) (ground (arith, after, there, w.column_is))

  -- The test of the nested loop compares the two columns.
  join_matches-equality :
      (partial : JoinedRow) (row_id : RowId) (row_data : RowData) (value : DataBaseDataEntry)
      → AreDotless partial
      → resolve (build_row_context partial) (some left_table) left_column ≡ ok value
      → join_matches p (candidate p right_map table join partial row_id row_data) join
        ≡ ok (entry_eq p value (entry_or_null id row_data))
  unfolding join_matches evaluate resolve_value compare_values
  join_matches-equality partial row_id row_data value dotless left =
      let l = left_found partial row_id row_data value dotless left in
      let r = right_found partial row_id row_data dotless in
      elim (w.tests) [
        | inl e ↦ ground (arith, e, w.on_is, l, r)
        | inr e ↦ ground (arith, e, w.on_is, l, r)
      ]

  -- What the candidate of a row holds, and what the test of the nested loop says of it.
  holds_value-entry_eq :
      (value : DataBaseDataEntry) (row_data : RowData)
      → ((a b : DataBaseDataEntry) → entry_eq p a b ≡ entry_eq p b a)
      → entry_eq p value DataBaseDataEntry.null ≡ false
      → holds_value p id value row_data ≡ entry_eq p value (entry_or_null id row_data)
  holds_value-entry_eq value row_data comm present = elim (Option-cases (lookup id row_data)) [
    | inl absent ↦ ground (arith, present)
    | inr (entry, e) ↦ ground (arith, comm entry value)
  ]

  probe_rows-scan_rows :
      (partial : JoinedRow) (rows : List (RowId × RowData)) (value : DataBaseDataEntry)
      → ((a b : DataBaseDataEntry) → entry_eq p a b ≡ entry_eq p b a)
      → entry_eq p value DataBaseDataEntry.null ≡ false
      → AreDotless partial
      → resolve (build_row_context partial) (some left_table) left_column ≡ ok value
      → table.walk_end ≡ ok tt
      → All (λ row. table.lookup_visible_row_data row.0 ≡ ok (some row.1)) rows
      → probe_rows p right_map table join partial (rows_with p id value rows)
        ≡ scan_rows p right_map table join partial rows
  unfolding probe_rows scan_rows
  probe_rows-scan_rows partial [] value comm present dotless left ends reads = rw (ends) refl
  probe_rows-scan_rows partial ((row_id, row_data) ∷ rows) value comm present dotless left ends
        (read, reads) =
      let rest = probe_rows-scan_rows partial rows value comm present dotless left ends reads in
      let test = join_matches-equality partial row_id row_data value dotless left in
      let held = holds_value-entry_eq value row_data comm present in
      elim (Bool-cases (holds_value p id value row_data)) [
        | inl match ↦
            let matched = test ∙ ap (λ b. ok b) (sym held ∙ match) in
            rw (match, probe_rows, read, matched, rest) refl
        | inr other ↦
            let unmatched = test ∙ ap (λ b. ok b) (sym held ∙ other) in
            rw (other, rest, unmatched) (bind_ok (scan_rows p right_map table join partial rows))
      ]

  -- A join on the equality of two columns gives the rows of the nested loop, in its order, also where
  -- it probes: if the lookups of the right table agree with its visible rows, `==` on entries is
  -- symmetric, no name has a dot in it, and the value on the left is not NULL.
  pub join_row-nested_loop :
      (partial : JoinedRow)
      → ((a b : DataBaseDataEntry) → entry_eq p a b ≡ entry_eq p b a)
      → AreDotless partial
      → IsConsistent p table id
      → ((value : DataBaseDataEntry)
          → resolve (build_row_context partial) (some left_table) left_column ≡ ok value
          → entry_eq p value DataBaseDataEntry.null ≡ false)
      → join_row p right_map table join partial ≡ nested_loop p right_map table join partial
  unfolding join_row nested_loop use_index_probe join_equality_lookup probe_join
  join_row-nested_loop partial comm dotless c present =
      elim (Result-cases (resolve (build_row_context partial) (some left_table) left_column)) [
        | inr (failure, e) ↦ ground (arith, w.on_is, e, w.right_is)
        | inl (value, e) ↦
            let probed =
              probe_rows-scan_rows partial table.walk value comm (present value e) dotless e c.walks
                c.reads in
            ground (arith, w.on_is, e, w.right_is, w.column_is, c.finds value, probed)
      ]
