-- ===== src/Query/Joins.antt =====
-- src/backend/core/query.rs, `apply_join`: the rows of one join. The right table is an interface: what
-- the functions of src/backend/core/table.rs give under the transaction of the query. That a read may
-- bring pages into memory does not show in it.
use ant_db.Common.{Bool, true, false, Option, none, some, List, [], ◌∷◌, ◌++◌}
use ant_db.Errors.{Text, query_error, Result, ok, ◌>>=◌, ok_or}
use ant_db.Row.Entry.{DataBaseDataEntry, Primitives, RowData, RowId, ColumnId}
use ant_db.Copy.{to_ascii_lowercase}
use ant_db.Planner.{ColumnMap, column_named}
use ant_db.Query.Rows.{
  left_outer, cross, JoinSpec, JoinedRow, alias_or_name, append_binding, build_row_context,
  join_equality_lookup, join_matches,
}

-- What a join asks of a table: the rows that `for_each_visible_row` hands over and how its walk ends,
-- `lookup_rows_by_column_value` and `lookup_visible_row_data`.
pub record VisibleTable : Type 0 where
  pub walk : List (RowId × RowData)
  pub walk_end : Result (Unit {0})
  pub lookup_rows_by_column_value : ColumnId → DataBaseDataEntry → Result (List RowId)
  pub lookup_visible_row_data : RowId → Result (Option RowData)

-- The rows of a join for one row on the left, and whether there was a match.
abbrev pub Matches : Type 0
Matches = Bool × List JoinedRow

-- `matched = true; next.push(candidate)`
abbrev pub push_match : JoinedRow → Bool → Matches → Matches
push_match candidate true (matched, rows) = (true, candidate ∷ rows)
push_match candidate false found = found

module _ (p : Primitives) (right_map : ColumnMap) (table : VisibleTable) (join : JoinSpec) where
  -- `append_binding` with the right table's alias, name and columns
  abbrev pub candidate : JoinedRow → RowId → RowData → JoinedRow
  candidate partial row_id =
      append_binding partial (alias_or_name join.table) join.table.table_name row_id right_map

  -- The callback of the cross join
  unfoldable pub cross_rows : JoinedRow → List (RowId × RowData) → List JoinedRow
  unfolding append_binding
  cross_rows partial [] = []
  cross_rows partial ((row_id, row_data) ∷ rows) =
      candidate partial row_id row_data ∷ cross_rows partial rows

  -- The nested loop: the callback on the rows of the walk, then how the walk ends.
  unfoldable pub scan_rows : JoinedRow → List (RowId × RowData) → Result Matches
  unfolding append_binding join_matches
  scan_rows partial [] = do _ ← table.walk_end; ok (false, [])
  scan_rows partial ((row_id, row_data) ∷ rows) =
      let rest = scan_rows partial rows in
      do
        matches ← join_matches p (candidate partial row_id row_data) join
        found ← rest
        ok (push_match (candidate partial row_id row_data) matches found)

  -- The loop over the candidates of the index probe
  unfoldable pub probe_rows : JoinedRow → List RowId → Result Matches
  unfolding append_binding join_matches
  probe_rows partial [] = ok (false, [])
  probe_rows partial (row_id ∷ row_ids) =
      let rest = probe_rows partial row_ids in
      do
        visible ← table.lookup_visible_row_data row_id
        elim visible [
          | none ↦ rest
          | some row_data ↦ do
            matches ← join_matches p (candidate partial row_id row_data) join
            found ← rest
            ok (push_match (candidate partial row_id row_data) matches found)
        ]

  -- `if !matched && join.join_type == LeftOuter`: the left row with no data on the right
  unfoldable pub keep_left : JoinedRow → Matches → List JoinedRow
  unfolding append_binding
  keep_left partial (true, rows) = rows
  keep_left partial (false, rows) = elim join.join_type [
    | left_outer ↦ rows ++ candidate partial 0 [] ∷ []
    | _ ↦ rows
  ]

  -- The part of the index probe: the column by its name in lower case, its rows, and the test again.
  unfoldable pub probe_join : JoinedRow → Text → DataBaseDataEntry → Result Matches
  unfolding probe_rows
  probe_join partial column_name value = do
    column_id ←
        ok_or (column_named (to_ascii_lowercase column_name) right_map)
          (query_error "Join column not found on table")
    row_ids ← table.lookup_rows_by_column_value column_id value
    probe_rows partial row_ids

  -- `join.on.as_ref().and_then(…)`
  unfoldable pub use_index_probe : JoinedRow → Option (Text × DataBaseDataEntry)
  unfolding build_row_context join_equality_lookup
  use_index_probe partial = elim join.on [
    | none ↦ none
    | some on ↦ join_equality_lookup on (build_row_context partial) (alias_or_name join.table)
  ]

  -- One round of the loop of an inner or left join
  unfoldable pub join_row : JoinedRow → Result (List JoinedRow)
  unfolding use_index_probe probe_join scan_rows keep_left
  join_row partial = elim (use_index_probe partial) [
    | some (column_name, value) ↦ do
      found ← probe_join partial column_name value
      ok (keep_left partial found)
    | none ↦ do found ← scan_rows partial table.walk; ok (keep_left partial found)
  ]

  -- One round of the loop of a cross join
  unfoldable pub cross_row : JoinedRow → Result (List JoinedRow)
  unfolding cross_rows
  cross_row partial = do _ ← table.walk_end; ok (cross_rows partial table.walk)

  unfoldable pub join_each :
      (JoinedRow → Result (List JoinedRow)) → List JoinedRow → Result (List JoinedRow)
  join_each f [] = ok []
  join_each f (partial ∷ current) =
      let rest = join_each f current in do next ← f partial; more ← rest; ok (next ++ more)

  -- `apply_join`
  unfoldable pub apply_join : List JoinedRow → Result (List JoinedRow)
  unfolding join_row cross_row join_each
  apply_join = elim join.join_type [ cross ↦ join_each cross_row | _ ↦ join_each join_row ]
