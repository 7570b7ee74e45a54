-- ===== src/Table/Lookup.antt =====
-- Looking rows up by a value, and the foreign key check that asks it (src/backend/core/table.rs, and
-- `foreign_key_value_exists` of src/backend/core/database.rs).
use ant_db.Common.{
  ◌≡◌, refl, ap, sym, ◌∙◌, inl, inr, Bool, true, false, none, some, List, [], ◌∷◌, ◌++◌, ◌==◌,
  if◌then◌else◌, lookup, values, arith, Bool-cases, length, ltb,
}
use mathlib.Core.List.{append_assoc, append-nil}
use ant_db.Errors.{Result, ok, err}
use ant_db.Txn.{Transaction}
use ant_db.Row.Entry.{DataBaseDataEntry, Primitives, RowData, RowId, ColumnId, is_null}
use ant_db.Column.{Column, index_lookup}
use ant_db.Column.Constraints.{TableId}
use ant_db.Pages.Defs.{Sizes}
use ant_db.Pages.{Space}
use ant_db.Pages.Eviction.{IsSynced}
use ant_db.Database.{Table, TableMap}
use ant_db.Query.Probe.{holds_value, rows_with}
use ant_db.Table.Scan.{
  page_set, fold_rows, visible_rows, push_match, any_found, lookup_rows_by_column_value,
  referenced_value_exists,
}
use ant_db.Table.Walk.{ArePresent, IsSameSpace, IsWalked-ok, for_each_visible_row-IsWalked}

module _ (sizes : Sizes) (txn : Transaction) (p : Primitives) where
  -- The loop of `foreign_key_value_exists`: the first table with the id answers.
  ask_tables : TableId → ColumnId → DataBaseDataEntry → TableMap → Result (Bool × TableMap)
  unfolding referenced_value_exists
  ask_tables id column value [] = ok (false, [])
  ask_tables id column value ((name, t) ∷ tables) = elim (t.table_id == id) [
    | true ↦ elim (referenced_value_exists sizes txn p column value t) [
      | err e ↦ err e
      | ok (found, u) ↦ ok (found, (name, record t { space = u }) ∷ tables)
    ]
    | false ↦ elim (ask_tables id column value tables) [
      | err e ↦ err e
      | ok (found, tables') ↦ ok (found, (name, t) ∷ tables')
    ]
  ]

  -- `Database::foreign_key_value_exists`
  unfoldable pub foreign_key_value_exists :
      TableId → ColumnId → DataBaseDataEntry → TableMap → Result (Bool × TableMap)
  unfolding ask_tables
  foreign_key_value_exists id column value tables =
      if is_null value then ok (true, tables) else ask_tables id column value tables

  fold_rows-push_match :
      (id : ColumnId) (value : DataBaseDataEntry) (rows : List (RowId × RowData))
      (found : List RowId)
      → fold_rows sizes txn (push_match sizes txn p id value) rows found
        ≡ ok (found ++ rows_with p id value rows)
  unfolding push_match
  fold_rows-push_match id value [] found = ap (λ r. ok r) (sym (append-nil found))
  fold_rows-push_match id value ((row_id, row_data) ∷ rows) found =
      elim (Bool-cases (holds_value p id value row_data)) [
        | inl match ↦ rw (match) (
            fold_rows-push_match id value rows (found ++ row_id ∷ [])
            ∙ ap (λ r. ok r) (append_assoc found (row_id ∷ []) (rows_with p id value rows)))
        | inr other ↦ rw (other) (fold_rows-push_match id value rows found)
      ]

  -- If memory and page file are in step and every page that rows are located on exists, a lookup that
  -- no index answers gives the ids of the visible rows that hold the value, in the order of the walk,
  -- and changes no page.
  pub lookup_rows_by_column_value-rows_with :
      (id : ColumnId) (value : DataBaseDataEntry) (t : Table) (c : Column)
      → lookup id t.columns ≡ some c
      → index_lookup p value txn c ≡ none
      → IsSynced t.space
      → ArePresent (page_set (values t.space.row_locations)) t.space
      → (u : Space) × (lookup_rows_by_column_value sizes txn p id value t
          ≡ ok (rows_with p id value (visible_rows sizes txn t.space), u))
        × IsSameSpace t.space u
  unfolding lookup_rows_by_column_value
  lookup_rows_by_column_value-rows_with id value t c at unindexed w h =
      let walked =
        for_each_visible_row-IsWalked sizes txn (push_match sizes txn p id value) [] t.space w h in
      let folded : fold_rows sizes txn (push_match sizes txn p id value)
            (visible_rows sizes txn t.space) []
          ≡ ok (rows_with p id value (visible_rows sizes txn t.space)) =
        fold_rows-push_match id value (visible_rows sizes txn t.space) [] in
      let (u, done, same) =
        IsWalked-ok sizes txn (push_match sizes txn p id value) t.space _ _
          (rows_with p id value (visible_rows sizes txn t.space)) folded walked in
      (u, ground (arith, at, unindexed, done), same)

  asked :
      (ids : List RowId) (u : Space) (r : Result (List RowId × Space))
      → r ≡ ok (ids, u)
      → any_found sizes txn r ≡ ok (ltb 0 (length ids), u)
  asked [] u r h = rw (h) refl
  asked (row_id ∷ ids) u r h = rw (h) (ground arith)

  -- Under the same conditions the foreign key check of a value says yes for NULL, and otherwise whether
  -- a visible row of the referenced table holds the value.
  pub referenced_value_exists-rows_with :
      (id : ColumnId) (value : DataBaseDataEntry) (t : Table) (c : Column)
      → lookup id t.columns ≡ some c
      → index_lookup p value txn c ≡ none
      → IsSynced t.space
      → ArePresent (page_set (values t.space.row_locations)) t.space
      → (u : Space) × (referenced_value_exists sizes txn p id value t
          ≡ ok (ltb 0 (length (rows_with p id value (visible_rows sizes txn t.space))), u))
        × IsSameSpace t.space u
  unfolding referenced_value_exists
  referenced_value_exists-rows_with id value t c at unindexed w h =
      let (u, found, same) = lookup_rows_by_column_value-rows_with id value t c at unindexed w h in
      (u, asked (rows_with p id value (visible_rows sizes txn t.space)) u _ found, same)
