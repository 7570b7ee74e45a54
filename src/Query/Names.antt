-- ===== src/Query/Names.antt =====
-- Names without a table in a filter over joined tables (src/backend/core/query.rs,
-- `build_row_context`).
use ant_db.Common.{
  ◌≡◌, refl, ap, inl, inr, false, none, List, [], ◌∷◌, ◌==◌, contains, arith, Bool-cases,
}
use ant_db.Errors.{Text, query_error, err}
use ant_db.Copy.{text_eq, to_ascii_lowercase}
use ant_db.Planner.{ColumnMap}
use ant_db.Search.{RowEvaluationContext, value_of, resolve}
use ant_db.Query.Rows.{
  TableBinding, JoinedRow, dotted, owners, bind_column, bind_columns, bind_tables,
  build_row_context,
}
use ant_db.Query.Context.{IsDotless, text_eq→eq, contains-dotted}

dotted-text_eq-dotless :
    (table n name : Text) → IsDotless name → text_eq (dotted table n) name ≡ false
dotted-text_eq-dotless table n name h = elim (Bool-cases (text_eq (dotted table n) name)) [
  | inl same ↦ absurd (
      ground
        (arith, ap (contains 46) (text_eq→eq (dotted table n) name same), contains-dotted table n))
  | inr other ↦ other
]

module _ (name : Text) (all : JoinedRow) (dotless : IsDotless name)
    (shared : (owners name all == 1) ≡ false) where
  bind_column-unowned :
      (binding : TableBinding) (n : Text) (ctx : RowEvaluationContext)
      → value_of name ctx ≡ none
      → value_of name (bind_column all binding n ctx) ≡ none
  unfolding bind_column
  bind_column-unowned binding n ctx h =
      let qualified = dotted-text_eq-dotless (to_ascii_lowercase binding.alias) n name dotless in
      elim (Bool-cases (owners n all == 1)) [
        | inr several ↦ rw (several, qualified) h
        | inl single ↦ elim (Bool-cases (text_eq n name)) [
          | inr other ↦ rw (single, other, qualified) h
          | inl same ↦ absurd (ground (arith, ap (λ x. owners x all == 1) (text_eq→eq n name same)))
        ]
      ]

  bind_columns-unowned :
      (binding : TableBinding) (columns : ColumnMap) (ctx : RowEvaluationContext)
      → value_of name ctx ≡ none
      → value_of name (bind_columns all binding columns ctx) ≡ none
  unfolding bind_columns
  bind_columns-unowned binding [] ctx h = h
  bind_columns-unowned binding ((n, id) ∷ columns) ctx h =
      bind_columns-unowned binding columns (bind_column all binding n ctx)
        (bind_column-unowned binding n ctx h)

  bind_tables-unowned :
      (bindings : List TableBinding) (ctx : RowEvaluationContext)
      → value_of name ctx ≡ none
      → value_of name (bind_tables all bindings ctx) ≡ none
  unfolding bind_tables
  bind_tables-unowned [] ctx h = h
  bind_tables-unowned (b ∷ bs) ctx h =
      bind_tables-unowned bs (bind_columns all b b.column_map ctx)
        (bind_columns-unowned b b.column_map ctx h)

-- A name without a table and without a dot is refused unless exactly one of the joined tables has a
-- column of that name in lower case.
pub resolve-unowned :
    (joined : JoinedRow) (name : Text)
    → IsDotless (to_ascii_lowercase name)
    → (owners (to_ascii_lowercase name) joined == 1) ≡ false
    → resolve (build_row_context joined) none name
      ≡ err (query_error "Column is ambiguous or not found in joined row")
unfolding resolve build_row_context
resolve-unowned joined name h k =
    ground (arith, bind_tables-unowned (to_ascii_lowercase name) joined h k joined [] refl)
