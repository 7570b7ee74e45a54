-- ===== src/Search/Filters.antt =====
-- What a filter lets through (src/backend/core/search.rs), and what an index lookup may skip for it.
use ant_db.Common.{◌≡◌, true, false, none, some, arith, Bool-cases, inl, inr}
use ant_db.Errors.{Text, ok, Result-cases}
use ant_db.Row.Entry.{DataBaseDataEntry, Primitives, entry_eq, data_type, same_type}
use ant_db.Row.Entry.Order.{is_float, entry_eq-eq}
use ant_db.Search.{
  SearchExpression, column, literal, comparison, and, or, not, equal, not_equal,
  RowEvaluationContext, resolve, compare_values, evaluate, equality_lookup,
}

entry_eq-is_float :
    (p : Primitives) (a b : DataBaseDataEntry) → entry_eq p a b ≡ true → is_float a ≡ is_float b
unfolding entry_eq
entry_eq-is_float p a b h = ground arith

entry_eq-eq_right :
    (p : Primitives) (a b : DataBaseDataEntry) → is_float b ≡ false → entry_eq p a b ≡ true → a ≡ b
entry_eq-eq_right p a b f h = entry_eq-eq p a b (ground (arith, entry_eq-is_float p a b h)) h

entry_eq-same_type :
    (p : Primitives) (a b : DataBaseDataEntry)
    → entry_eq p a b ≡ true
    → same_type (data_type a) (data_type b) ≡ true
unfolding entry_eq
entry_eq-same_type p a b h = ground arith

module _ (p : Primitives) (ctx : RowEvaluationContext) where
  column_equal :
      (name : Text) (value : DataBaseDataEntry)
      → is_float value ≡ false
      → evaluate p ctx (comparison (column name) equal (literal value)) ≡ ok true
      → resolve ctx none name ≡ ok value
  unfolding evaluate compare_values
  column_equal name value plain passed = elim (Result-cases (resolve ctx none name)) [
    | inl (held, e) ↦ ground (arith, entry_eq-eq_right p held value plain)
    | inr (e, failed) ↦ absurd (ground arith)
  ]

  equal_column :
      (name : Text) (value : DataBaseDataEntry)
      → is_float value ≡ false
      → evaluate p ctx (comparison (literal value) equal (column name)) ≡ ok true
      → resolve ctx none name ≡ ok value
  unfolding evaluate compare_values
  equal_column name value plain passed = elim (Result-cases (resolve ctx none name)) [
    | inl (held, e) ↦ ground (arith, entry_eq-eq p value held plain)
    | inr (e, failed) ↦ absurd (ground arith)
  ]

  -- A filter with an equality lookup, whose value is no float, lets a row through only if the row
  -- holds that very value in the column: so the index entries under the value's key miss no row
  -- that the filter lets through.
  pub equality_lookup-evaluate :
      (e : SearchExpression) (name : Text) (value : DataBaseDataEntry)
      → equality_lookup e ≡ some (name, value)
      → is_float value ≡ false
      → evaluate p ctx e ≡ ok true
      → resolve ctx none name ≡ ok value
  unfolding equality_lookup
  equality_lookup-evaluate (comparison (column n) equal (literal v)) name value found plain passed =
      ground (arith, column_equal name value)
  equality_lookup-evaluate (comparison (literal v) equal (column n)) name value found plain passed =
      ground (arith, equal_column name value)
  equality_lookup-evaluate e name value found plain passed = absurd (cc)

  -- A comparison of a column with a literal of another type, such as a BIGINT column and the literal 5,
  -- which is read as 32 bits wide, is false with `=` and true with `<>`, whatever the values are.
  pub evaluate-type_mismatch :
      (name : Text) (value held : DataBaseDataEntry)
      → resolve ctx none name ≡ ok held
      → same_type (data_type held) (data_type value) ≡ false
      → (evaluate p ctx (comparison (column name) equal (literal value)) ≡ ok false)
        × (evaluate p ctx (comparison (column name) not_equal (literal value)) ≡ ok true)
  unfolding evaluate compare_values
  evaluate-type_mismatch name value held e differ =
      let unequal : entry_eq p held value ≡ false = elim (Bool-cases (entry_eq p held value)) [
        | inl same ↦ absurd (ground (arith, entry_eq-same_type p held value same))
        | inr other ↦ other
      ] in
      ground arith

  -- Negation goes through a conjunction and a disjunction, errors and the skipped operands included.
  pub evaluate-not :
      (a b : SearchExpression)
      → (evaluate p ctx (not (and a b)) ≡ evaluate p ctx (or (not a) (not b)))
        × (evaluate p ctx (not (or a b)) ≡ evaluate p ctx (and (not a) (not b)))
  unfolding evaluate
  evaluate-not a b = elim (Result-cases (evaluate p ctx a)) [
    | inl (flag, e) ↦ elim (Bool-cases flag) [ inl holds ↦ ground arith | inr fails ↦ ground arith ]
    | inr (e, failed) ↦ ground arith
  ]
