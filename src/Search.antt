-- ===== src/Search.antt =====
-- src/backend/core/search.rs: the filter expressions of a query, and their evaluation on a row.
pub mod Filters
use ant_db.Common.{ℕ, Bool, true, false, Option, none, some, List, [], ◌∷◌, ◌++◌, if◌then◌else◌}
use ant_db.Errors.{Text, DataBaseErrors, query_error, Result, ok, err, ◌>>=◌, ok_or}
use ant_db.Row.Entry.{DataBaseDataEntry, Primitives, compare_entry, entry_eq, is_lt, is_gt, is_eq}
use ant_db.Copy.{text_eq, to_ascii_lowercase}

pub data SearchOperator : Type 0 where
  equal not_equal greater_than less_than greater_than_or_equal less_than_or_equal : SearchOperator

pub data SearchExpression : Type 0 where
  column : Text → SearchExpression
  qualified_column : (table column_name : Text) → SearchExpression
  literal : DataBaseDataEntry → SearchExpression
  comparison :
      (left : SearchExpression)
      → (operator : SearchOperator) → (right : SearchExpression) → SearchExpression
  and : SearchExpression → SearchExpression → SearchExpression
  or : SearchExpression → SearchExpression → SearchExpression
  not : SearchExpression → SearchExpression

-- `RowEvaluationContext`: the values by key.
abbrev pub RowEvaluationContext : Type 0
RowEvaluationContext = List (Text × DataBaseDataEntry)

abbrev pub value_of : Text → RowEvaluationContext → Option DataBaseDataEntry
value_of name [] = none
value_of name ((k, v) ∷ ctx) = if text_eq k name then some v else value_of name ctx

-- `RowEvaluationContext::resolve`; 46 is the dot.
unfoldable pub resolve : RowEvaluationContext → Option Text → Text → Result DataBaseDataEntry
resolve ctx none name =
    ok_or (value_of (to_ascii_lowercase name) ctx)
      (query_error "Column is ambiguous or not found in joined row")
resolve ctx (some table) name =
    ok_or (value_of (to_ascii_lowercase table ++ 46 ∷ to_ascii_lowercase name) ctx)
      (query_error "Column not found in joined row")

abbrev pub flip : Bool → Bool
flip true = false
flip false = true

-- `SearchOperator::compare`
unfoldable pub compare_values :
    Primitives → SearchOperator → DataBaseDataEntry → DataBaseDataEntry → Bool
unfolding entry_eq compare_entry
compare_values p equal left right = entry_eq p left right
compare_values p not_equal left right = flip (entry_eq p left right)
compare_values p greater_than left right = is_gt (compare_entry p left right)
compare_values p less_than left right = is_lt (compare_entry p left right)
compare_values p greater_than_or_equal left right = flip (is_lt (compare_entry p left right))
compare_values p less_than_or_equal left right = flip (is_gt (compare_entry p left right))

unfoldable pub resolve_value : RowEvaluationContext → SearchExpression → Result DataBaseDataEntry
unfolding resolve
resolve_value ctx (literal value) = ok value
resolve_value ctx (column name) = resolve ctx none name
resolve_value ctx (qualified_column table name) = resolve ctx (some table) name
resolve_value ctx (comparison _ _ _) =
    err (query_error "Comparison expressions cannot be resolved to a scalar value directly")
resolve_value ctx _ =
    err (query_error "Logical expressions cannot be resolved to a scalar value directly")

unfoldable pub to_boolean : DataBaseDataEntry → Result Bool
to_boolean (DataBaseDataEntry.boolean flag) = ok flag
to_boolean _ = err (query_error "Expected boolean expression in WHERE clause")

-- `SearchExpression::evaluate`: the right operand counts only where the left one leaves it open.
unfoldable pub evaluate : Primitives → RowEvaluationContext → SearchExpression → Result Bool
unfolding resolve_value to_boolean compare_values
evaluate p ctx (literal value) = to_boolean value
evaluate p ctx (column name) = resolve_value ctx (column name) >>= to_boolean
evaluate p ctx (qualified_column table name) =
    resolve_value ctx (qualified_column table name) >>= to_boolean
evaluate p ctx (comparison left operator right) = do
  left_value ← resolve_value ctx left
  right_value ← resolve_value ctx right
  ok (compare_values p operator left_value right_value)
evaluate p ctx (and left right) =
    let second = evaluate p ctx right in
    do first ← evaluate p ctx left; if first then second else ok false
evaluate p ctx (or left right) =
    let second = evaluate p ctx right in
    do first ← evaluate p ctx left; if first then ok true else second
evaluate p ctx (not inner) = do flag ← evaluate p ctx inner; ok (flip flag)

-- `SearchExpression::equality_lookup`
unfoldable pub equality_lookup : SearchExpression → Option (Text × DataBaseDataEntry)
equality_lookup (comparison (column name) equal (literal value)) = some (name, value)
equality_lookup (comparison (literal value) equal (column name)) = some (name, value)
equality_lookup _ = none
