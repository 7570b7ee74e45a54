-- ===== src/Dml.antt =====
-- src/backend/core/plan/dml.rs: the values of INSERT and UPDATE, from the parsed literals on.
pub mod Coercion
use ant_db.Common.{
  ℕ, ◌+◌, ◌-◌, ◌^◌, Bool, true, false, ◌||◌, Option, none, some, List, [], ◌∷◌, ltb, if◌then◌else◌,
  lookup,
}
use ant_db.Common.Int.{ℤ, pos, negsuc, ◌+ℤ◌}
use ant_db.Errors.{Text, DataBaseErrors, query_error, Result, ok, err, ◌>>=◌}
use ant_db.Row.Entry.{
  DataBaseDataType, DataBaseDataEntry, ColumnId, RowData, data_type, same_type, is_null, fits,
}

pub data UpdateAssignment : Type 0 where
  set : DataBaseDataEntry → UpdateAssignment
  add_column : (column : Text) → (delta : DataBaseDataEntry) → UpdateAssignment

-- `i64::try_from` and `i32::try_from`, and what is made of the result.
abbrev pub try_from : DataBaseDataType → (ℤ → DataBaseDataEntry) → ℤ → Result DataBaseDataEntry
try_from t make v =
    if fits t v then ok (make v) else err (query_error "Integer value out of range for column")

abbrev pub try_i64 : ℤ → Result ℤ
try_i64 v =
    if fits DataBaseDataType.integer_i64 v
    then ok v
    else err (query_error "Integer value is out of range for arithmetic")

unfoldable pub entry_as_i64 : DataBaseDataEntry → Result ℤ
entry_as_i64 DataBaseDataEntry.null = ok (pos 0)
entry_as_i64 (DataBaseDataEntry.integer_i8 v) = ok v
entry_as_i64 (DataBaseDataEntry.integer_i16 v) = ok v
entry_as_i64 (DataBaseDataEntry.integer_i32 v) = ok v
entry_as_i64 (DataBaseDataEntry.integer_i64 v) = ok v
entry_as_i64 (DataBaseDataEntry.integer_i128 v) = try_i64 v
entry_as_i64 (DataBaseDataEntry.integer_u8 v) = ok (pos v)
entry_as_i64 (DataBaseDataEntry.integer_u16 v) = ok (pos v)
entry_as_i64 (DataBaseDataEntry.integer_u32 v) = ok (pos v)
entry_as_i64 (DataBaseDataEntry.integer_u64 v) = try_i64 (pos v)
entry_as_i64 (DataBaseDataEntry.integer_u128 v) = try_i64 (pos v)
entry_as_i64 _ = err (query_error "Only integer values support additive UPDATE expressions")

-- The nearest `i64` of an integer.
abbrev pub clamp_i64 : ℤ → ℤ
clamp_i64 (pos v) = if ltb v (2 ^ 63) then pos v else pos (2 ^ 63 - 1)
clamp_i64 (negsuc v) = if ltb v (2 ^ 63) then negsuc v else negsuc (2 ^ 63 - 1)

-- `i64::saturating_add`
abbrev pub saturating_add_i64 : ℤ → ℤ → ℤ
saturating_add_i64 a b = clamp_i64 (a +ℤ b)

unfoldable pub add_numeric_entries :
    DataBaseDataEntry → DataBaseDataEntry → Result DataBaseDataEntry
unfolding entry_as_i64
add_numeric_entries left right = do
  a ← entry_as_i64 left
  b ← entry_as_i64 right
  ok (DataBaseDataEntry.integer_i64 (saturating_add_i64 a b))

-- The `match (&value, expected)` of `coerce_to_type`.
abbrev pub convert : DataBaseDataEntry → DataBaseDataType → Result DataBaseDataEntry
convert (DataBaseDataEntry.integer_i64 v) DataBaseDataType.integer_i32 =
    try_from DataBaseDataType.integer_i32 DataBaseDataEntry.integer_i32 v
convert (DataBaseDataEntry.integer_i64 v) DataBaseDataType.integer_i64 =
    ok (DataBaseDataEntry.integer_i64 v)
convert (DataBaseDataEntry.integer_i32 v) DataBaseDataType.integer_i64 =
    ok (DataBaseDataEntry.integer_i64 v)
convert (DataBaseDataEntry.integer_u64 v) DataBaseDataType.integer_i32 =
    try_from DataBaseDataType.integer_i32 DataBaseDataEntry.integer_i32 (pos v)
convert (DataBaseDataEntry.integer_u64 v) DataBaseDataType.integer_i64 =
    try_from DataBaseDataType.integer_i64 DataBaseDataEntry.integer_i64 (pos v)
convert (DataBaseDataEntry.timestamp v) DataBaseDataType.timestamp =
    ok (DataBaseDataEntry.timestamp v)
convert _ _ = err (query_error "Cannot coerce value type")

unfoldable pub coerce_to_type : DataBaseDataEntry → DataBaseDataType → Result DataBaseDataEntry
coerce_to_type value expected =
    if same_type (data_type value) expected || is_null value
    then ok value
    else convert value expected

-- `row_values.get(&column_id).cloned().unwrap_or(Null)`
abbrev pub current_value : Option DataBaseDataEntry → DataBaseDataEntry
current_value none = DataBaseDataEntry.null
current_value (some v) = v

unfoldable pub apply_update_assignment :
    UpdateAssignment → RowData → ColumnId → DataBaseDataType → Result DataBaseDataEntry
apply_update_assignment (set value) row_values column_id expected = coerce_to_type value expected
apply_update_assignment (add_column column delta) row_values column_id expected = do
  value ← add_numeric_entries (current_value (lookup column_id row_values)) delta
  coerce_to_type value expected
