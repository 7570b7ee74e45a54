-- ===== src/Dml/Coercion.antt =====
-- What src/backend/core/plan/dml.rs writes into a column.
use ant_db.Common.{
  ◌≡◌, refl, Bool, true, false, ◌||◌, Option, none, some, arith, lookup, if◌then◌else◌,
}
use ant_db.Common.Int.{ℤ, pos, ◌+ℤ◌}
use ant_db.Errors.{Text, ok, is_ok}
use ant_db.Row.Entry.{
  DataBaseDataType, DataBaseDataEntry, ColumnId, RowData, data_type, same_type, is_null, fits,
  is_in_range,
}
use ant_db.Dml.{
  add_column, entry_as_i64, clamp_i64, add_numeric_entries, coerce_to_type, convert,
  apply_update_assignment, current_value,
}

-- The number that an integer entry holds, whatever its width.
abbrev pub int_value : DataBaseDataEntry → Option ℤ
int_value (DataBaseDataEntry.integer_u8 v) = some (pos v)
int_value (DataBaseDataEntry.integer_u16 v) = some (pos v)
int_value (DataBaseDataEntry.integer_u32 v) = some (pos v)
int_value (DataBaseDataEntry.integer_u64 v) = some (pos v)
int_value (DataBaseDataEntry.integer_u128 v) = some (pos v)
int_value (DataBaseDataEntry.integer_i8 v) = some v
int_value (DataBaseDataEntry.integer_i16 v) = some v
int_value (DataBaseDataEntry.integer_i32 v) = some v
int_value (DataBaseDataEntry.integer_i64 v) = some v
int_value (DataBaseDataEntry.integer_i128 v) = some v
int_value _ = none

ok-injective : {a b : DataBaseDataEntry} → ok a ≡ ok b → a ≡ b
ok-injective e = cc

-- What a coercion keeps: the column's type or NULL, the range, the number.
abbrev pub IsCoerced : DataBaseDataEntry → DataBaseDataType → DataBaseDataEntry → Type 0
IsCoerced v t w =
    (same_type (data_type w) t || is_null w ≡ true)
    × (is_in_range v ≡ true → is_in_range w ≡ true)
    × (int_value w ≡ int_value v)

convert-IsCoerced :
    (v : DataBaseDataEntry) (t : DataBaseDataType) (w : DataBaseDataEntry)
    → convert v t ≡ ok w
    → IsCoerced v t w
convert-IsCoerced v t w h = ground arith

-- A coercion that succeeds gives an entry of the column's type or NULL, in the range of its type if the
-- source was, and with the same number.
pub coerce_to_type-IsCoerced :
    (v : DataBaseDataEntry) (t : DataBaseDataType) (w : DataBaseDataEntry)
    → coerce_to_type v t ≡ ok w
    → IsCoerced v t w
unfolding coerce_to_type
coerce_to_type-IsCoerced v t w h = go (same_type (data_type v) t || is_null v) refl h
  where
    go :
        (same : Bool)
        → (same_type (data_type v) t || is_null v) ≡ same
        → (if same then ok v else convert v t) ≡ ok w
        → IsCoerced v t w
    go true e g =
        let kept : v ≡ w = ok-injective g in (rw (← kept) e, λ r. rw (← kept) r, rw kept refl)
    go false e g = convert-IsCoerced v t w g

clamp_i64-fixed : (n : ℤ) → fits DataBaseDataType.integer_i64 n ≡ true → clamp_i64 n ≡ n
clamp_i64-fixed n h = ground arith

convert-refuses :
    (s : ℤ) (t : DataBaseDataType)
    → same_type DataBaseDataType.integer_i64 t ≡ false
    → same_type DataBaseDataType.integer_i32 t ≡ false
    → is_ok (coerce_to_type (DataBaseDataEntry.integer_i64 s) t) ≡ false
unfolding coerce_to_type
convert-refuses s t h k = ground arith

coerce_narrow :
    (s : ℤ)
    → fits DataBaseDataType.integer_i32 s ≡ true
    → coerce_to_type (DataBaseDataEntry.integer_i64 s) DataBaseDataType.integer_i32
      ≡ ok (DataBaseDataEntry.integer_i32 s)
unfolding coerce_to_type
coerce_narrow s f = ground arith

coerce_narrow_refused :
    (s : ℤ)
    → fits DataBaseDataType.integer_i32 s ≡ false
    → is_ok (coerce_to_type (DataBaseDataEntry.integer_i64 s) DataBaseDataType.integer_i32) ≡ false
unfolding coerce_to_type
coerce_narrow_refused s f = ground arith

coerce_wide :
    (s : ℤ)
    → coerce_to_type (DataBaseDataEntry.integer_i64 s) DataBaseDataType.integer_i64
      ≡ ok (DataBaseDataEntry.integer_i64 s)
unfolding coerce_to_type
coerce_wide s = refl

added :
    (x d : DataBaseDataEntry) (a b : ℤ)
    → entry_as_i64 x ≡ ok a
    → entry_as_i64 d ≡ ok b
    → add_numeric_entries x d ≡ ok (DataBaseDataEntry.integer_i64 (clamp_i64 (a +ℤ b)))
unfolding add_numeric_entries
added x d a b left right = rw (left, right) refl

-- The number that an entry counts as in a sum: an integer as itself, NULL as 0.
abbrev pub counts_as : DataBaseDataEntry → Option ℤ
counts_as DataBaseDataEntry.null = some (pos 0)
counts_as (DataBaseDataEntry.integer_u8 v) = some (pos v)
counts_as (DataBaseDataEntry.integer_u16 v) = some (pos v)
counts_as (DataBaseDataEntry.integer_u32 v) = some (pos v)
counts_as (DataBaseDataEntry.integer_u64 v) = some (pos v)
counts_as (DataBaseDataEntry.integer_u128 v) = some (pos v)
counts_as (DataBaseDataEntry.integer_i8 v) = some v
counts_as (DataBaseDataEntry.integer_i16 v) = some v
counts_as (DataBaseDataEntry.integer_i32 v) = some v
counts_as (DataBaseDataEntry.integer_i64 v) = some v
counts_as (DataBaseDataEntry.integer_i128 v) = some v
counts_as _ = none

entry_as_i64-counts_as :
    (v : DataBaseDataEntry) (n : ℤ)
    → counts_as v ≡ some n
    → fits DataBaseDataType.integer_i64 n ≡ true
    → entry_as_i64 v ≡ ok n
unfolding entry_as_i64
entry_as_i64-counts_as v n h f = ground arith

-- `SET c = c + d` on integers that 64 bits hold, where NULL counts as 0, gives a 64-bit column the sum,
-- and the nearest 64-bit number where the sum does not fit; a 32-bit column gets that number if it fits
-- 32 bits, and is refused if not; a column of any other type is refused, narrower and unsigned integers
-- included.
pub apply_update_assignment-adds :
    (c : Text) (d : DataBaseDataEntry) (row : RowData) (col : ColumnId) (a b : ℤ)
    → counts_as (current_value (lookup col row)) ≡ some a
    → counts_as d ≡ some b
    → fits DataBaseDataType.integer_i64 a ≡ true
    → fits DataBaseDataType.integer_i64 b ≡ true
    → let sum = clamp_i64 (a +ℤ b) in
      (apply_update_assignment (add_column c d) row col DataBaseDataType.integer_i64
        ≡ ok (DataBaseDataEntry.integer_i64 sum))
      × (fits DataBaseDataType.integer_i64 (a +ℤ b) ≡ true → sum ≡ (a +ℤ b))
      × (fits DataBaseDataType.integer_i32 sum ≡ true
          → apply_update_assignment (add_column c d) row col DataBaseDataType.integer_i32
            ≡ ok (DataBaseDataEntry.integer_i32 sum))
      × (fits DataBaseDataType.integer_i32 sum ≡ false
          → is_ok (apply_update_assignment (add_column c d) row col DataBaseDataType.integer_i32)
            ≡ false)
      × ((t : DataBaseDataType)
          → same_type DataBaseDataType.integer_i64 t ≡ false
          → same_type DataBaseDataType.integer_i32 t ≡ false
          → is_ok (apply_update_assignment (add_column c d) row col t) ≡ false)
unfolding apply_update_assignment
apply_update_assignment-adds c d row col a b left right left_fits right_fits =
    let sum =
      added (current_value (lookup col row)) d a b
        (entry_as_i64-counts_as (current_value (lookup col row)) a left left_fits)
        (entry_as_i64-counts_as d b right right_fits) in
    (
      rw sum (coerce_wide (clamp_i64 (a +ℤ b))),
      clamp_i64-fixed (a +ℤ b),
      λ f. rw sum (coerce_narrow (clamp_i64 (a +ℤ b)) f),
      λ f. rw sum (coerce_narrow_refused (clamp_i64 (a +ℤ b)) f),
      λ t h k. rw sum (convert-refuses (clamp_i64 (a +ℤ b)) t h k),
    )
