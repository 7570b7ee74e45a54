-- ===== src/Row/Entry.antt =====
-- src/backend/core/row.rs, `DataBaseDataEntry`, and `DataBaseDataType` of
-- src/backend/core/column.rs. A float is held as its bit pattern (`to_bits`).
pub mod Order
use Prim.Native.String.{String}
use Prim.Native.Nat.{compare, Ordering}
use ant_db.Common.{
  ℕ, ltb, ◌-◌, ◌+◌, ◌^◌, Bool, true, false, NatMap, List, [], ◌∷◌, ◌==◌, if◌then◌else◌, ◌≡◌, refl,
  ◌↔◌, arith,
}
use ant_db.Common.Int.{ℤ, pos, negsuc, compare_ℤ}
use ant_db.Errors.{Text}

pub data DataBaseDataType : Type 0 where
  null : DataBaseDataType
  integer_u8 integer_u16 integer_u32 integer_u64 integer_u128 : DataBaseDataType
  integer_i8 integer_i16 integer_i32 integer_i64 integer_i128 : DataBaseDataType
  float_f32 float_f64 string boolean bytes timestamp : DataBaseDataType

pub data DataBaseDataEntry : Type 0 where
  null : DataBaseDataEntry
  integer_u8 integer_u16 integer_u32 integer_u64 integer_u128 : ℕ → DataBaseDataEntry
  integer_i8 integer_i16 integer_i32 integer_i64 integer_i128 : ℤ → DataBaseDataEntry
  float_f32 float_f64 : ℕ → DataBaseDataEntry
  string : Text → DataBaseDataEntry
  boolean : Bool → DataBaseDataEntry
  bytes : List ℕ → DataBaseDataEntry
  timestamp : ℤ → DataBaseDataEntry

abbrev pub ColumnId : Type 0
ColumnId = ℕ

abbrev pub RowId : Type 0
RowId = ℕ

abbrev pub RowData : Type 0
RowData = NatMap DataBaseDataEntry

abbrev pub data_type : DataBaseDataEntry → DataBaseDataType
data_type DataBaseDataEntry.null = DataBaseDataType.null
data_type (DataBaseDataEntry.integer_u8 _) = DataBaseDataType.integer_u8
data_type (DataBaseDataEntry.integer_u16 _) = DataBaseDataType.integer_u16
data_type (DataBaseDataEntry.integer_u32 _) = DataBaseDataType.integer_u32
data_type (DataBaseDataEntry.integer_u64 _) = DataBaseDataType.integer_u64
data_type (DataBaseDataEntry.integer_u128 _) = DataBaseDataType.integer_u128
data_type (DataBaseDataEntry.integer_i8 _) = DataBaseDataType.integer_i8
data_type (DataBaseDataEntry.integer_i16 _) = DataBaseDataType.integer_i16
data_type (DataBaseDataEntry.integer_i32 _) = DataBaseDataType.integer_i32
data_type (DataBaseDataEntry.integer_i64 _) = DataBaseDataType.integer_i64
data_type (DataBaseDataEntry.integer_i128 _) = DataBaseDataType.integer_i128
data_type (DataBaseDataEntry.float_f32 _) = DataBaseDataType.float_f32
data_type (DataBaseDataEntry.float_f64 _) = DataBaseDataType.float_f64
data_type (DataBaseDataEntry.string _) = DataBaseDataType.string
data_type (DataBaseDataEntry.boolean _) = DataBaseDataType.boolean
data_type (DataBaseDataEntry.bytes _) = DataBaseDataType.bytes
data_type (DataBaseDataEntry.timestamp _) = DataBaseDataType.timestamp

-- `DataBaseDataType::name`
abbrev pub type_name : DataBaseDataType → String
type_name DataBaseDataType.null = "NULL"
type_name DataBaseDataType.integer_u8 = "INTEGER U8"
type_name DataBaseDataType.integer_u16 = "INTEGER U16"
type_name DataBaseDataType.integer_u32 = "INTEGER U32"
type_name DataBaseDataType.integer_u64 = "INTEGER U64"
type_name DataBaseDataType.integer_u128 = "INTEGER U128"
type_name DataBaseDataType.integer_i8 = "INTEGER I8"
type_name DataBaseDataType.integer_i16 = "INTEGER I16"
type_name DataBaseDataType.integer_i32 = "INTEGER I32"
type_name DataBaseDataType.integer_i64 = "INTEGER I64"
type_name DataBaseDataType.integer_i128 = "INTEGER I128"
type_name DataBaseDataType.float_f32 = "FLOAT F32"
type_name DataBaseDataType.float_f64 = "FLOAT F64"
type_name DataBaseDataType.string = "TEXT"
type_name DataBaseDataType.boolean = "BOOLEAN"
type_name DataBaseDataType.bytes = "BYTES"
type_name DataBaseDataType.timestamp = "TIMESTAMP"

-- The place of a variant in the declaration, by which derived comparisons go first.
abbrev pub type_rank : DataBaseDataType → ℕ
type_rank DataBaseDataType.null = 0
type_rank DataBaseDataType.integer_u8 = 1
type_rank DataBaseDataType.integer_u16 = 2
type_rank DataBaseDataType.integer_u32 = 3
type_rank DataBaseDataType.integer_u64 = 4
type_rank DataBaseDataType.integer_u128 = 5
type_rank DataBaseDataType.integer_i8 = 6
type_rank DataBaseDataType.integer_i16 = 7
type_rank DataBaseDataType.integer_i32 = 8
type_rank DataBaseDataType.integer_i64 = 9
type_rank DataBaseDataType.integer_i128 = 10
type_rank DataBaseDataType.float_f32 = 11
type_rank DataBaseDataType.float_f64 = 12
type_rank DataBaseDataType.string = 13
type_rank DataBaseDataType.boolean = 14
type_rank DataBaseDataType.bytes = 15
type_rank DataBaseDataType.timestamp = 16

abbrev pub same_type : DataBaseDataType → DataBaseDataType → Bool
same_type a b = type_rank a == type_rank b

abbrev pub is_null : DataBaseDataEntry → Bool
is_null DataBaseDataEntry.null = true
is_null _ = false

-- What the entries use of the standard library and of `ordered_float`: `DefaultHasher` at its four
-- types, and the order of `NotNan`, on bit patterns.
pub record Primitives : Type 0 where
  pub hash_u128 : ℕ → ℕ
  pub hash_i128 : ℤ → ℕ
  pub hash_text : Text → ℕ
  pub hash_bytes : List ℕ → ℕ
  pub compare_f32 : ℕ → ℕ → Ordering
  pub compare_f64 : ℕ → ℕ → Ordering

-- `value as u64` of a signed integer that fits 64 bits.
abbrev pub as_u64 : ℤ → ℕ
as_u64 (pos n) = n
as_u64 (negsuc n) = 2 ^ 64 - (n + 1)

-- `flag as u64`
abbrev pub bool_code : Bool → ℕ
bool_code true = 1
bool_code false = 0

-- The index key of an entry.
unfoldable pub key : Primitives → DataBaseDataEntry → ℕ
key p DataBaseDataEntry.null = 0
key p (DataBaseDataEntry.integer_u8 v) = v
key p (DataBaseDataEntry.integer_u16 v) = v
key p (DataBaseDataEntry.integer_u32 v) = v
key p (DataBaseDataEntry.integer_u64 v) = v
key p (DataBaseDataEntry.integer_u128 v) = p.hash_u128 v
key p (DataBaseDataEntry.integer_i8 v) = as_u64 v
key p (DataBaseDataEntry.integer_i16 v) = as_u64 v
key p (DataBaseDataEntry.integer_i32 v) = as_u64 v
key p (DataBaseDataEntry.integer_i64 v) = as_u64 v
key p (DataBaseDataEntry.integer_i128 v) = p.hash_i128 v
key p (DataBaseDataEntry.float_f32 v) = v
key p (DataBaseDataEntry.float_f64 v) = v
key p (DataBaseDataEntry.string v) = p.hash_text v
key p (DataBaseDataEntry.boolean v) = bool_code v
key p (DataBaseDataEntry.bytes v) = p.hash_bytes v
key p (DataBaseDataEntry.timestamp v) = as_u64 v

abbrev pub then_compare : Ordering → Ordering → Ordering
then_compare Ordering.eq o = o
then_compare Ordering.lt _ = Ordering.lt
then_compare Ordering.gt _ = Ordering.gt

-- The lexicographic order of texts and of byte vectors.
unfoldable pub compare_list : List ℕ → List ℕ → Ordering
compare_list [] [] = Ordering.eq
compare_list [] (_ ∷ _) = Ordering.lt
compare_list (_ ∷ _) [] = Ordering.gt
compare_list (a ∷ as') (b ∷ bs) = then_compare (compare a b) (compare_list as' bs)

-- The derived order on two entries: by variant, and within a variant by value.
unfoldable pub compare_entry : Primitives → DataBaseDataEntry → DataBaseDataEntry → Ordering
compare_entry p (DataBaseDataEntry.integer_u8 a) (DataBaseDataEntry.integer_u8 b) = compare a b
compare_entry p (DataBaseDataEntry.integer_u16 a) (DataBaseDataEntry.integer_u16 b) = compare a b
compare_entry p (DataBaseDataEntry.integer_u32 a) (DataBaseDataEntry.integer_u32 b) = compare a b
compare_entry p (DataBaseDataEntry.integer_u64 a) (DataBaseDataEntry.integer_u64 b) = compare a b
compare_entry p (DataBaseDataEntry.integer_u128 a) (DataBaseDataEntry.integer_u128 b) = compare a b
compare_entry p (DataBaseDataEntry.integer_i8 a) (DataBaseDataEntry.integer_i8 b) = compare_ℤ a b
compare_entry p (DataBaseDataEntry.integer_i16 a) (DataBaseDataEntry.integer_i16 b) = compare_ℤ a b
compare_entry p (DataBaseDataEntry.integer_i32 a) (DataBaseDataEntry.integer_i32 b) = compare_ℤ a b
compare_entry p (DataBaseDataEntry.integer_i64 a) (DataBaseDataEntry.integer_i64 b) = compare_ℤ a b
compare_entry p (DataBaseDataEntry.integer_i128 a) (DataBaseDataEntry.integer_i128 b) =
    compare_ℤ a b
compare_entry p (DataBaseDataEntry.float_f32 a) (DataBaseDataEntry.float_f32 b) = p.compare_f32 a b
compare_entry p (DataBaseDataEntry.float_f64 a) (DataBaseDataEntry.float_f64 b) = p.compare_f64 a b
compare_entry p (DataBaseDataEntry.string a) (DataBaseDataEntry.string b) = compare_list a b
compare_entry p (DataBaseDataEntry.boolean a) (DataBaseDataEntry.boolean b) =
    compare (bool_code a) (bool_code b)
compare_entry p (DataBaseDataEntry.bytes a) (DataBaseDataEntry.bytes b) = compare_list a b
compare_entry p (DataBaseDataEntry.timestamp a) (DataBaseDataEntry.timestamp b) = compare_ℤ a b
compare_entry p a b = compare (type_rank (data_type a)) (type_rank (data_type b))

abbrev pub is_eq : Ordering → Bool
is_eq Ordering.eq = true
is_eq _ = false

abbrev pub is_lt : Ordering → Bool
is_lt Ordering.lt = true
is_lt _ = false

abbrev pub is_gt : Ordering → Bool
is_gt Ordering.gt = true
is_gt _ = false

-- `==` on entries. The derived equality and the derived order agree.
unfoldable pub entry_eq : Primitives → DataBaseDataEntry → DataBaseDataEntry → Bool
unfolding compare_entry
entry_eq p a b = is_eq (compare_entry p a b)

abbrev pub fits_unsigned : ℕ → ℤ → Bool
fits_unsigned width (pos v) = ltb v (2 ^ width)
fits_unsigned width (negsuc v) = false

abbrev pub fits_signed : ℕ → ℤ → Bool
fits_signed width (pos v) = ltb v (2 ^ (width - 1))
fits_signed width (negsuc v) = ltb v (2 ^ (width - 1))

-- The range of an integer type.
abbrev pub fits : DataBaseDataType → ℤ → Bool
fits DataBaseDataType.integer_u8 v = fits_unsigned 8 v
fits DataBaseDataType.integer_u16 v = fits_unsigned 16 v
fits DataBaseDataType.integer_u32 v = fits_unsigned 32 v
fits DataBaseDataType.integer_u64 v = fits_unsigned 64 v
fits DataBaseDataType.integer_u128 v = fits_unsigned 128 v
fits DataBaseDataType.integer_i8 v = fits_signed 8 v
fits DataBaseDataType.integer_i16 v = fits_signed 16 v
fits DataBaseDataType.integer_i32 v = fits_signed 32 v
fits DataBaseDataType.integer_i64 v = fits_signed 64 v
fits DataBaseDataType.integer_i128 v = fits_signed 128 v
fits DataBaseDataType.timestamp v = fits_signed 64 v
fits _ v = true

-- An entry holds a value of its Rust type.
abbrev pub is_in_range : DataBaseDataEntry → Bool
is_in_range (DataBaseDataEntry.integer_u8 v) = fits DataBaseDataType.integer_u8 (pos v)
is_in_range (DataBaseDataEntry.integer_u16 v) = fits DataBaseDataType.integer_u16 (pos v)
is_in_range (DataBaseDataEntry.integer_u32 v) = fits DataBaseDataType.integer_u32 (pos v)
is_in_range (DataBaseDataEntry.integer_u64 v) = fits DataBaseDataType.integer_u64 (pos v)
is_in_range (DataBaseDataEntry.integer_u128 v) = fits DataBaseDataType.integer_u128 (pos v)
is_in_range (DataBaseDataEntry.integer_i8 v) = fits DataBaseDataType.integer_i8 v
is_in_range (DataBaseDataEntry.integer_i16 v) = fits DataBaseDataType.integer_i16 v
is_in_range (DataBaseDataEntry.integer_i32 v) = fits DataBaseDataType.integer_i32 v
is_in_range (DataBaseDataEntry.integer_i64 v) = fits DataBaseDataType.integer_i64 v
is_in_range (DataBaseDataEntry.integer_i128 v) = fits DataBaseDataType.integer_i128 v
is_in_range (DataBaseDataEntry.timestamp v) = fits DataBaseDataType.timestamp v
is_in_range _ = true
