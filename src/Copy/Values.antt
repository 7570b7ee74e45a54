-- ===== src/Copy/Values.antt =====
-- Values through the text format of COPY (src/backend/core/copy.rs): what is read back, and what is not.
use ant_db.Common.{
  ℕ, suc, ◌≡◌, refl, ◌≢◌, Bool, true, false, List, [], ◌∷◌, length, arith, map, ap, ==_refl, none,
  some, lookup, insert,
}
use ant_db.Common.Int.{ℤ, pos}
use ant_db.Errors.{Text, ok}
use ant_db.Row.Entry.{
  DataBaseDataType, DataBaseDataEntry, data_type, same_type, RowData, fits, is_in_range,
  compare_list,
}
use ant_db.Copy.Fields.{escape_copy_field, split_copy_fields, join_text}
use ant_db.Copy.RoundTrip.{is_plain, split_copy_fields-encode}
use ant_db.Copy.{
  CopyOptions, default_options, CopyColumnSpec, Numerals, text_eq, rendered, format_copy_value,
  read_typed, parse_copy_value, parse_fields, parse_line, encode_line,
}

-- What COPY relies on: a printed number that is in the range of a type parses back at the type.
pub record HasRoundTrip (n : Numerals) : Type 0 where
  pub parse_int-print :
      (type : DataBaseDataType) (v : ℤ)
      → fits type v ≡ true
      → n.parse_int type (n.print_int v) ≡ some v
  pub parse_f32-print : (v : ℕ) → n.parse_f32 (n.print_f32 v) ≡ some v
  pub parse_f64-print : (v : ℕ) → n.parse_f64 (n.print_f64 v) ≡ some v

-- The entries that are neither NULL nor a byte string.
abbrev pub is_plain_value : DataBaseDataEntry → Bool
is_plain_value DataBaseDataEntry.null = false
is_plain_value (DataBaseDataEntry.bytes _) = false
is_plain_value _ = true

read_boolean-rendered :
    (n : Numerals) (flag : Bool)
    → read_typed n DataBaseDataType.boolean (rendered n (DataBaseDataEntry.boolean flag))
      ≡ ok (DataBaseDataEntry.boolean flag)
unfolding read_typed compare_list
read_boolean-rendered n true = refl
read_boolean-rendered n false = refl

module _ (n : Numerals) (law : HasRoundTrip n) where
  open law use {parse_int-print, parse_f32-print, parse_f64-print}

  read_typed-rendered :
      (v : DataBaseDataEntry)
      → is_plain_value v ≡ true
      → is_in_range v ≡ true
      → read_typed n (data_type v) (rendered n v) ≡ ok v
  unfolding read_typed
  read_typed-rendered DataBaseDataEntry.null plain range = absurd (cc)
  read_typed-rendered (DataBaseDataEntry.bytes v) plain range = absurd (cc)
  read_typed-rendered (DataBaseDataEntry.boolean v) plain range = read_boolean-rendered n v
  read_typed-rendered (DataBaseDataEntry.string v) plain range = refl
  read_typed-rendered (DataBaseDataEntry.integer_u8 v) plain range =
      ground (arith, parse_int-print DataBaseDataType.integer_u8 (pos v) range)
  read_typed-rendered (DataBaseDataEntry.integer_u16 v) plain range =
      ground (arith, parse_int-print DataBaseDataType.integer_u16 (pos v) range)
  read_typed-rendered (DataBaseDataEntry.integer_u32 v) plain range =
      ground (arith, parse_int-print DataBaseDataType.integer_u32 (pos v) range)
  read_typed-rendered (DataBaseDataEntry.integer_u64 v) plain range =
      ground (arith, parse_int-print DataBaseDataType.integer_u64 (pos v) range)
  read_typed-rendered (DataBaseDataEntry.integer_u128 v) plain range =
      ground (arith, parse_int-print DataBaseDataType.integer_u128 (pos v) range)
  read_typed-rendered (DataBaseDataEntry.integer_i8 v) plain range =
      ground (arith, parse_int-print DataBaseDataType.integer_i8 v range)
  read_typed-rendered (DataBaseDataEntry.integer_i16 v) plain range =
      ground (arith, parse_int-print DataBaseDataType.integer_i16 v range)
  read_typed-rendered (DataBaseDataEntry.integer_i32 v) plain range =
      ground (arith, parse_int-print DataBaseDataType.integer_i32 v range)
  read_typed-rendered (DataBaseDataEntry.integer_i64 v) plain range =
      ground (arith, parse_int-print DataBaseDataType.integer_i64 v range)
  read_typed-rendered (DataBaseDataEntry.integer_i128 v) plain range =
      ground (arith, parse_int-print DataBaseDataType.integer_i128 v range)
  read_typed-rendered (DataBaseDataEntry.timestamp v) plain range =
      ground (arith, parse_int-print DataBaseDataType.timestamp v range)
  read_typed-rendered (DataBaseDataEntry.float_f32 v) plain range =
      ground (arith, parse_f32-print v)
  read_typed-rendered (DataBaseDataEntry.float_f64 v) plain range =
      ground (arith, parse_f64-print v)

  -- If numbers print and parse back, the text of a value that is neither NULL nor a byte string, is in
  -- the range of its type, and does not print as the null string, reads back as that value.
  pub parse_copy_value-rendered :
      (null_string : Text) (v : DataBaseDataEntry)
      → is_plain_value v ≡ true
      → is_in_range v ≡ true
      → text_eq (rendered n v) null_string ≡ false
      → parse_copy_value n (rendered n v) (data_type v) null_string ≡ ok v
  unfolding parse_copy_value
  parse_copy_value-rendered null_string v plain range other =
      rw other (read_typed-rendered v plain range)

-- The value of a row in a column, as COPY TO reads it.
abbrev pub entry_at : CopyColumnSpec → RowData → DataBaseDataEntry
entry_at c row = elim (lookup c.column_id row) [ none ↦ DataBaseDataEntry.null | some v ↦ v ]

-- The columns of a line, each with a value of its type that has a text of its own.
abbrev pub IsCopyable : Numerals → Text → RowData → List CopyColumnSpec → Type 0
IsCopyable n null_string row [] = Unit
IsCopyable n null_string row (c ∷ cs) =
    ((is_plain_value (entry_at c row) ≡ true)
      × (is_in_range (entry_at c row) ≡ true)
      × (data_type (entry_at c row) ≡ c.data_type)
      × (text_eq (rendered n (entry_at c row)) null_string ≡ false))
    × IsCopyable n null_string row cs

abbrev pub rendered_line : Numerals → RowData → List CopyColumnSpec → List Text
rendered_line n row [] = []
rendered_line n row (c ∷ cs) = rendered n (entry_at c row) ∷ rendered_line n row cs

-- What reading a line back writes for its columns, over what was read so far.
abbrev pub written : RowData → List CopyColumnSpec → RowData → RowData
written row [] acc = acc
written row (c ∷ cs) acc = written row cs (insert c.column_id (entry_at c row) acc)

format_plain :
    (n : Numerals) (v : DataBaseDataEntry) (null_string : Text) (d : ℕ)
    → is_plain_value v ≡ true
    → format_copy_value n v null_string d ≡ escape_copy_field (rendered n v) d
unfolding format_copy_value
format_plain n DataBaseDataEntry.null null_string d plain = absurd (cc)
format_plain n v null_string d plain = refl

pub encode_line-rendered :
    (n : Numerals) (cs : List CopyColumnSpec) (options : CopyOptions) (row : RowData)
    → IsCopyable n options.null_string row cs
    → encode_line n cs options row
      ≡ map (λ p. escape_copy_field p options.delimiter) (rendered_line n row cs)
unfolding encode_line
encode_line-rendered n [] options row h = refl
encode_line-rendered n (c ∷ cs) options row h = λ i.
    format_plain n (entry_at c row) options.null_string options.delimiter h.0.0 i
    ∷ encode_line-rendered n cs options row h.1 i

parse_fields-rendered :
    (n : Numerals)
    → HasRoundTrip n
    → (cs : List CopyColumnSpec) (options : CopyOptions) (row acc : RowData)
    → IsCopyable n options.null_string row cs
    → parse_fields n (rendered_line n row cs) cs options acc ≡ ok (written row cs acc)
unfolding parse_fields
parse_fields-rendered n law [] options row acc h = refl
parse_fields-rendered n law (c ∷ cs) options row acc h =
    rw
      (
        ← h.0.2,
        parse_copy_value-rendered n law options.null_string (entry_at c row) h.0.0 h.0.1 h.0.3,
      )
      (parse_fields-rendered n law cs options row (insert c.column_id (entry_at c row) acc) h.1)

length-rendered_line :
    (n : Numerals) (row : RowData) (cs : List CopyColumnSpec)
    → length (rendered_line n row cs) ≡ length cs
length-rendered_line n row [] = refl
length-rendered_line n row (c ∷ cs) = ap suc (length-rendered_line n row cs)

-- A line that COPY TO writes is read back by COPY FROM: if numbers print and parse back, under a delimiter that names no escape, if
-- every value is of its column's type and in its range, is neither NULL nor a byte string, and does not print as the
-- null string, the line parses to exactly the values of the row in the columns copied.
pub parse_line-encode_line :
    (n : Numerals) (options : CopyOptions) (row : RowData) (c : CopyColumnSpec)
    (cs : List CopyColumnSpec)
    → HasRoundTrip n
    → is_plain options.delimiter ≡ true
    → IsCopyable n options.null_string row (c ∷ cs)
    → parse_line n
        (join_text (encode_line n (c ∷ cs) options row) options.delimiter)
        (c ∷ cs)
        options
      ≡ ok (written row (c ∷ cs) [])
unfolding parse_line
parse_line-encode_line n options row c cs law plain h =
    rw
      (
        encode_line-rendered n (c ∷ cs) options row h,
        split_copy_fields-encode options.delimiter plain (rendered n (entry_at c row))
            (rendered_line n row cs),
        length-rendered_line n row cs,
        ==_refl (suc (length cs)),
      )
      (parse_fields-rendered n law (c ∷ cs) options row [] h)

-- NULL is written as the bare null string, and a reader takes the backslash of `\\N` for an escape:
-- under the default options no column type but the null type reads NULL back from the text that
-- `format_copy_value` gives for it.
pub copy_null_lost :
    (n : Numerals) (type : DataBaseDataType)
    → same_type type DataBaseDataType.null ≡ false
    → let written_field =
        format_copy_value n DataBaseDataEntry.null default_options.null_string
          default_options.delimiter in
      (field : Text) × (split_copy_fields written_field default_options.delimiter ≡ field ∷ [])
      × (parse_copy_value n field type default_options.null_string ≢ ok DataBaseDataEntry.null)
unfolding format_copy_value split_copy_fields parse_copy_value compare_list read_typed
copy_null_lost n DataBaseDataType.null other = absurd (cc)
copy_null_lost n type other = (b'N' ∷ [], refl, λ e. ground arith)
