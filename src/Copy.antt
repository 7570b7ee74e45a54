-- ===== src/Copy.antt =====
-- src/backend/core/copy.rs: the text format of COPY. Texts are lists of code points.
pub mod Fields
pub mod RoundTrip
pub mod Values
pub mod Payload
use ant_db.Common.{
  ℕ, zero, suc, ◌+◌, ◌-◌, ◌*◌, ◌/◌, ◌%◌, ◌≡◌, refl, Bool, true, false, not, ◌&&◌, ◌||◌, Option,
  none, some, List, [], ◌∷◌, ◌++◌, leb, ltb, ◌==◌, if◌then◌else◌, lookup, insert, NatMap, length,
  map,
}
use Prim.Native.Nat.{Ordering}
use ant_db.Common.Int.{ℤ, pos}
use ant_db.Errors.{
  Text, DataBaseErrors, query_error, Result, ok, err, ◌>>=◌, ◌>>◌, fail_if, ok_or, collect,
}
use ant_db.Row.Entry.{DataBaseDataType, DataBaseDataEntry, RowData, ColumnId, is_eq, compare_list}
use ant_db.Copy.Fields.{split_copy_fields, escape_copy_field, join_text}

pub record CopyOptions : Type 0 where
  pub delimiter : ℕ
  pub null_string : Text
  pub header : Bool
  pub binary : Bool

-- `CopyOptions::default`
abbrev pub default_options : CopyOptions
default_options = record {
  delimiter = 9;
  null_string = b'\\' ∷ b'N' ∷ [];
  header = false;
  binary = false;
}

pub record CopyColumnSpec : Type 0 where
  pub name : Text
  pub column_id : ColumnId
  pub data_type : DataBaseDataType

-- The number texts of the standard library: `to_string`, and `parse` into the range of a type. The
-- clock is what a timestamp that does not parse falls back to.
pub record Numerals : Type 0 where
  pub print_int : ℤ → Text
  pub parse_int : DataBaseDataType → Text → Option ℤ
  pub print_f32 : ℕ → Text
  pub parse_f32 : Text → Option ℕ
  pub print_f64 : ℕ → Text
  pub parse_f64 : Text → Option ℕ
  pub clock_micros : ℤ

abbrev pub text_eq : Text → Text → Bool
text_eq a b = is_eq (compare_list a b)

-- `to_ascii_lowercase`
abbrev pub lower : ℕ → ℕ
lower c = if leb b'A' c && leb c b'Z' then c + 32 else c

abbrev pub to_ascii_lowercase : Text → Text
to_ascii_lowercase = map lower

abbrev pub hex_digit : ℕ → ℕ
hex_digit d = if ltb d 10 then b'0' + d else b'a' + (d - 10)

unfoldable pub encode_hex : List ℕ → Text
encode_hex [] = []
encode_hex (b ∷ bs) = hex_digit (b / 16) ∷ hex_digit (b % 16) ∷ encode_hex bs

abbrev pub hex_value : ℕ → Option ℕ
hex_value c =
    if leb b'0' c && leb c b'9'
    then some (c - b'0')
    else if leb b'a' c && leb c b'f'
    then some (c - b'a' + 10)
    else if leb b'A' c && leb c b'F'
    then some (c - b'A' + 10)
    else none

-- `u8::from_str_radix` of two characters, which may begin with a plus sign.
abbrev pub hex_byte : ℕ → ℕ → Option ℕ
hex_byte a b = elim (hex_value b) [
  | none ↦ none
  | some low ↦
      if a == b'+'
      then some low
      else elim (hex_value a) [ none ↦ none | some high ↦ some (high * 16 + low) ]
]

-- On ASCII text.
unfoldable pub decode_hex : Text → Option (List ℕ)
decode_hex [] = some []
decode_hex (a ∷ []) = none
decode_hex (a ∷ b ∷ s) = elim (hex_byte a b) [
  | none ↦ none
  | some byte ↦ elim (decode_hex s) [ none ↦ none | some bytes ↦ some (byte ∷ bytes) ]
]

module _ (n : Numerals) where
  -- The text of a value before escaping.
  abbrev pub rendered : DataBaseDataEntry → Text
  rendered DataBaseDataEntry.null = []
  rendered (DataBaseDataEntry.boolean flag) = if flag then b't' ∷ [] else b'f' ∷ []
  rendered (DataBaseDataEntry.integer_u8 v) = n.print_int (pos v)
  rendered (DataBaseDataEntry.integer_u16 v) = n.print_int (pos v)
  rendered (DataBaseDataEntry.integer_u32 v) = n.print_int (pos v)
  rendered (DataBaseDataEntry.integer_u64 v) = n.print_int (pos v)
  rendered (DataBaseDataEntry.integer_u128 v) = n.print_int (pos v)
  rendered (DataBaseDataEntry.integer_i8 v) = n.print_int v
  rendered (DataBaseDataEntry.integer_i16 v) = n.print_int v
  rendered (DataBaseDataEntry.integer_i32 v) = n.print_int v
  rendered (DataBaseDataEntry.integer_i64 v) = n.print_int v
  rendered (DataBaseDataEntry.integer_i128 v) = n.print_int v
  rendered (DataBaseDataEntry.float_f32 v) = n.print_f32 v
  rendered (DataBaseDataEntry.float_f64 v) = n.print_f64 v
  rendered (DataBaseDataEntry.string v) = v
  rendered (DataBaseDataEntry.bytes v) = b'\\' ∷ b'\\' ∷ b'x' ∷ encode_hex v
  rendered (DataBaseDataEntry.timestamp v) = n.print_int v

  unfoldable pub format_copy_value : DataBaseDataEntry → Text → ℕ → Text
  format_copy_value DataBaseDataEntry.null null_string delimiter = null_string
  format_copy_value v null_string delimiter = escape_copy_field (rendered v) delimiter

  abbrev pub read_unsigned :
      DataBaseDataType → (ℕ → DataBaseDataEntry) → Text → Result DataBaseDataEntry
  read_unsigned type make text = elim (n.parse_int type text) [
    | some (pos v) ↦ ok (make v)
    | _ ↦ err (query_error "Invalid integer")
  ]

  abbrev pub read_signed :
      DataBaseDataType → (ℤ → DataBaseDataEntry) → Text → Result DataBaseDataEntry
  read_signed type make text = elim (n.parse_int type text) [
    | some v ↦ ok (make v)
    | none ↦ err (query_error "Invalid integer")
  ]

  abbrev pub read_boolean : Text → Result DataBaseDataEntry
  read_boolean text =
      let t = to_ascii_lowercase text in
      if text_eq t (b't' ∷ [])
        || (text_eq t (b't' ∷ b'r' ∷ b'u' ∷ b'e' ∷ [])
            || (text_eq t (b'y' ∷ b'e' ∷ b's' ∷ []) || text_eq t (b'1' ∷ [])))
      then ok (DataBaseDataEntry.boolean true)
      else if text_eq t (b'f' ∷ [])
          || (text_eq t (b'f' ∷ b'a' ∷ b'l' ∷ b's' ∷ b'e' ∷ [])
              || (text_eq t (b'n' ∷ b'o' ∷ []) || text_eq t (b'0' ∷ [])))
      then ok (DataBaseDataEntry.boolean false)
      else err (query_error "Invalid boolean value in COPY data")

  -- A text with the prefix `\x` is hexadecimal, any other stands for its own bytes.
  abbrev pub read_bytes : Text → Result DataBaseDataEntry
  read_bytes (a ∷ b ∷ hex) =
      if (a == b'\\') && (b == b'x')
      then elim (decode_hex hex) [
        | none ↦ err (query_error "Invalid bytea value")
        | some bytes ↦ ok (DataBaseDataEntry.bytes bytes)
      ]
      else ok (DataBaseDataEntry.bytes (a ∷ b ∷ hex))
  read_bytes text = ok (DataBaseDataEntry.bytes text)

  -- The `match data_type` of `parse_copy_value`.
  unfoldable pub read_typed : DataBaseDataType → Text → Result DataBaseDataEntry
  unfolding decode_hex
  read_typed DataBaseDataType.boolean text = read_boolean text
  read_typed DataBaseDataType.integer_u8 text =
      read_unsigned DataBaseDataType.integer_u8 DataBaseDataEntry.integer_u8 text
  read_typed DataBaseDataType.integer_u16 text =
      read_unsigned DataBaseDataType.integer_u16 DataBaseDataEntry.integer_u16 text
  read_typed DataBaseDataType.integer_u32 text =
      read_unsigned DataBaseDataType.integer_u32 DataBaseDataEntry.integer_u32 text
  read_typed DataBaseDataType.integer_u64 text =
      read_unsigned DataBaseDataType.integer_u64 DataBaseDataEntry.integer_u64 text
  read_typed DataBaseDataType.integer_u128 text =
      read_unsigned DataBaseDataType.integer_u128 DataBaseDataEntry.integer_u128 text
  read_typed DataBaseDataType.integer_i8 text =
      read_signed DataBaseDataType.integer_i8 DataBaseDataEntry.integer_i8 text
  read_typed DataBaseDataType.integer_i16 text =
      read_signed DataBaseDataType.integer_i16 DataBaseDataEntry.integer_i16 text
  read_typed DataBaseDataType.integer_i32 text =
      read_signed DataBaseDataType.integer_i32 DataBaseDataEntry.integer_i32 text
  read_typed DataBaseDataType.integer_i64 text =
      read_signed DataBaseDataType.integer_i64 DataBaseDataEntry.integer_i64 text
  read_typed DataBaseDataType.integer_i128 text =
      read_signed DataBaseDataType.integer_i128 DataBaseDataEntry.integer_i128 text
  read_typed DataBaseDataType.float_f32 text = elim (n.parse_f32 text) [
    | some v ↦ ok (DataBaseDataEntry.float_f32 v)
    | none ↦ err (query_error "Invalid float")
  ]
  read_typed DataBaseDataType.float_f64 text = elim (n.parse_f64 text) [
    | some v ↦ ok (DataBaseDataEntry.float_f64 v)
    | none ↦ err (query_error "Invalid float")
  ]
  read_typed DataBaseDataType.string text = ok (DataBaseDataEntry.string text)
  read_typed DataBaseDataType.bytes text = read_bytes text
  read_typed DataBaseDataType.null text = ok DataBaseDataEntry.null
  read_typed DataBaseDataType.timestamp text = elim (n.parse_int DataBaseDataType.timestamp text) [
    | some v ↦ ok (DataBaseDataEntry.timestamp v)
    | none ↦ ok (DataBaseDataEntry.timestamp n.clock_micros)
  ]

  unfoldable pub parse_copy_value : Text → DataBaseDataType → Text → Result DataBaseDataEntry
  parse_copy_value text type null_string =
      if text_eq text null_string then ok DataBaseDataEntry.null else read_typed type text

  -- One data line of `encode_copy_payload`.
  unfoldable pub encode_line : List CopyColumnSpec → CopyOptions → RowData → List Text
  unfolding format_copy_value
  encode_line [] options row = []
  encode_line (c ∷ cs) options row =
      let value : DataBaseDataEntry = elim (lookup c.column_id row) [
        | none ↦ DataBaseDataEntry.null
        | some v ↦ v
      ] in
      format_copy_value value options.null_string options.delimiter ∷ encode_line cs options row

  -- The loop over the fields and the columns of one line of `parse_copy_rows`.
  unfoldable pub parse_fields :
      List Text → List CopyColumnSpec → CopyOptions → RowData → Result RowData
  unfolding parse_copy_value
  parse_fields [] cs options row = ok row
  parse_fields (f ∷ fs) [] options row = ok row
  parse_fields (f ∷ fs) (c ∷ cs) options row = do
    value ← parse_copy_value f c.data_type options.null_string
    parse_fields fs cs options (insert c.column_id value row)

  -- One line of `parse_copy_rows` that is neither empty nor the header.
  unfoldable pub parse_line : Text → List CopyColumnSpec → CopyOptions → Result RowData
  unfolding parse_fields
  parse_line line cs options =
      let fields = split_copy_fields line options.delimiter in
      do
        fail_if (not (length fields == length cs))
            (query_error "COPY row has a wrong number of fields")
        parse_fields fields cs options []
