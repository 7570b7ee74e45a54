-- ===== src/Tests/Texts.antt =====
-- COPY, the values of UPDATE, and filters.
use ant_db.Common.{
  arith, ℕ, zero, suc, ◌≡◌, refl, true, false, Option, none, some, [], ◌∷◌, if◌then◌else◌, ◌==◌,
  length, ap,
}
use ant_db.Common.Int.{ℤ, pos, negsuc, ◌+ℤ◌}
use ant_db.Errors.{◌>>=◌, Text, ok, is_ok}
use ant_db.Row.Entry.{DataBaseDataType, DataBaseDataEntry, RowData, fits, compare_list, same_type}
use ant_db.Copy.{CopyOptions, default_options, CopyColumnSpec, Numerals, encode_line, parse_line}
use ant_db.Copy.Fields.{join_text}
use ant_db.Copy.Payload.{Utf8, encode_copy_payload, parse_copy_rows}
use ant_db.Copy.Payload.Reading.{IsUtf8, parse_copy_rows-encode_copy_payload}
use ant_db.Copy.Values.{HasRoundTrip}
use ant_db.Dml.{add_column, clamp_i64, apply_update_assignment}
use ant_db.Dml.Coercion.{apply_update_assignment-adds}
use ant_db.Search.{RowEvaluationContext}
use ant_db.ShowTables.{folded, sql_like_matches}
use ant_db.ShowTables.Patterns.{pattern_of, like_of, sql_like_matches-like_of}

abbrev marks : ℕ → Text
marks zero = []
marks (suc n) = b'1' ∷ marks n

length-marks : (n : ℕ) → length (marks n) ≡ n
length-marks zero = refl
length-marks (suc n) = ap suc (length-marks n)

-- Numbers as marks: 3 is 111, and -3 is -11.
abbrev print_marks : ℤ → Text
print_marks (pos n) = b'+' ∷ marks n
print_marks (negsuc n) = b'-' ∷ marks n

abbrev parse_marks : Text → Option ℤ
parse_marks [] = none
parse_marks (c ∷ s) =
    if c == b'+'
    then some (pos (length s))
    else if c == b'-'
    then some (negsuc (length s))
    else none

abbrev in_range : DataBaseDataType → Option ℤ → Option ℤ
in_range type none = none
in_range type (some v) = if fits type v then some v else none

abbrev tally : Numerals
tally = record {
  print_int = print_marks;
  parse_int = λ type s. in_range type (parse_marks s);
  print_f32 = marks;
  parse_f32 = λ s. some (length s);
  print_f64 = marks;
  parse_f64 = λ s. some (length s);
  clock_micros = pos 0;
}

parse_marks-print : (v : ℤ) → parse_marks (print_marks v) ≡ some v
parse_marks-print (pos n) = ap (λ k. some (pos k)) (length-marks n)
parse_marks-print (negsuc n) = ap (λ k. some (negsuc k)) (length-marks n)

tally-HasRoundTrip : HasRoundTrip tally
tally-HasRoundTrip = record {
  parse_int-print = λ type v range. rw (parse_marks-print v, range) refl;
  parse_f32-print = λ v. ap some (length-marks v);
  parse_f64-print = λ v. ap some (length-marks v);
}

abbrev three : DataBaseDataEntry
three = DataBaseDataEntry.integer_i32 (pos 3)

-- A column 0 of numbers and a column 1 of texts, and a row whose text holds a tab.
abbrev number_spec : CopyColumnSpec
number_spec = record { name = b'n' ∷ []; column_id = 0; data_type = DataBaseDataType.integer_i32 }

abbrev text_spec : CopyColumnSpec
text_spec = record { name = b't' ∷ []; column_id = 1; data_type = DataBaseDataType.string }

abbrev tabbed : RowData
tabbed = (0, three) ∷ (1, DataBaseDataEntry.string (b'a' ∷ 9 ∷ b'\\' ∷ [])) ∷ []

-- Code points below 256 for bytes
abbrev codes : Utf8
codes = record { as_bytes = λ s. s; from_utf8 = λ s. some s }

codes-IsUtf8 : IsUtf8 codes
codes-IsUtf8 = record {
  from_utf8-as_bytes = λ s. refl;
  as_bytes-append = λ a b. refl;
  as_bytes-newline = refl;
  as_bytes-empty = refl;
}

abbrev with_header : CopyOptions
with_header = record default_options { header = true }

parse_copy_rows-encode_copy_payload_example :
    (encode_copy_payload tally codes ((1, tabbed) ∷ []) (number_spec ∷ text_spec ∷ []) with_header
      >>= λ payload. parse_copy_rows tally codes payload (number_spec ∷ text_spec ∷ []) with_header)
    ≡ ok (tabbed ∷ [])
unfolding compare_list ant_db.Copy.encode_line ant_db.Copy.format_copy_value
    ant_db.Copy.Fields.join_text ant_db.Copy.Fields.escape_copy_field
parse_copy_rows-encode_copy_payload_example =
    parse_copy_rows-encode_copy_payload tally codes ((1, tabbed) ∷ []) number_spec (text_spec ∷ [])
      with_header tally-HasRoundTrip codes-IsUtf8 refl refl refl (λ e. absurd (ground arith))
      ((((refl, refl, refl, refl), ((refl, refl, refl, refl), tt)), λ e. absurd (ground arith)), tt)

apply_update_assignment-adds_example :
    let sum = clamp_i64 (pos 3 +ℤ pos 3) in
    (apply_update_assignment (add_column (b'n' ∷ []) three) tabbed 0 DataBaseDataType.integer_i64
      ≡ ok (DataBaseDataEntry.integer_i64 sum))
    × (fits DataBaseDataType.integer_i64 (pos 3 +ℤ pos 3) ≡ true → sum ≡ (pos 3 +ℤ pos 3))
    × (fits DataBaseDataType.integer_i32 sum ≡ true
        → apply_update_assignment
            (add_column (b'n' ∷ []) three)
            tabbed
            0
            DataBaseDataType.integer_i32
          ≡ ok (DataBaseDataEntry.integer_i32 sum))
    × (fits DataBaseDataType.integer_i32 sum ≡ false
        → is_ok (
            apply_update_assignment
              (add_column (b'n' ∷ []) three)
              tabbed
              0
              DataBaseDataType.integer_i32)
          ≡ false)
    × ((t : DataBaseDataType)
        → same_type DataBaseDataType.integer_i64 t ≡ false
        → same_type DataBaseDataType.integer_i32 t ≡ false
        → is_ok (apply_update_assignment (add_column (b'n' ∷ []) three) tabbed 0 t) ≡ false)
apply_update_assignment-adds_example =
    apply_update_assignment-adds (b'n' ∷ []) three tabbed 0 (pos 3) (pos 3) refl refl refl refl

-- A row whose column n holds 3 in 32 bits.
abbrev context : RowEvaluationContext
context = (b'n' ∷ [], three) ∷ []

abbrev orders : Text
orders = b'O' ∷ b'r' ∷ b'd' ∷ b'e' ∷ b'r' ∷ b's' ∷ []

-- SHOW TABLES ILIKE '%OR%' of the table Orders
sql_like_matches-like_of_example :
    sql_like_matches orders (pattern_of true (b'O' ∷ b'R' ∷ []) true) true
    ≡ like_of (folded true (pattern_of true (b'O' ∷ b'R' ∷ []) true)) (folded true orders)
sql_like_matches-like_of_example =
    sql_like_matches-like_of orders (b'O' ∷ b'R' ∷ []) true true true (refl, (refl, tt))
