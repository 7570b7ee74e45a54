-- ===== src/Copy/Payload.antt =====
-- src/backend/core/copy.rs: the payload of COPY, `encode_copy_payload` and `parse_copy_rows`. UTF-8 is the
-- standard library's: `as_bytes` and `from_utf8` are a parameter.
pub mod Lines
pub mod Reading
use ant_db.Common.{
  ℕ, Bool, true, false, ◌&&◌, Option, none, some, List, [], ◌∷◌, ◌++◌, map, ◌==◌, if◌then◌else◌,
}
use ant_db.Errors.{Text, query_error, Result, ok, err, ◌>>=◌}
use ant_db.Row.Entry.{RowData, RowId}
use ant_db.Copy.{CopyOptions, CopyColumnSpec, Numerals, encode_line, parse_line}
use ant_db.Copy.Fields.{escape_copy_field, join_text}

pub record Utf8 : Type 0 where
  pub as_bytes : Text → List ℕ
  pub from_utf8 : List ℕ → Option Text

abbrev pub newline : ℕ
newline = 10

-- A character in front of the first line
abbrev pub put_char : ℕ → List Text → List Text
put_char c [] = (c ∷ []) ∷ []
put_char c (line ∷ lines) = (c ∷ line) ∷ lines

abbrev pub begins_newline : Text → Bool
begins_newline [] = false
begins_newline (c ∷ s) = c == newline

-- `str::lines`: a line ends with a newline, or with a carriage return and a newline.
unfoldable pub text_lines : Text → List Text
text_lines [] = []
text_lines (c ∷ s) =
    let rest = text_lines s in
    if c == newline
    then [] ∷ rest
    else if (c == 13) && begins_newline s
    then rest
    else put_char c rest

module _ (n : Numerals) (utf8 : Utf8) where
  open utf8 use {as_bytes, from_utf8}

  -- The loop of `encode_copy_payload` over the rows
  unfoldable pub encode_rows : List (RowId × RowData) → List CopyColumnSpec → CopyOptions → List ℕ
  unfolding encode_line join_text
  encode_rows [] columns options = []
  encode_rows ((_, row) ∷ rows) columns options =
      as_bytes (join_text (encode_line n columns options row) options.delimiter)
      ++ newline ∷ encode_rows rows columns options

  abbrev pub column_name : CopyColumnSpec → Text
  column_name column = column.name

  -- The header of `encode_copy_payload`
  unfoldable pub encode_header : List CopyColumnSpec → CopyOptions → List ℕ
  unfolding join_text escape_copy_field
  encode_header columns options = elim options.header [
    | false ↦ []
    | true ↦
        as_bytes (
          join_text
            (map (λ column. escape_copy_field (column_name column) options.delimiter) columns)
            options.delimiter)
        ++ newline ∷ []
  ]

  -- `encode_copy_payload`
  unfoldable pub encode_copy_payload :
      List (RowId × RowData) → List CopyColumnSpec → CopyOptions → Result (List ℕ)
  unfolding encode_header encode_rows
  encode_copy_payload rows columns options = elim options.binary [
    | true ↦ err (query_error "COPY binary format is not supported")
    | false ↦ ok (encode_header columns options ++ encode_rows rows columns options)
  ]

  -- The loop of `parse_copy_rows` over the lines; the flag is `skip_header`.
  unfoldable pub parse_lines :
      Bool → List Text → List CopyColumnSpec → CopyOptions → Result (List RowData)
  unfolding parse_line
  parse_lines skip_header [] columns options = ok []
  parse_lines skip_header ([] ∷ lines) columns options =
      parse_lines skip_header lines columns options
  parse_lines true ((c ∷ line) ∷ lines) columns options = parse_lines false lines columns options
  parse_lines false ((c ∷ line) ∷ lines) columns options = do
    row ← parse_line n (c ∷ line) columns options
    rows ← parse_lines false lines columns options
    ok (row ∷ rows)

  -- `parse_copy_rows`
  unfoldable pub parse_copy_rows :
      List ℕ → List CopyColumnSpec → CopyOptions → Result (List RowData)
  unfolding parse_lines text_lines
  parse_copy_rows buffer columns options = elim options.binary [
    | true ↦ err (query_error "COPY binary format is not supported")
    | false ↦ elim (from_utf8 buffer) [
      | none ↦ err (query_error "COPY data must be valid UTF-8 text")
      | some text ↦ parse_lines options.header (text_lines text) columns options
    ]
  ]
