-- ===== src/Copy/Payload/Reading.antt =====
-- The payload that COPY TO writes, read by COPY FROM (src/backend/core/copy.rs).
use ant_db.Common.{
  ◌≡◌, ◌≢◌, refl, ap, sym, ◌∙◌, Bool, true, false, some, List, [], ◌∷◌, ◌++◌, map, arith, All, inl,
  inr, Bool-cases,
}
use mathlib.Core.List.{append_assoc}
use ant_db.Errors.{Text, ok, ◌>>=◌}
use ant_db.Row.Entry.{RowData, RowId}
use ant_db.Copy.{CopyOptions, CopyColumnSpec, Numerals, encode_line, parse_line}
use ant_db.Copy.Fields.{escape_copy_field, join_text}
use ant_db.Copy.RoundTrip.{is_plain}
use ant_db.Copy.Values.{
  HasRoundTrip, IsCopyable, rendered_line, encode_line-rendered, written, parse_line-encode_line,
}
use ant_db.Copy.Payload.{
  Utf8, newline, text_lines, encode_rows, encode_header, column_name, encode_copy_payload,
  parse_lines, parse_copy_rows,
}
use ant_db.Copy.Payload.Lines.{is_inline, IsInline, text_lines-line, join_text-IsInline}

-- What COPY relies on: encoded text decodes to itself, piece by piece, and a newline is one byte.
pub record IsUtf8 (utf8 : Utf8) : Type 0 where
  pub from_utf8-as_bytes : (s : Text) → utf8.from_utf8 (utf8.as_bytes s) ≡ some s
  pub as_bytes-append : (a b : Text) → utf8.as_bytes (a ++ b) ≡ utf8.as_bytes a ++ utf8.as_bytes b
  pub as_bytes-newline : utf8.as_bytes (newline ∷ []) ≡ newline ∷ []
  pub as_bytes-empty : utf8.as_bytes [] ≡ []

module _ (n : Numerals) (utf8 : Utf8) where
  open utf8 use {as_bytes, from_utf8}

  abbrev pub row_text : List CopyColumnSpec → CopyOptions → RowData → Text
  row_text columns options row = join_text (encode_line n columns options row) options.delimiter

  abbrev pub header_text : List CopyColumnSpec → CopyOptions → Text
  header_text columns options =
      join_text
        (map (λ column. escape_copy_field (column_name n utf8 column) options.delimiter) columns)
        options.delimiter

  -- The texts of all rows, each with its newline
  abbrev pub rows_text : List (RowId × RowData) → List CopyColumnSpec → CopyOptions → Text
  rows_text [] columns options = []
  rows_text ((_, row) ∷ rows) columns options =
      row_text columns options row ++ newline ∷ rows_text rows columns options

  -- A row that COPY can carry: of copyable values, and not written as an empty line
  abbrev pub IsCarried : List CopyColumnSpec → CopyOptions → RowId × RowData → Type 0
  IsCarried columns options (_, row) =
      IsCopyable n options.null_string row columns × (row_text columns options row ≢ [])

  row_text-IsInline :
      (columns : List CopyColumnSpec) (options : CopyOptions) (row : RowData)
      → is_inline options.delimiter ≡ true
      → IsCopyable n options.null_string row columns
      → IsInline (row_text columns options row)
  row_text-IsInline columns options row h copyable =
      rw (encode_line-rendered n columns options row copyable)
        (join_text-IsInline (λ field. field) (rendered_line n row columns) options.delimiter h)

  module _ (law : IsUtf8 utf8) where
    open law use {from_utf8-as_bytes, as_bytes-append, as_bytes-newline, as_bytes-empty}

    bytes_line :
        (line s : Text) → as_bytes (line ++ newline ∷ s) ≡ as_bytes line ++ newline ∷ as_bytes s
    bytes_line line s =
        as_bytes-append line (newline ∷ s)
        ∙ ap (λ b. as_bytes line ++ b)
            (as_bytes-append (newline ∷ []) s ∙ ap (λ b. b ++ as_bytes s) as_bytes-newline)

    encode_rows-as_bytes :
        (rows : List (RowId × RowData)) (columns : List CopyColumnSpec) (options : CopyOptions)
        → encode_rows n utf8 rows columns options ≡ as_bytes (rows_text rows columns options)
    unfolding encode_rows
    encode_rows-as_bytes [] columns options = sym as_bytes-empty
    encode_rows-as_bytes ((id, row) ∷ rows) columns options =
        ap (λ b. as_bytes (row_text columns options row) ++ newline ∷ b)
          (encode_rows-as_bytes rows columns options)
        ∙ sym (bytes_line (row_text columns options row) (rows_text rows columns options))

  parse_row :
      (line : Text) (lines : List Text) (columns : List CopyColumnSpec) (options : CopyOptions)
      (row : RowData) (rows : List RowData)
      → line ≢ []
      → parse_line n line columns options ≡ ok row
      → parse_lines n utf8 false lines columns options ≡ ok rows
      → parse_lines n utf8 false (line ∷ lines) columns options ≡ ok (row ∷ rows)
  unfolding parse_lines
  parse_row [] lines columns options row rows full e h = absurd (full refl)
  parse_row (c ∷ line) lines columns options row rows full e h = rw (e, h) refl

  parse_rows :
      (rows : List (RowId × RowData)) (c : CopyColumnSpec) (cs : List CopyColumnSpec)
      (options : CopyOptions)
      → HasRoundTrip n
      → is_plain options.delimiter ≡ true
      → is_inline options.delimiter ≡ true
      → All (IsCarried (c ∷ cs) options) rows
      → parse_lines n utf8 false (text_lines (rows_text rows (c ∷ cs) options)) (c ∷ cs) options
        ≡ ok (map (λ r. written r.1 (c ∷ cs) []) rows)
  unfolding parse_lines text_lines
  parse_rows [] c cs options law plain inline h = refl
  parse_rows ((id, row) ∷ rows) c cs options law plain inline ((copyable, full), h) =
      ap (λ ls. parse_lines n utf8 false ls (c ∷ cs) options)
        (text_lines-line (row_text (c ∷ cs) options row) (rows_text rows (c ∷ cs) options)
          (row_text-IsInline (c ∷ cs) options row inline copyable))
      ∙ parse_row (row_text (c ∷ cs) options row) (text_lines (rows_text rows (c ∷ cs) options))
          (c ∷ cs) options (written row (c ∷ cs) []) (map (λ r. written r.1 (c ∷ cs) []) rows) full
          (parse_line-encode_line n options row c cs law plain copyable)
          (parse_rows rows c cs options law plain inline h)

  abbrev pub payload_text : Bool → List (RowId × RowData) → List CopyColumnSpec → CopyOptions → Text
  payload_text false rows columns options = rows_text rows columns options
  payload_text true rows columns options =
      header_text columns options ++ newline ∷ rows_text rows columns options

  header_cases :
      (columns : List CopyColumnSpec) (options : CopyOptions)
      → (options.header ≡ false → encode_header n utf8 columns options ≡ [])
        × (options.header ≡ true
            → encode_header n utf8 columns options
              ≡ as_bytes (header_text columns options) ++ newline ∷ [])
  unfolding encode_header
  header_cases columns options = (λ e. ground arith, λ e. ground arith)

  encode-as_bytes :
      (rows : List (RowId × RowData)) (columns : List CopyColumnSpec) (options : CopyOptions)
      → IsUtf8 utf8
      → encode_header n utf8 columns options ++ encode_rows n utf8 rows columns options
        ≡ as_bytes (payload_text options.header rows columns options)
  encode-as_bytes rows columns options law =
      let body = encode_rows n utf8 rows columns options in
      let texts = λ (h : Bool). as_bytes (payload_text h rows columns options) in
      elim (Bool-cases options.header) [
        | inr bare ↦
            ap (λ b. b ++ body) ((header_cases columns options).0 bare)
            ∙ encode_rows-as_bytes law rows columns options
            ∙ ap texts (sym bare)
        | inl named ↦
            ap (λ b. b ++ body) ((header_cases columns options).1 named)
            ∙ append_assoc (as_bytes (header_text columns options)) (newline ∷ []) body
            ∙ ap (λ b. as_bytes (header_text columns options) ++ newline ∷ b)
                (encode_rows-as_bytes law rows columns options)
            ∙ sym (bytes_line law (header_text columns options) (rows_text rows columns options))
            ∙ ap texts (sym named)
      ]

  text_format :
      (rows : List (RowId × RowData)) (columns : List CopyColumnSpec) (options : CopyOptions)
      (text : Text)
      → options.binary ≡ false
      → from_utf8 (encode_header n utf8 columns options ++ encode_rows n utf8 rows columns options)
        ≡ some text
      → (encode_copy_payload n utf8 rows columns options >>= λ payload.
          parse_copy_rows n utf8 payload columns options)
        ≡ parse_lines n utf8 options.header (text_lines text) columns options
  unfolding encode_copy_payload parse_copy_rows
  text_format rows columns options text e decoded = ground arith

  skip_header :
      (line : Text) (lines : List Text) (columns : List CopyColumnSpec) (options : CopyOptions)
      → line ≢ []
      → parse_lines n utf8 true (line ∷ lines) columns options
        ≡ parse_lines n utf8 false lines columns options
  unfolding parse_lines
  skip_header [] lines columns options full = absurd (full refl)
  skip_header (c ∷ line) lines columns options full = refl

  parse_text :
      (named : Bool) (rows : List (RowId × RowData)) (c : CopyColumnSpec) (cs : List CopyColumnSpec)
      (options : CopyOptions)
      → HasRoundTrip n
      → is_plain options.delimiter ≡ true
      → is_inline options.delimiter ≡ true
      → header_text (c ∷ cs) options ≢ []
      → All (IsCarried (c ∷ cs) options) rows
      → parse_lines n utf8 named
          (text_lines (payload_text named rows (c ∷ cs) options))
          (c ∷ cs)
          options
        ≡ ok (map (λ r. written r.1 (c ∷ cs) []) rows)
  parse_text false rows c cs options law plain inline full h =
      parse_rows rows c cs options law plain inline h
  parse_text true rows c cs options law plain inline full h =
      ap (λ ls. parse_lines n utf8 true ls (c ∷ cs) options)
        (text_lines-line (header_text (c ∷ cs) options) (rows_text rows (c ∷ cs) options)
          (join_text-IsInline (column_name n utf8) (c ∷ cs) options.delimiter inline))
      ∙ skip_header (header_text (c ∷ cs) options) (text_lines (rows_text rows (c ∷ cs) options))
          (c ∷ cs) options full
      ∙ parse_rows rows c cs options law plain inline h

  -- What COPY TO writes, COPY FROM reads back: if numbers and UTF-8 texts read back what is written, the
  -- delimiter is no line break and names no escape, the format is not binary, no row and no header is
  -- an empty line, and every row is of copyable values, then the payload is read as exactly the values
  -- of the rows in the columns copied, in order, whether or not there is a header.
  pub parse_copy_rows-encode_copy_payload :
      (rows : List (RowId × RowData)) (c : CopyColumnSpec) (cs : List CopyColumnSpec)
      (options : CopyOptions)
      → HasRoundTrip n
      → IsUtf8 utf8
      → is_plain options.delimiter ≡ true
      → is_inline options.delimiter ≡ true
      → options.binary ≡ false
      → header_text (c ∷ cs) options ≢ []
      → All (IsCarried (c ∷ cs) options) rows
      → (encode_copy_payload n utf8 rows (c ∷ cs) options >>= λ payload.
          parse_copy_rows n utf8 payload (c ∷ cs) options)
        ≡ ok (map (λ r. written r.1 (c ∷ cs) []) rows)
  parse_copy_rows-encode_copy_payload rows c cs options law utf8_law plain inline text full h =
      text_format rows (c ∷ cs) options (payload_text options.header rows (c ∷ cs) options) text (
        ap utf8.from_utf8 (encode-as_bytes rows (c ∷ cs) options utf8_law)
        ∙ utf8_law.from_utf8-as_bytes (payload_text options.header rows (c ∷ cs) options))
      ∙ parse_text options.header rows c cs options law plain inline full h
