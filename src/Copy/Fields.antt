-- ===== src/Copy/Fields.antt =====
-- src/backend/core/copy.rs, `escape_copy_field` and `split_copy_fields`.
use ant_db.Common.{
  ℕ, zero, suc, ◌+◌, ◌-◌, ◌*◌, Bool, true, false, ◌&&◌, List, [], ◌∷◌, ◌++◌, leb, ltb, ◌==◌,
  if◌then◌else◌, length,
}
use ant_db.Errors.{Text}

abbrev pub backslash : ℕ
backslash = b'\\'

-- What `escape_copy_field` appends for one character.
abbrev pub escape_char : ℕ → ℕ → Text
escape_char delimiter c =
    if c == backslash
    then backslash ∷ backslash ∷ []
    else if c == 10
    then backslash ∷ b'n' ∷ []
    else if c == 13
    then backslash ∷ b'r' ∷ []
    else if c == 9
    then backslash ∷ b't' ∷ []
    else if c == delimiter
    then backslash ∷ c ∷ []
    else c ∷ []

unfoldable pub escape_copy_field : Text → ℕ → Text
escape_copy_field [] delimiter = []
escape_copy_field (c ∷ s) delimiter = escape_char delimiter c ++ escape_copy_field s delimiter

abbrev pub is_octal : ℕ → Bool
is_octal c = leb b'0' c && leb c b'7'

-- `u8::from_str_radix(&octal, 8)`: a value that is no byte gives nothing.
abbrev pub octal_char : ℕ → Text
octal_char v = if ltb v 256 then v ∷ [] else []

-- The digits behind a backslash: one, and up to two more.
abbrev pub read_octal : ℕ → Text → Text × Text
read_octal v [] = (octal_char v, [])
read_octal v (a ∷ []) =
    if is_octal a then (octal_char (v * 8 + (a - b'0')), []) else (octal_char v, a ∷ [])
read_octal v (a ∷ b ∷ s) =
    if is_octal a
    then if is_octal b
      then (octal_char ((v * 8 + (a - b'0')) * 8 + (b - b'0')), s)
      else (octal_char (v * 8 + (a - b'0')), b ∷ s)
    else (octal_char v, a ∷ b ∷ s)

-- What follows a backslash: the characters that it pushes, and the text behind it.
abbrev pub read_escape : Text → Text × Text
read_escape [] = (backslash ∷ [], [])
read_escape (c ∷ s) =
    if c == b'b'
    then (8 ∷ [], s)
    else if c == b'f'
    then (12 ∷ [], s)
    else if c == b'n'
    then (10 ∷ [], s)
    else if c == b'r'
    then (13 ∷ [], s)
    else if c == b't'
    then (9 ∷ [], s)
    else if c == b'v'
    then (11 ∷ [], s)
    else if is_octal c
    then read_octal (c - b'0') s
    else (c ∷ [], s)

-- The `while let` loop of `split_copy_fields`. A round takes at least one character, so as much fuel
-- as there are characters is enough.
unfoldable pub split_loop : ℕ → ℕ → Text → List Text → Text → List Text
split_loop delimiter zero s fields current = fields ++ current ∷ []
split_loop delimiter (suc fuel) [] fields current = fields ++ current ∷ []
split_loop delimiter (suc fuel) (c ∷ s) fields current = elim (c == backslash) [
  | true ↦
      let (pushed, rest) = read_escape s in
      split_loop delimiter fuel rest fields (current ++ pushed)
  | false ↦ elim (c == delimiter) [
    | true ↦ split_loop delimiter fuel s (fields ++ current ∷ []) []
    | false ↦ split_loop delimiter fuel s fields (current ++ c ∷ [])
  ]
]

unfoldable pub split_copy_fields : Text → ℕ → List Text
unfolding split_loop
split_copy_fields line delimiter = split_loop delimiter (length line) line [] []

-- `join` of texts, with a separator of one character.
unfoldable pub join_text : List Text → ℕ → Text
join_text [] sep = []
join_text (p ∷ []) sep = p
join_text (p ∷ q ∷ ps) sep = p ++ (sep ∷ join_text (q ∷ ps) sep)
