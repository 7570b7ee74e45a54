-- ===== src/ShowTables.antt =====
-- src/backend/core/pg_wire.rs, the filter of SHOW TABLES: `sql_like_matches` and
-- `show_tables_matches`. The filter's cases are those of the parsed statement that the code matches on.
pub mod Patterns
use ant_db.Common.{ℕ, Bool, true, false, ◌&&◌, ◌||◌, List, [], ◌∷◌, ◌==◌, if◌then◌else◌}
use ant_db.Errors.{Text, query_error, Result, ok, err}
use ant_db.Copy.{text_eq, to_ascii_lowercase}

abbrev pub percent : ℕ
percent = b'%'

-- `str::starts_with` of a text
unfoldable pub starts_with : Text → Text → Bool
starts_with s [] = true
starts_with [] (c ∷ prefix) = false
starts_with (d ∷ s) (c ∷ prefix) = d == c && starts_with s prefix

-- Whether a test holds of some suffix of a text, the text itself and the empty one included
unfoldable pub any_suffix : (Text → Bool) → Text → Bool
any_suffix f [] = f []
any_suffix f (c ∷ s) = f (c ∷ s) || any_suffix f s

-- `str::ends_with` and `str::contains` of a text
abbrev pub ends_with : Text → Text → Bool
unfolding any_suffix
ends_with s suffix = any_suffix (λ rest. text_eq rest suffix) s

abbrev pub contains_text : Text → Text → Bool
unfolding any_suffix starts_with
contains_text s part = any_suffix (λ rest. starts_with rest part) s

-- `starts_with('%')` and `ends_with('%')`
abbrev pub starts_wild : Text → Bool
starts_wild [] = false
starts_wild (c ∷ s) = c == percent

abbrev pub ends_wild : Text → Bool
ends_wild [] = false
ends_wild (c ∷ []) = c == percent
ends_wild (c ∷ d ∷ s) = ends_wild (d ∷ s)

-- The two sides of `trim_matches('%')`
abbrev pub trim_start : Text → Text
trim_start [] = []
trim_start (c ∷ s) = let rest = trim_start s in if c == percent then rest else c ∷ s

-- A character before what is left of the rest: it goes where nothing is left and it is a `%`.
abbrev pub trim_before : ℕ → Text → Text
trim_before c [] = if c == percent then [] else c ∷ []
trim_before c (d ∷ rest) = c ∷ d ∷ rest

abbrev pub trim_end : Text → Text
trim_end [] = []
trim_end (c ∷ s) = trim_before c (trim_end s)

abbrev pub folded : Bool → Text → Text
folded true s = to_ascii_lowercase s
folded false s = s

-- `sql_like_matches`, of texts whose case has been folded
unfoldable pub matches_folded : Text → Text → Bool
unfolding any_suffix starts_with
matches_folded value pattern =
    let trimmed = trim_end (trim_start pattern) in
    if text_eq pattern (percent ∷ [])
    then true
    else if starts_wild pattern && ends_wild pattern
    then contains_text value trimmed
    else if starts_wild pattern
    then ends_with value trimmed
    else if ends_wild pattern
    then starts_with value trimmed
    else text_eq value trimmed

-- `sql_like_matches`
unfoldable pub sql_like_matches : Text → Text → Bool → Bool
unfolding matches_folded
sql_like_matches value pattern case_insensitive =
    matches_folded (folded case_insensitive value) (folded case_insensitive pattern)

pub data ShowStatementFilter : Type 0 where
  like ilike : Text → ShowStatementFilter
  where_clause : ShowStatementFilter

-- `show_tables_matches`
unfoldable pub show_tables_matches : Text → ShowStatementFilter → Result Bool
unfolding sql_like_matches
show_tables_matches name (like pattern) = ok (sql_like_matches name pattern false)
show_tables_matches name (ilike pattern) = ok (sql_like_matches name pattern true)
show_tables_matches name where_clause =
    err (query_error "SHOW TABLES WHERE filtering is unsupported")
