-- ===== src/ShowTables/Patterns.antt =====
-- `sql_like_matches` of src/backend/core/pg_wire.rs against LIKE as SQL has it.
use ant_db.Common.{
  ℕ, ◌≡◌, refl, ap, sym, ◌∙◌, Bool, true, false, not, ◌&&◌, ◌||◌, [], ◌∷◌, ◌++◌, ◌==◌,
  if◌then◌else◌, arith, All,
}
use ant_db.Errors.{Text}
use ant_db.Copy.{text_eq, to_ascii_lowercase, lower}
use ant_db.ShowTables.{
  percent, starts_with, any_suffix, ends_with, contains_text, starts_wild, ends_wild, trim_start,
  trim_before, trim_end, folded, matches_folded, sql_like_matches,
}

-- The first character of a text passes a test, and the rest another.
unfoldable pub first_and : (ℕ → Bool) → (Text → Bool) → Text → Bool
first_and f g [] = false
first_and f g (c ∷ s) = f c && g s

abbrev pub is_empty_text : Text → Bool
is_empty_text [] = true
is_empty_text (c ∷ s) = false

-- LIKE of SQL, by the pattern: `%` stands for any text, `_` for any character, and everything else for
-- itself.
unfoldable pub like_of : Text → Text → Bool
unfolding first_and any_suffix
like_of [] value = is_empty_text value
like_of (c ∷ pattern) value =
    if c == percent
    then any_suffix (like_of pattern) value
    else first_and (λ d. c == b'_' || d == c) (like_of pattern) value

-- A character that stands for itself
abbrev pub is_literal : ℕ → Bool
is_literal c = not (c == percent) && not (c == b'_')

abbrev pub IsLiteral : Text → Type 0
IsLiteral s = All (λ c. is_literal c ≡ true) s

-- A text with a `%` at its start, at its end, at both or at neither
abbrev pub with_end : Text → Bool → Text
with_end s true = s ++ percent ∷ []
with_end s false = s

abbrev pub pattern_of : Bool → Text → Bool → Text
pattern_of true s trailing = percent ∷ with_end s trailing
pattern_of false s trailing = with_end s trailing

any_suffix_congr :
    (f g : Text → Bool) (s : Text)
    → ((rest : Text) → f rest ≡ g rest)
    → any_suffix f s ≡ any_suffix g s
unfolding any_suffix
any_suffix_congr f g [] same = same []
any_suffix_congr f g (c ∷ s) same = rw (same (c ∷ s), any_suffix_congr f g s same) refl

any_suffix-true : (f : Text → Bool) (s : Text) → f [] ≡ true → any_suffix f s ≡ true
unfolding any_suffix
any_suffix-true f [] h = h
any_suffix-true f (c ∷ s) h = ground (arith, any_suffix-true f s h)

like_of-literal : (s value : Text) → IsLiteral s → like_of s value ≡ text_eq value s
unfolding like_of first_and ant_db.Row.Entry.compare_list
like_of-literal [] [] h = refl
like_of-literal [] (d ∷ value) h = refl
like_of-literal (c ∷ s) [] (hc, h) = ground arith
like_of-literal (c ∷ s) (d ∷ value) (hc, h) = ground (arith, like_of-literal s value h)

like_of-prefix :
    (s value : Text) → IsLiteral s → like_of (s ++ percent ∷ []) value ≡ starts_with value s
unfolding like_of first_and starts_with
like_of-prefix [] value h = any_suffix-true is_empty_text value refl
like_of-prefix (c ∷ s) [] (hc, h) = ground arith
like_of-prefix (c ∷ s) (d ∷ value) (hc, h) = ground (arith, like_of-prefix s value h)

trim_end-literal : (s : Text) → IsLiteral s → trim_end s ≡ s
trim_end-literal [] h = refl
trim_end-literal (c ∷ []) (hc, h) = ground arith
trim_end-literal (c ∷ d ∷ s) (hc, h) = rw (trim_end-literal (d ∷ s) h, trim_before) refl

trim_end-wild : (s : Text) → IsLiteral s → trim_end (s ++ percent ∷ []) ≡ s
trim_end-wild [] h = refl
trim_end-wild (c ∷ []) (hc, h) = ground arith
trim_end-wild (c ∷ d ∷ s) (hc, h) = rw (trim_end-wild (d ∷ s) h, trim_before) refl

ends_wild-literal : (c : ℕ) (s : Text) → IsLiteral (c ∷ s) → ends_wild (c ∷ s) ≡ false
ends_wild-literal c [] (hc, h) = ground arith
ends_wild-literal c (d ∷ s) (hc, h) = ends_wild-literal d s h

ends_wild-wild : (s : Text) → ends_wild (s ++ percent ∷ []) ≡ true
ends_wild-wild [] = refl
ends_wild-wild (c ∷ []) = refl
ends_wild-wild (c ∷ d ∷ s) = ends_wild-wild (d ∷ s)

trim_start-literal : (c : ℕ) (s : Text) → is_literal c ≡ true → trim_start (c ∷ s) ≡ c ∷ s
trim_start-literal c s h = ground arith

not_percent : (c : ℕ) (s : Text) → is_literal c ≡ true → text_eq (c ∷ s) (percent ∷ []) ≡ false
unfolding ant_db.Row.Entry.compare_list
not_percent c s h = ground arith

like_of-percent : (s value : Text) → like_of (percent ∷ s) value ≡ any_suffix (like_of s) value
unfolding like_of
like_of-percent s value = refl

-- What is tested where the part between the percent signs begins with a character that stands for itself
bare :
    (c : ℕ) (s value : Text)
    → IsLiteral (c ∷ s)
    → matches_folded value (c ∷ s) ≡ text_eq value (c ∷ s)
unfolding matches_folded
bare c s value h = ground (
  arith,
  not_percent c s h.0,
  trim_start-literal c s h.0,
  trim_end-literal (c ∷ s) h,
  ends_wild-literal c s h,
)

ended :
    (c : ℕ) (s value : Text)
    → IsLiteral (c ∷ s)
    → matches_folded value (c ∷ s ++ percent ∷ []) ≡ starts_with value (c ∷ s)
unfolding matches_folded
ended c s value h = ground (
  arith,
  not_percent c (s ++ percent ∷ []) h.0,
  trim_start-literal c (s ++ percent ∷ []) h.0,
  trim_end-wild (c ∷ s) h,
  ends_wild-wild (c ∷ s),
)

started :
    (c : ℕ) (s value : Text)
    → IsLiteral (c ∷ s)
    → matches_folded value (percent ∷ c ∷ s) ≡ ends_with value (c ∷ s)
unfolding matches_folded ant_db.Row.Entry.compare_list
started c s value h =
    ground (arith, trim_start-literal c s h.0, trim_end-literal (c ∷ s) h, ends_wild-literal c s h)

surrounded :
    (c : ℕ) (s value : Text)
    → IsLiteral (c ∷ s)
    → matches_folded value (percent ∷ (c ∷ s ++ percent ∷ [])) ≡ contains_text value (c ∷ s)
unfolding matches_folded ant_db.Row.Entry.compare_list
surrounded c s value h = ground (
  arith,
  trim_start-literal c (s ++ percent ∷ []) h.0,
  trim_end-wild (c ∷ s) h,
  ends_wild-wild (c ∷ s),
)

empty_part :
    (leading trailing : Bool) (value : Text)
    → matches_folded value (pattern_of leading [] trailing)
      ≡ like_of (pattern_of leading [] trailing) value
unfolding matches_folded like_of ant_db.Row.Entry.compare_list
empty_part false false [] = refl
empty_part false false (d ∷ value) = refl
empty_part true false value = sym (any_suffix-true is_empty_text value refl)
empty_part false true value = sym (any_suffix-true is_empty_text value refl)
empty_part true true value =
    any_suffix_congr (λ rest. starts_with rest []) (like_of (percent ∷ [])) value
      (λ rest. sym (like_of-prefix [] rest tt))

matches_folded-like_of :
    (leading trailing : Bool) (s value : Text)
    → IsLiteral s
    → matches_folded value (pattern_of leading s trailing)
      ≡ like_of (pattern_of leading s trailing) value
unfolding ends_with any_suffix like_of contains_text
matches_folded-like_of leading trailing [] value h = empty_part leading trailing value
matches_folded-like_of false false (c ∷ s) value h =
    bare c s value h ∙ sym (like_of-literal (c ∷ s) value h)
matches_folded-like_of false true (c ∷ s) value h =
    ended c s value h ∙ sym (like_of-prefix (c ∷ s) value h)
matches_folded-like_of true false (c ∷ s) value h =
    started c s value h
    ∙ any_suffix_congr (λ rest. text_eq rest (c ∷ s)) (like_of (c ∷ s)) value
        (λ rest. sym (like_of-literal (c ∷ s) rest h))
    ∙ sym (like_of-percent (c ∷ s) value)
matches_folded-like_of true true (c ∷ s) value h =
    surrounded c s value h
    ∙ any_suffix_congr (λ rest. starts_with rest (c ∷ s)) (like_of (c ∷ s ++ percent ∷ [])) value
        (λ rest. sym (like_of-prefix (c ∷ s) rest h))
    ∙ sym (like_of-percent (c ∷ s ++ percent ∷ []) value)

lower-IsLiteral : (s : Text) → IsLiteral s → IsLiteral (to_ascii_lowercase s)
lower-IsLiteral [] h = tt
lower-IsLiteral (c ∷ s) (hc, h) = (ground arith, lower-IsLiteral s h)

folded-IsLiteral : (fold : Bool) (s : Text) → IsLiteral s → IsLiteral (folded fold s)
folded-IsLiteral true s h = lower-IsLiteral s h
folded-IsLiteral false s h = h

lower-with_end :
    (s : Text) (trailing : Bool)
    → to_ascii_lowercase (with_end s trailing) ≡ with_end (to_ascii_lowercase s) trailing
lower-with_end s false = refl
lower-with_end [] true = refl
lower-with_end (c ∷ s) true = ap (λ r. lower c ∷ r) (lower-with_end s true)

folded-pattern_of :
    (fold leading trailing : Bool) (s : Text)
    → folded fold (pattern_of leading s trailing) ≡ pattern_of leading (folded fold s) trailing
folded-pattern_of false leading trailing s = refl
folded-pattern_of true false trailing s = lower-with_end s trailing
folded-pattern_of true true trailing s = ap (λ r. percent ∷ r) (lower-with_end s trailing)

-- SHOW TABLES LIKE and ILIKE select what LIKE of SQL selects (ILIKE after both texts have been put into
-- lower case), for every pattern with percent signs at its start, at its end, at both or at neither,
-- and no percent sign or underscore between.
pub sql_like_matches-like_of :
    (value s : Text) (leading trailing case_insensitive : Bool)
    → IsLiteral s
    → sql_like_matches value (pattern_of leading s trailing) case_insensitive
      ≡ like_of
          (folded case_insensitive (pattern_of leading s trailing))
          (folded case_insensitive value)
unfolding sql_like_matches
sql_like_matches-like_of value s leading trailing fold h =
    rw (folded-pattern_of fold leading trailing s) (
      matches_folded-like_of leading trailing (folded fold s) (folded fold value)
        (folded-IsLiteral fold s h))

-- A text that neither starts nor ends with a percent sign
abbrev pub IsUntrimmed : Text → Type 0
IsUntrimmed s = (starts_wild s ≡ false) × (ends_wild s ≡ false)

trim_start-tame : (s : Text) → starts_wild s ≡ false → trim_start s ≡ s
trim_start-tame [] h = refl
trim_start-tame (c ∷ s) h = ground arith

trim_end-tame : (s : Text) → ends_wild s ≡ false → trim_end s ≡ s
trim_end-tame [] h = refl
trim_end-tame (c ∷ []) h = ground arith
trim_end-tame (c ∷ d ∷ s) h = rw (trim_end-tame (d ∷ s) h, trim_before) refl

tame-percent : (s : Text) → starts_wild s ≡ false → text_eq s (percent ∷ []) ≡ false
unfolding ant_db.Row.Entry.compare_list
tame-percent [] h = refl
tame-percent (c ∷ s) h = ground arith

-- SHOW TABLES LIKE takes a percent sign inside a pattern, and an underscore anywhere, for itself: under
-- a pattern that neither starts nor ends with a percent sign it selects exactly the text of the
-- pattern.
pub sql_like_matches-inner :
    (value pattern : Text)
    → IsUntrimmed pattern
    → sql_like_matches value pattern false ≡ text_eq value pattern
unfolding sql_like_matches matches_folded
sql_like_matches-inner value pattern (first, last) = ground (
  arith,
  tame-percent pattern first,
  trim_start-tame pattern first,
  trim_end-tame pattern last,
  first,
  last,
)
