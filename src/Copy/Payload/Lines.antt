-- ===== src/Copy/Payload/Lines.antt =====
-- The lines of a text, and fields without line breaks (src/backend/core/copy.rs).
use ant_db.Common.{
  ℕ, ◌≡◌, refl, Bool, true, not, ◌||◌, List, [], ◌∷◌, ◌++◌, map, ◌==◌, arith, All, inl, inr,
  Bool-cases,
}
use ant_db.Errors.{Text}
use ant_db.Copy.Fields.{escape_copy_field, escape_char, join_text}
use ant_db.Copy.Payload.{newline, text_lines}

abbrev pub is_inline : ℕ → Bool
is_inline c = not ((c == newline) || (c == 13))

abbrev pub IsInline : Text → Type 0
IsInline s = All (λ c. is_inline c ≡ true) s

IsInline-append : (a b : Text) → IsInline a → IsInline b → IsInline (a ++ b)
IsInline-append [] b ha hb = hb
IsInline-append (c ∷ a) b (hc, ha) hb = (hc, IsInline-append a b ha hb)

pub text_lines-line :
    (line s : Text) → IsInline line → text_lines (line ++ newline ∷ s) ≡ line ∷ text_lines s
unfolding text_lines
text_lines-line [] s h = refl
text_lines-line (c ∷ line) s (hc, h) = ground (arith, text_lines-line line s h)

escape_char-IsInline : (delimiter c : ℕ) → IsInline (escape_char delimiter c)
escape_char-IsInline delimiter c = elim (Bool-cases (c == b'\\')) [
  | inl e ↦ rw (e) (refl, (refl, tt))
  | inr e0 ↦ elim (Bool-cases (c == 10)) [
    | inl e ↦ rw (e0, e) (refl, (refl, tt))
    | inr e1 ↦ elim (Bool-cases (c == 13)) [
      | inl e ↦ rw (e0, e1, e) (refl, (refl, tt))
      | inr e2 ↦ elim (Bool-cases (c == 9)) [
        | inl e ↦ rw (e0, e1, e2, e) (refl, (refl, tt))
        | inr e3 ↦ elim (Bool-cases (c == delimiter)) [
          | inl e ↦ rw (e0, e1, e2, e3, e) (refl, (ground arith, tt))
          | inr e4 ↦ rw (e0, e1, e2, e3, e4) (ground arith, tt)
        ]
      ]
    ]
  ]
]

pub escape_copy_field-IsInline :
    (s : Text) (delimiter : ℕ) → IsInline (escape_copy_field s delimiter)
unfolding escape_copy_field
escape_copy_field-IsInline [] delimiter = tt
escape_copy_field-IsInline (c ∷ s) delimiter =
    IsInline-append (escape_char delimiter c) (escape_copy_field s delimiter)
      (escape_char-IsInline delimiter c) (escape_copy_field-IsInline s delimiter)

-- A line of escaped fields has no line break of its own.
pub join_text-IsInline :
    {A : Type 0} (f : A → Text) (xs : List A) (delimiter : ℕ)
    → is_inline delimiter ≡ true
    → IsInline (join_text (map (λ x. escape_copy_field (f x) delimiter) xs) delimiter)
unfolding join_text
join_text-IsInline f [] delimiter h = tt
join_text-IsInline f (x ∷ []) delimiter h = escape_copy_field-IsInline (f x) delimiter
join_text-IsInline f (x ∷ y ∷ xs) delimiter h =
    IsInline-append (escape_copy_field (f x) delimiter)
      (delimiter ∷ join_text (map (λ z. escape_copy_field (f z) delimiter) (y ∷ xs)) delimiter)
      (escape_copy_field-IsInline (f x) delimiter) (h, join_text-IsInline f (y ∷ xs) delimiter h)
