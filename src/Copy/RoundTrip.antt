-- ===== src/Copy/RoundTrip.antt =====
-- Splitting a line gives the escaped fields back (src/backend/core/copy.rs).
use ant_db.Common.{
  ℕ, zero, suc, ◌+◌, ◌-◌, ◌≤◌, ◌≡◌, refl, Bool, true, not, ◌||◌, List, [], ◌∷◌, ◌++◌, ◌==◌, length,
  length-append, arith, map, ◌∙◌, ap, sym,
}
use mathlib.Core.List.{append_assoc, append-nil}
use native.Mathlib.Nat.{suc-add, zero-add}
use ant_db.Errors.{Text}
use ant_db.Copy.Fields.{
  backslash, escape_char, escape_copy_field, is_octal, read_octal, read_escape, split_loop,
  split_copy_fields, join_text,
}

-- A delimiter that means nothing of its own behind a backslash.
abbrev pub is_plain : ℕ → Bool
is_plain d = not (
    (d == backslash)
    || ((d == b'b')
        || ((d == b'f')
            || ((d == b'n') || ((d == b'r') || ((d == b't') || ((d == b'v') || is_octal d)))))))

read_octal-length : (v : ℕ) (s : Text) → length (read_octal v s).1 ≤ length s
read_octal-length v [] = omega arith
read_octal-length v (a ∷ []) = ground arith
read_octal-length v (a ∷ b ∷ s) = ground arith

read_escape-length : (s : Text) → length (read_escape s).1 ≤ length s
read_escape-length [] = omega arith
read_escape-length (c ∷ s) = ground (arith, read_octal-length (c - b'0') s)

-- Fuel for every character is enough: more of it changes nothing.
pub split_loop-fuel :
    (delimiter fuel more : ℕ) (s : Text) (fields : List Text) (current : Text)
    → length s ≤ fuel
    → split_loop delimiter (fuel + more) s fields current
      ≡ split_loop delimiter fuel s fields current
unfolding split_loop
split_loop-fuel delimiter zero zero s fields current h = ground arith
split_loop-fuel delimiter zero (suc more) [] fields current h = ground arith
split_loop-fuel delimiter zero (suc more) (c ∷ s) fields current h = absurd (omega arith)
split_loop-fuel delimiter (suc fuel) more [] fields current h = rw suc-add refl
split_loop-fuel delimiter (suc fuel) more (c ∷ s) fields current h = rw suc-add (
    ground (
      arith,
      read_escape-length s,
      split_loop-fuel delimiter fuel more (read_escape s).1 fields (current ++ (read_escape s).0),
      split_loop-fuel delimiter fuel more s (fields ++ current ∷ []) [],
      split_loop-fuel delimiter fuel more s fields (current ++ c ∷ []),
    ))

module _ (d : ℕ) (plain : is_plain d ≡ true) where
  -- One round reads one escaped character.
  split_loop-escape_char :
      (fuel c : ℕ) (rest : Text) (fields : List Text) (current : Text)
      → split_loop d (suc fuel) (escape_char d c ++ rest) fields current
        ≡ split_loop d fuel rest fields (current ++ c ∷ [])
  unfolding split_loop
  split_loop-escape_char fuel c rest fields current = ground (arith, plain)

  split_loop-escape :
      (fuel : ℕ) (p rest : Text) (fields : List Text) (current : Text)
      → split_loop d (length p + fuel) (escape_copy_field p d ++ rest) fields current
        ≡ split_loop d fuel rest fields (current ++ p)
  unfolding escape_copy_field
  split_loop-escape fuel [] rest fields current = rw (append-nil, zero-add) refl
  split_loop-escape fuel (c ∷ p) rest fields current =
      rw (suc-add, append_assoc)
        (split_loop-escape_char (length p + fuel) c (escape_copy_field p d ++ rest) fields current
          ∙ split_loop-escape fuel p rest fields (current ++ c ∷ [])
          ∙ ap (split_loop d fuel rest fields) (append_assoc current (c ∷ []) p))

  split_loop-delimiter :
      (fuel : ℕ) (rest : Text) (fields : List Text) (current : Text)
      → split_loop d (suc fuel) (d ∷ rest) fields current
        ≡ split_loop d fuel rest (fields ++ current ∷ []) []
  unfolding split_loop
  split_loop-delimiter fuel rest fields current = ground (arith, plain)

  split_loop-nil :
      (fuel : ℕ) (fields : List Text) (current : Text)
      → split_loop d fuel [] fields current ≡ fields ++ current ∷ []
  unfolding split_loop
  split_loop-nil zero fields current = refl
  split_loop-nil (suc fuel) fields current = refl

  -- The escaped fields, joined.
  abbrev pub encode_fields : List Text → Text
  encode_fields ps = join_text (map (λ p. escape_copy_field p d) ps) d

  -- The rounds that the loop makes on them.
  abbrev rounds : List Text → ℕ
  rounds [] = 0
  rounds (p ∷ []) = length p
  rounds (p ∷ q ∷ ps) = length p + suc (rounds (q ∷ ps))

  split_loop-encode_fields :
      (fuel : ℕ) (p : Text) (ps : List Text) (fields : List Text)
      → split_loop d (rounds (p ∷ ps) + fuel) (encode_fields (p ∷ ps)) fields [] ≡ fields ++ p ∷ ps
  unfolding join_text
  split_loop-encode_fields fuel p [] fields =
      ap (λ s. split_loop d (length p + fuel) s fields [])
        (sym (append-nil (escape_copy_field p d)))
      ∙ split_loop-escape fuel p [] fields []
      ∙ split_loop-nil fuel fields p
  split_loop-encode_fields fuel p (q ∷ ps) fields =
      let r = rounds (q ∷ ps) in
      let e : length p + suc r + fuel ≡ length p + suc (r + fuel) = omega arith in
      rw e (
        split_loop-escape (suc (r + fuel)) p (d ∷ encode_fields (q ∷ ps)) fields []
        ∙ split_loop-delimiter (r + fuel) (encode_fields (q ∷ ps)) fields p
        ∙ split_loop-encode_fields fuel q ps (fields ++ p ∷ [])
        ∙ append_assoc fields (p ∷ []) (q ∷ ps))

  length-escape_char : (c : ℕ) → 1 ≤ length (escape_char d c)
  length-escape_char c = ground arith

  length-escape : (p : Text) → length p ≤ length (escape_copy_field p d)
  unfolding escape_copy_field
  length-escape [] = omega arith
  length-escape (c ∷ p) = omega (
    arith,
    length-append (escape_char d c) (escape_copy_field p d),
    length-escape_char c,
    length-escape p,
  )

  rounds-le : (p : Text) (ps : List Text) → rounds (p ∷ ps) ≤ length (encode_fields (p ∷ ps))
  unfolding join_text
  rounds-le p [] = length-escape p
  rounds-le p (q ∷ ps) = omega (
    arith,
    length-append (escape_copy_field p d) (d ∷ encode_fields (q ∷ ps)),
    length-escape p,
    rounds-le q ps,
  )

  -- Splitting a line of escaped fields gives the fields back, whatever characters they hold, under
  -- any delimiter that is no backslash and names no escape. (A line has at least one field.)
  pub split_copy_fields-encode :
      (p : Text) (ps : List Text) → split_copy_fields (encode_fields (p ∷ ps)) d ≡ p ∷ ps
  unfolding split_copy_fields
  split_copy_fields-encode p ps =
      let n = length (encode_fields (p ∷ ps)) in
      let r = rounds (p ∷ ps) in
      let e : n ≡ r + (n - r) = omega (arith, rounds-le p ps) in
      ap (λ (fuel : ℕ). split_loop d fuel (encode_fields (p ∷ ps)) [] []) e
      ∙ split_loop-encode_fields (n - r) p ps []
