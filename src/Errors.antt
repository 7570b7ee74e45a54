-- ===== src/Errors.antt =====
-- src/backend/errors.rs: the error type, and `Result` over it with `?` as `>>=`. Texts are lists of
-- code points; of a formatted message the fixed part is kept.
use Prim.Native.String.{String}
use ant_db.Common.{
  ℕ, Bool, true, false, Option, none, some, List, [], ◌∷◌, ◌≡◌, refl, ◌⊎◌, inl, inr,
}

-- A Rust `String`, as its `char`s.
abbrev pub Text : Type 0
Text = List ℕ

pub data DataBaseErrors : Type 0 where
  column_already_exists : Text → DataBaseErrors
  column_not_found : ℕ → DataBaseErrors
  index_not_found : Text → DataBaseErrors
  index_exist : Text → DataBaseErrors
  null_value : DataBaseErrors
  unique_constraint : Text → DataBaseErrors
  foreign_key_violation : Text → DataBaseErrors
  check_constraint_unsupported : Text → DataBaseErrors
  row_not_found : ℕ → DataBaseErrors
  row_column_duplicate : ℕ → ℕ → DataBaseErrors
  data_type_mismatch : ℕ → String → String → DataBaseErrors
  table_already_exists : Text → DataBaseErrors
  table_not_found : Text → DataBaseErrors
  table_id_not_found : ℕ → DataBaseErrors
  serialization_error : String → DataBaseErrors
  deserialization_error : String → DataBaseErrors
  query_error : String → DataBaseErrors
  io_error : String → DataBaseErrors

pub data Result {ℓ} (A : Type ℓ) : Type ℓ where
  ok : A → Result A
  err : DataBaseErrors → Result A

-- `match r { Err(e) => return Err(e), Ok(v) => … }`, which `?` stands for.
infixl 5 ◌>>=◌
abbrev pub ◌>>=◌ {κ ℓ} : {V : Type ℓ} {W : Type κ} → Result V → (V → Result W) → Result W
err failure >>= next = err failure
ok value >>= next = next value

infixl 5 ◌>>◌
-- `?` where the value is `()`.
abbrev pub ◌>>◌ {κ} : {B : Type κ} → Result (Unit {0}) → Result B → Result B
err failure >> next = err failure
ok _ >> next = next

-- `if c { return Err(e) }`
abbrev pub fail_if : Bool → DataBaseErrors → Result (Unit {0})
fail_if true e = err e
fail_if false e = ok tt

module _ {ℓ} {A : Type ℓ} where
  -- `Option::ok_or`
  abbrev pub ok_or : Option A → DataBaseErrors → Result A
  ok_or none e = err e
  ok_or (some a) e = ok a

  abbrev pub is_ok : Result A → Bool
  is_ok (ok _) = true
  is_ok (err _) = false

module _ {ℓ κ} {A : Type ℓ} {B : Type κ} where
  -- `iter().map(f).collect::<Result<Vec<_>, _>>()`: the first error ends it.
  abbrev pub collect : (A → Result B) → List A → Result (List B)
  collect f [] = ok []
  collect f (x ∷ xs) = let rest = collect f xs in do y ← f x; ys ← rest; ok (y ∷ ys)

pub Result-cases {ℓ} :
    {A : Type ℓ} (m : Result A) → ((a : A) × (m ≡ ok a)) ⊎ ((e : DataBaseErrors) × (m ≡ err e))
Result-cases (ok a) = inl (a, refl)
Result-cases (err e) = inr (e, refl)
