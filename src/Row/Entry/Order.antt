-- ===== src/Row/Entry/Order.antt =====
-- Equality of entries, and the index key.
use Prim.Native.Nat.{compare, Ordering}
use ant_db.Common.{ℕ, ◌≡◌, refl, Bool, true, false, List, [], ◌∷◌, arith, ap}
use ant_db.Common.Int.{compare_ℤ-eq}
use ant_db.Row.Entry.{DataBaseDataEntry, Primitives, key, compare_list, entry_eq, bool_code, is_eq}

abbrev pub is_float : DataBaseDataEntry → Bool
is_float (DataBaseDataEntry.float_f32 _) = true
is_float (DataBaseDataEntry.float_f64 _) = true
is_float _ = false

pub compare_list-eq : (a b : List ℕ) → compare_list a b ≡ Ordering.eq → a ≡ b
unfolding compare_list
compare_list-eq [] [] h = refl
compare_list-eq [] (_ ∷ _) h = cc
compare_list-eq (_ ∷ _) [] h = cc
compare_list-eq (x ∷ xs) (y ∷ ys) h = ground (arith, compare_list-eq xs ys)

pub compare_list_refl : (a : List ℕ) → compare_list a a ≡ Ordering.eq
unfolding compare_list
compare_list_refl [] = refl
compare_list_refl (x ∷ xs) = ground (arith, compare_list_refl xs)

bool_code-injective : (a b : Bool) → compare (bool_code a) (bool_code b) ≡ Ordering.eq → a ≡ b
bool_code-injective true true h = refl
bool_code-injective false false h = refl
bool_code-injective true false h = ground arith
bool_code-injective false true h = ground arith

-- Entries that compare equal and are no floats are the same entry.
pub entry_eq-eq :
    (p : Primitives) (a b : DataBaseDataEntry) → is_float a ≡ false → entry_eq p a b ≡ true → a ≡ b
unfolding entry_eq
entry_eq-eq p (DataBaseDataEntry.integer_i8 x) (DataBaseDataEntry.integer_i8 y) f h =
    ground (arith, compare_ℤ-eq x y)
entry_eq-eq p (DataBaseDataEntry.integer_i16 x) (DataBaseDataEntry.integer_i16 y) f h =
    ground (arith, compare_ℤ-eq x y)
entry_eq-eq p (DataBaseDataEntry.integer_i32 x) (DataBaseDataEntry.integer_i32 y) f h =
    ground (arith, compare_ℤ-eq x y)
entry_eq-eq p (DataBaseDataEntry.integer_i64 x) (DataBaseDataEntry.integer_i64 y) f h =
    ground (arith, compare_ℤ-eq x y)
entry_eq-eq p (DataBaseDataEntry.integer_i128 x) (DataBaseDataEntry.integer_i128 y) f h =
    ground (arith, compare_ℤ-eq x y)
entry_eq-eq p (DataBaseDataEntry.timestamp x) (DataBaseDataEntry.timestamp y) f h =
    ground (arith, compare_ℤ-eq x y)
entry_eq-eq p (DataBaseDataEntry.string x) (DataBaseDataEntry.string y) f h =
    ground (arith, compare_list-eq x y)
entry_eq-eq p (DataBaseDataEntry.bytes x) (DataBaseDataEntry.bytes y) f h =
    ground (arith, compare_list-eq x y)
entry_eq-eq p (DataBaseDataEntry.boolean x) (DataBaseDataEntry.boolean y) f h =
    ground (arith, bool_code-injective x y)
entry_eq-eq p a b f h = ground arith

-- The index never separates equal values: entries that `==` calls equal, floats apart, have one key.
pub key-entry_eq :
    (p : Primitives) (a b : DataBaseDataEntry)
    → is_float a ≡ false
    → entry_eq p a b ≡ true
    → key p a ≡ key p b
key-entry_eq p a b f h = ap (key p) (entry_eq-eq p a b f h)

compare_list_comm : (a b : List ℕ) → is_eq (compare_list a b) ≡ is_eq (compare_list b a)
unfolding compare_list
compare_list_comm [] [] = refl
compare_list_comm [] (_ ∷ _) = refl
compare_list_comm (_ ∷ _) [] = refl
compare_list_comm (x ∷ xs) (y ∷ ys) = ground (arith, compare_list_comm xs ys)

-- If equality of floats is symmetric, so is equality of entries.
pub entry_eq_comm :
    (p : Primitives)
    → ((a b : ℕ) → is_eq (p.compare_f32 a b) ≡ is_eq (p.compare_f32 b a))
    → ((a b : ℕ) → is_eq (p.compare_f64 a b) ≡ is_eq (p.compare_f64 b a))
    → (a b : DataBaseDataEntry) → entry_eq p a b ≡ entry_eq p b a
unfolding entry_eq
entry_eq_comm p f g (DataBaseDataEntry.float_f32 x) (DataBaseDataEntry.float_f32 y) = f x y
entry_eq_comm p f g (DataBaseDataEntry.float_f64 x) (DataBaseDataEntry.float_f64 y) = g x y
entry_eq_comm p f g (DataBaseDataEntry.string x) (DataBaseDataEntry.string y) =
    compare_list_comm x y
entry_eq_comm p f g (DataBaseDataEntry.bytes x) (DataBaseDataEntry.bytes y) = compare_list_comm x y
entry_eq_comm p f g a b = ground arith
