-- ===== src/Common/Maps.antt =====
-- `BTreeMap` and `BTreeSet` with number keys, as lists in ascending order of the keys. Hash maps and
-- hash sets use them too where the program does not read their order.
use Prim.Native.Nat.{ℕ}
use mathlib.Core.Path.{◌≡◌, refl}
use mathlib.Core.Bool.{Bool, false, ◌||◌}
use mathlib.Core.List.{List, [], ◌∷◌}
use mathlib.Core.Option.{Option, none, some}
use native.Mathlib.Omega.{arith}
use ant_db.Common.Tests.{ltb, ◌==◌, if◌then◌else◌}

abbrev pub NatMap {ℓ} : Type ℓ → Type ℓ
NatMap V = List (ℕ × V)

module _ {ℓ} {V : Type ℓ} where
  abbrev pub lookup : ℕ → NatMap V → Option V
  lookup k [] = none
  lookup k ((j, v) ∷ m) = if j == k then some v else lookup k m

  abbrev pub insert : ℕ → V → NatMap V → NatMap V
  insert k v [] = (k, v) ∷ []
  insert k v ((j, w) ∷ m) =
      let rest = insert k v m in
      if j == k then (k, v) ∷ m else if ltb k j then (k, v) ∷ (j, w) ∷ m else (j, w) ∷ rest

  abbrev pub erase : ℕ → NatMap V → NatMap V
  erase k [] = []
  erase k ((j, v) ∷ m) = let rest = erase k m in if j == k then rest else (j, v) ∷ rest

  abbrev pub keys : NatMap V → List ℕ
  keys [] = []
  keys ((k, v) ∷ m) = k ∷ keys m

  abbrev pub values : NatMap V → List V
  values [] = []
  values ((k, v) ∷ m) = v ∷ values m

  pub lookup-insert :
      (k j : ℕ) (v : V) (m : NatMap V)
      → lookup j (insert k v m) ≡ (if k == j then some v else lookup j m)
  lookup-insert k j v [] = refl
  lookup-insert k j v ((i, w) ∷ m) = ground (arith, lookup-insert k j v m)

  pub lookup-erase :
      (k j : ℕ) (m : NatMap V) → lookup j (erase k m) ≡ (if k == j then none else lookup j m)
  lookup-erase k j [] = ground arith
  lookup-erase k j ((i, w) ∷ m) = ground (arith, lookup-erase k j m)

module _ {ℓ κ} {V : Type ℓ} {W : Type κ} where
  -- a `for` loop over `iter_mut()`
  abbrev pub map_values : (V → W) → NatMap V → NatMap W
  map_values f [] = []
  map_values f ((k, v) ∷ m) = (k, f v) ∷ map_values f m

abbrev pub contains : ℕ → List ℕ → Bool
contains a [] = false
contains a (x ∷ xs) = x == a || contains a xs

abbrev pub insert_key : ℕ → List ℕ → List ℕ
insert_key a [] = a ∷ []
insert_key a (x ∷ xs) =
    let rest = insert_key a xs in
    if x == a then x ∷ xs else if ltb a x then a ∷ x ∷ xs else x ∷ rest

abbrev pub remove_key : ℕ → List ℕ → List ℕ
remove_key a [] = []
remove_key a (x ∷ xs) = let rest = remove_key a xs in if x == a then rest else x ∷ rest

pub contains-insert_key :
    (a b : ℕ) (xs : List ℕ) → contains b (insert_key a xs) ≡ (a == b || contains b xs)
contains-insert_key a b [] = refl
contains-insert_key a b (x ∷ xs) = ground (arith, contains-insert_key a b xs)

pub contains-remove_key :
    (a b : ℕ) (xs : List ℕ)
    → contains b (remove_key a xs) ≡ (if a == b then false else contains b xs)
contains-remove_key a b [] = ground arith
contains-remove_key a b (x ∷ xs) = ground (arith, contains-remove_key a b xs)

-- No element stands in a list twice.
abbrev pub AreDistinct : List ℕ → Type 0
AreDistinct [] = Unit
AreDistinct (x ∷ xs) = (contains x xs ≡ false) × AreDistinct xs
