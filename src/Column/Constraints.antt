-- ===== src/Column/Constraints.antt =====
-- src/backend/core/column.rs, `Constraint`, in a `BTreeSet` (ascending in the derived order).
use Prim.Native.Nat.{compare, Ordering}
use ant_db.Common.{ℕ, Bool, false, ◌||◌, List, [], ◌∷◌}
use ant_db.Row.Entry.{ColumnId, then_compare, is_eq}

abbrev pub TableId : Type 0
TableId = ℕ

pub data Constraint : Type 0 where
  not_null unique primary_key : Constraint
  foreign_key : TableId → ColumnId → Constraint
  check auto_increment : Constraint

abbrev pub constraint_rank : Constraint → ℕ
constraint_rank not_null = 0
constraint_rank unique = 1
constraint_rank primary_key = 2
constraint_rank (foreign_key _ _) = 3
constraint_rank check = 4
constraint_rank auto_increment = 5

abbrev pub compare_constraint : Constraint → Constraint → Ordering
compare_constraint (foreign_key t c) (foreign_key t' c') =
    then_compare (compare t t') (compare c c')
compare_constraint a b = compare (constraint_rank a) (constraint_rank b)

-- `BTreeSet::contains`
abbrev pub has_constraint : Constraint → List Constraint → Bool
has_constraint c [] = false
has_constraint c (x ∷ xs) = is_eq (compare_constraint x c) || has_constraint c xs

-- `BTreeSet::insert`
abbrev pub insert_constraint : Constraint → List Constraint → List Constraint
insert_constraint c [] = c ∷ []
insert_constraint c (x ∷ xs) = elim (compare_constraint c x) [
  | Ordering.lt ↦ c ∷ x ∷ xs
  | Ordering.eq ↦ x ∷ xs
  | Ordering.gt ↦ x ∷ insert_constraint c xs
]

-- `extend`
abbrev pub extend_constraints : List Constraint → List Constraint → List Constraint
extend_constraints cs [] = cs
extend_constraints cs (x ∷ xs) = extend_constraints (insert_constraint x cs) xs
