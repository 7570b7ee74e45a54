-- ===== src/Column/Validate.antt =====
-- src/backend/core/column.rs, `schema_validation`: the check of one value against the constraints of a
-- column, and what a value that passes satisfies.
use ant_db.Common.{
  ◌≡◌, ap, ◌⊎◌, inl, inr, Bool, true, false, not, Option, none, some, List, [], ◌∷◌, ◌==◌,
  if◌then◌else◌, arith, lookup, contains, All, Option-cases, Bool-cases, ==_iff,
}
use ant_db.Errors.{
  Text, null_value, unique_constraint, index_not_found, foreign_key_violation,
  check_constraint_unsupported, Result, ok, err, ◌>>=◌, ◌>>◌, Result-cases, fail_if,
}
use ant_db.Txn.{Transaction}
use ant_db.Row.Entry.{DataBaseDataEntry, ColumnId, RowId, Primitives, key, entry_eq, is_null}
use ant_db.Column.Constraints.{
  TableId, Constraint, not_null, unique, primary_key, foreign_key, check, auto_increment,
}
use ant_db.Column.Entries.{Index, leads_to}
use ant_db.Column.{InternalColumn, Column, get_versioned_column}

-- The `lookup` and `fk_lookup` closures of the caller.
abbrev pub RowLookup : Type 0
RowLookup = RowId → Result (Option DataBaseDataEntry)

abbrev pub FkLookup : Type 0
FkLookup = TableId → ColumnId → DataBaseDataEntry → Result Bool

-- `Some(row_id) == exclude_row_id`
abbrev pub is_excluded : Option RowId → RowId → Bool
is_excluded none r = false
is_excluded (some x) r = r == x

module _ (p : Primitives) (find_row : RowLookup) (fk : FkLookup) (exclude : Option RowId) where
  -- `if let Some(lookup_value) = … { if lookup_value == *value { return Err(…) } }`
  abbrev pub clash : DataBaseDataEntry → Option DataBaseDataEntry → Bool
  clash value none = false
  clash value (some v) = entry_eq p v value

  -- The loop over the row ids that the index gives for the value's key.
  unfoldable pub check_rows : Text → DataBaseDataEntry → List RowId → Result (Unit {0})
  check_rows name value [] = ok tt
  check_rows name value (r ∷ ids) =
      let rest = check_rows name value ids in
      let round : Result (Unit {0}) = (do
        found ← find_row r
        fail_if (clash value found) (unique_constraint name)
        rest) in
      if is_excluded exclude r then rest else round

  unfoldable pub check_unique : InternalColumn → DataBaseDataEntry → Result (Unit {0})
  unfolding check_rows
  check_unique c value = elim c.index [
    | none ↦ err (index_not_found c.name)
    | some index ↦ elim (lookup (key p value) index) [
      | none ↦ ok tt
      | some ids ↦ check_rows c.name value ids
    ]
  ]

  -- One round of the loop over the constraints.
  unfoldable pub check_constraint :
      InternalColumn → DataBaseDataEntry → Constraint → Result (Unit {0})
  check_constraint c value not_null = fail_if (is_null value) null_value
  check_constraint c value unique = check_unique c value
  check_constraint c value primary_key = check_unique c value
  check_constraint c value (foreign_key t col) =
      let asked : Result (Unit {0}) = (do
        found ← fk t col value
        fail_if (not found) (foreign_key_violation c.name)) in
      if is_null value then ok tt else asked
  check_constraint c value check =
      fail_if (not (is_null value)) (check_constraint_unsupported c.name)
  check_constraint c value auto_increment = ok tt

  pub check_all : InternalColumn → DataBaseDataEntry → List Constraint → Result (Unit {0})
  check_all c value [] = ok tt
  check_all c value (x ∷ xs) =
      let rest = check_all c value xs in do check_constraint c value x; rest

  -- `InternalColumn::schema_validation`
  unfoldable pub version_validation : InternalColumn → DataBaseDataEntry → Result (Unit {0})
  unfolding check_all
  version_validation c value = check_all c value c.constraints

  -- `Column::schema_validation`
  unfoldable pub schema_validation : Column → DataBaseDataEntry → Transaction → Result (Unit {0})
  schema_validation c value txn = elim (get_versioned_column txn c) [
    | none ↦ ok tt
    | some version ↦ version_validation version value
  ]

  -- No row but the excluded one that the index knows under the value's key holds an equal value.
  abbrev pub IsUnique : InternalColumn → DataBaseDataEntry → Type 0
  IsUnique c value = elim c.index [
    | none ↦ ⊥
    | some index ↦
        (r : RowId)
        → leads_to (key p value) r index ≡ true
        → is_excluded exclude r ≡ false
        → (found : Option DataBaseDataEntry) × (find_row r ≡ ok found)
          × ((v : DataBaseDataEntry) → found ≡ some v → entry_eq p v value ≡ false)
  ]

  -- What each constraint demands of a value.
  abbrev pub Satisfies : InternalColumn → DataBaseDataEntry → Constraint → Type 0
  Satisfies c value not_null = is_null value ≡ false
  Satisfies c value unique = IsUnique c value
  Satisfies c value primary_key = IsUnique c value
  Satisfies c value (foreign_key t col) = (is_null value ≡ true) ⊎ (fk t col value ≡ ok true)
  Satisfies c value check = is_null value ≡ true
  Satisfies c value auto_increment = Unit

  -- The first row of a loop that passes: it is excluded, or it was found and does not clash.
  check_rows_head :
      (name : Text) (value : DataBaseDataEntry) (r : RowId) (ids : List RowId)
      → check_rows name value (r ∷ ids) ≡ ok tt
      → is_excluded exclude r ≡ false
      → (found : Option DataBaseDataEntry) × (find_row r ≡ ok found) × (clash value found ≡ false)
  unfolding check_rows
  check_rows_head name value r ids h x = elim (Result-cases (find_row r)) [
    | inl (found, e) ↦ (found, e, ground arith)
    | inr (e, failed) ↦ absurd (ground arith)
  ]

  check_rows_tail :
      (name : Text) (value : DataBaseDataEntry) (r : RowId) (ids : List RowId)
      → check_rows name value (r ∷ ids) ≡ ok tt
      → check_rows name value ids ≡ ok tt
  unfolding check_rows
  check_rows_tail name value r ids h = elim (Result-cases (find_row r)) [
    | inl (found, e) ↦ ground arith
    | inr (e, failed) ↦ ground arith
  ]

  check_rows_sound :
      (name : Text) (value : DataBaseDataEntry) (ids : List RowId)
      → check_rows name value ids ≡ ok tt
      → (r : RowId) → contains r ids ≡ true
      → is_excluded exclude r ≡ false
      → (found : Option DataBaseDataEntry) × (find_row r ≡ ok found) × (clash value found ≡ false)
  check_rows_sound name value [] h r m x = absurd (cc)
  check_rows_sound name value (a ∷ ids) h r m x =
      let later = check_rows_sound name value ids (check_rows_tail name value a ids h) r in
      elim (Bool-cases (a == r)) [
        | inl same ↦
            let e : a ≡ r = (==_iff a r).0 same in check_rows_head name value r ids (rw (← e) h) x
        | inr other ↦ later (ground arith) x
      ]

  -- The uniqueness check under an index that is there.
  abbrev check_index : InternalColumn → DataBaseDataEntry → Index → Result (Unit {0})
  check_index c value index = elim (lookup (key p value) index) [
    | none ↦ ok tt
    | some ids ↦ check_rows c.name value ids
  ]

  check_index_sound :
      (c : InternalColumn) (value : DataBaseDataEntry) (index : Index)
      → check_index c value index ≡ ok tt
      → (r : RowId) → leads_to (key p value) r index ≡ true
      → is_excluded exclude r ≡ false
      → (found : Option DataBaseDataEntry) × (find_row r ≡ ok found)
        × ((v : DataBaseDataEntry) → found ≡ some v → entry_eq p v value ≡ false)
  check_index_sound c value index h r m x = elim (Option-cases (lookup (key p value) index)) [
    | inl absent ↦ absurd (ground arith)
    | inr (ids, e) ↦
        let (found, read, differs) =
          check_rows_sound c.name value ids (ground arith) r (ground arith) x in
        (found, read, λ v e'. rw (← ap (clash value) e') differs)
  ]

  check_unique_sound :
      (c : InternalColumn) (value : DataBaseDataEntry)
      → check_unique c value ≡ ok tt
      → IsUnique c value
  unfolding check_unique
  check_unique_sound c value h = elim (Option-cases c.index) [
    | inl missing ↦ absurd (ground arith)
    | inr (index, e) ↦ rw (e, IsUnique) (check_index_sound c value index (rw (← h) (ground arith)))
  ]

  check_constraint_sound :
      (c : InternalColumn) (value : DataBaseDataEntry) (x : Constraint)
      → check_constraint c value x ≡ ok tt
      → Satisfies c value x
  unfolding check_constraint
  check_constraint_sound c value not_null h = ground arith
  check_constraint_sound c value unique h = check_unique_sound c value h
  check_constraint_sound c value primary_key h = check_unique_sound c value h
  check_constraint_sound c value (foreign_key t col) h = ground arith
  check_constraint_sound c value check h = ground arith
  check_constraint_sound c value auto_increment h = tt

  check_all_sound :
      (c : InternalColumn) (value : DataBaseDataEntry) (xs : List Constraint)
      → check_all c value xs ≡ ok tt
      → All (Satisfies c value) xs
  unfolding check_all
  check_all_sound c value [] h = tt
  check_all_sound c value (x ∷ xs) h = elim (Result-cases (check_constraint c value x)) [
    | inl (u, e) ↦ (check_constraint_sound c value x e, check_all_sound c value xs (ground arith))
    | inr (e, failed) ↦ absurd (ground arith)
  ]

  -- A value that passes the validation satisfies every constraint of the column.
  pub version_validation-Satisfies :
      (c : InternalColumn) (value : DataBaseDataEntry)
      → version_validation c value ≡ ok tt
      → All (Satisfies c value) c.constraints
  unfolding version_validation
  version_validation-Satisfies c value h = check_all_sound c value c.constraints h
