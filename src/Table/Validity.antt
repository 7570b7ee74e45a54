-- ===== src/Table/Validity.antt =====
-- What a row that passes `validate_row_data` of src/backend/core/table.rs satisfies.
use ant_db.Common.{
  ◌≡◌, refl, ◌⊎◌, Bool, ◌==◌, inl, inr, true, Option, none, some, [], ◌∷◌, NatMap, All, arith,
  Option-cases, Bool-cases,
}
use ant_db.Errors.{ok, Result-cases}
use ant_db.Txn.{Transaction}
use ant_db.Row.Entry.{
  DataBaseDataEntry, DataBaseDataType, data_type, type_rank, Primitives, RowData, RowId, ColumnId,
}
use ant_db.Column.{Column, InternalColumn, get_versioned_column}
use ant_db.Column.Validate.{FkLookup, Satisfies, schema_validation, version_validation-Satisfies}
use ant_db.Pages.Defs.{Sizes}
use ant_db.Pages.{Space}
use ant_db.Table.{
  validate_data_type, value_or_null, versioned_column_entry, validate_column, validate_row_data,
}

-- A value is of the type, or is NULL where that is taken.
abbrev pub IsTyped : DataBaseDataEntry → DataBaseDataType → Bool → Type 0
IsTyped value type nullable =
    (data_type value ≡ type) ⊎ ((nullable ≡ true) × (value ≡ DataBaseDataEntry.null))

type_rank-injective : (a b : DataBaseDataType) → type_rank a ≡ type_rank b → a ≡ b
type_rank-injective a b h = ground arith

null_of_rank :
    (value : DataBaseDataEntry)
    → type_rank (data_type value) ≡ type_rank DataBaseDataType.null
    → value ≡ DataBaseDataEntry.null
null_of_rank DataBaseDataEntry.null h = refl
null_of_rank value h = absurd (ground arith)

validate_data_type-IsTyped :
    (value : DataBaseDataEntry) (type : DataBaseDataType) (nullable : Bool)
    → validate_data_type value type nullable ≡ true
    → IsTyped value type nullable
unfolding validate_data_type
validate_data_type-IsTyped value type nullable h =
    elim (Bool-cases (type_rank (data_type value) == type_rank type)) [
      | inl same ↦ inl (type_rank-injective (data_type value) type (ground arith))
      | inr other ↦ inr (ground arith, null_of_rank value (ground arith))
    ]

module _ (p : Primitives) (sizes : Sizes) (fk : FkLookup) (txn : Transaction) (values : RowData)
    (exclude : Option RowId) (t : Space) where
  -- A value has the type of the column, or is NULL in a column that takes it, and satisfies each of
  -- the column's constraints; a column that the transaction does not see asks nothing.
  abbrev pub IsValidAt : ColumnId → Option InternalColumn → Type 0
  IsValidAt id none = Unit
  IsValidAt id (some version) =
      IsTyped (value_or_null id values) version.data_type version.is_nullable
      × All
          (Satisfies p (versioned_column_entry p sizes fk txn exclude id t) fk exclude version
            (value_or_null id values))
          version.constraints

  abbrev pub IsValidRow : NatMap Column → Type 0
  IsValidRow columns = All (λ c. IsValidAt c.0 (get_versioned_column txn c.1)) columns

  validate_column-IsValidAt :
      (id : ColumnId) (c : Column)
      → validate_column p sizes fk txn values exclude t id c ≡ ok tt
      → IsValidAt id (get_versioned_column txn c)
  unfolding validate_column schema_validation
  validate_column-IsValidAt id c h = elim (Option-cases (get_versioned_column txn c)) [
    | inl unseen ↦ rw (unseen) tt
    | inr (version, e) ↦
        elim (Bool-cases
          (validate_data_type (value_or_null id values) version.data_type version.is_nullable)) [
            | inr wrong ↦ absurd (ground arith)
            | inl right ↦ rw (e) (
              validate_data_type-IsTyped (value_or_null id values) version.data_type
                  version.is_nullable right,
              version_validation-Satisfies p (versioned_column_entry p sizes fk txn exclude id t) fk
                  exclude version (value_or_null id values) (ground arith),
            )
          ]
  ]

  pub validate_row_data-IsValidRow :
      (columns : NatMap Column)
      → validate_row_data p sizes fk txn values exclude t columns ≡ ok tt
      → IsValidRow columns
  unfolding validate_row_data
  validate_row_data-IsValidRow [] h = tt
  validate_row_data-IsValidRow ((id, c) ∷ columns) h =
      elim (Result-cases (validate_column p sizes fk txn values exclude t id c)) [
        | inr (failure, e) ↦ absurd (ground arith)
        | inl (_, e) ↦
            (validate_column-IsValidAt id c e, validate_row_data-IsValidRow columns (ground arith))
      ]
