-- ===== src/Column.antt =====
-- src/backend/core/column.rs: columns as lists of versions, each with its constraints and its index.
pub mod Constraints
pub mod Entries
pub mod Validate
pub mod Rollback
use Prim.Native.String.{String}
use ant_db.Common.{
  ℕ, ◌≡◌, refl, Bool, true, false, not, ◌&&◌, ◌||◌, Option, none, some, List, [], ◌∷◌, ◌++◌, ◌==◌,
  if◌then◌else◌, map, lookup, NatMap, retain,
}
use ant_db.Errors.{
  Text, DataBaseErrors, query_error, index_not_found, index_exist, Result, ok, err, ◌>>=◌, ◌>>◌,
}
use ant_db.Txn.{TransactionId, Transaction, TransactionHeader}
use ant_db.Versions.{
  Versioned, latest, modify_latest, remove_latest, rollback, undo, prune_versions, is_retained,
}
use ant_db.Row.Entry.{DataBaseDataType, DataBaseDataEntry, ColumnId, RowId, Primitives, key}
use ant_db.Row.{Row, get_versioned_row}
use ant_db.Column.Constraints.{Constraint, not_null, unique, primary_key, has_constraint}
use ant_db.Column.Entries.{
  Index, AddedBy, index_insert, index_remove, put_added, drop_added, entries_of, remove_entries,
  prune_entries, is_empty_index,
}

pub record InternalColumn : Type 0 where
  pub transaction_header : TransactionHeader
  pub column_id : ColumnId
  pub name : Text
  pub data_type : DataBaseDataType
  pub constraints : List Constraint
  pub index : Option Index
  pub index_added_by : AddedBy
  pub is_nullable : Bool

pub record Column : Type 0 where
  pub versions : List InternalColumn

abbrev pub column_versioned : Versioned InternalColumn InternalColumn
column_versioned = record {
  header = λ v. v.transaction_header;
  set_deleted_by = λ d v. record v {
    transaction_header = record { created_by = v.transaction_header.created_by; deleted_by = d };
  };
  payload = λ v. record v {
    transaction_header = record { created_by = v.transaction_header.created_by; deleted_by = none };
  };
  header-set = λ d v. refl;
  payload-set = λ d v. refl;
  set-set = λ d e v. refl;
  set_self = λ v. refl;
}

-- The constraints that are enforced through the index.
abbrev pub wants_index : List Constraint → Bool
wants_index cs = has_constraint primary_key cs || has_constraint unique cs

-- `InternalColumn::new`
unfoldable pub new_version :
    ColumnId → Text → DataBaseDataType → List Constraint → Transaction → InternalColumn
new_version id name type cs txn = record {
  transaction_header = record { created_by = txn.transaction_id; deleted_by = none };
  column_id = id;
  name = name;
  data_type = type;
  constraints = cs;
  index = if wants_index cs then some [] else none;
  index_added_by = [];
  is_nullable = not (has_constraint not_null cs);
}

-- `InternalColumn::is_indexed`
abbrev pub version_is_indexed : InternalColumn → Bool
version_is_indexed c = elim c.index [ none ↦ false | some _ ↦ true ]

module _ (p : Primitives) where
  -- `InternalColumn::index_lookup`
  unfoldable pub version_index_lookup : DataBaseDataEntry → InternalColumn → Option (List RowId)
  version_index_lookup value c = elim c.index [
    | none ↦ none
    | some index ↦ lookup (key p value) index
  ]

  -- `InternalColumn::index_row`: the changed version, and whether the row was indexed.
  unfoldable pub version_index_row :
      RowId → Row → Transaction → InternalColumn → Bool × InternalColumn
  version_index_row row_id row txn c = elim c.index [
    | none ↦ (false, c)
    | some index ↦ elim (get_versioned_row txn row) [
      | none ↦ (false, c)
      | some version ↦ elim (lookup c.column_id version.row_data) [
        | none ↦ (false, c)
        | some value ↦ (true, record c { index = some (index_insert (key p value) row_id index) })
      ]
    ]
  ]

  -- `InternalColumn::update_index`
  unfoldable pub version_update_index :
      ColumnId → DataBaseDataEntry → RowId → TransactionId → InternalColumn → InternalColumn
  version_update_index id value row_id txn_id c = elim c.index [
    | none ↦ c
    | some index ↦ record c {
      index = some (index_insert (key p value) row_id index);
      index_added_by = put_added (key p value) row_id txn_id c.index_added_by;
    }
  ]

  -- `InternalColumn::remove_from_index`
  unfoldable pub version_remove_from_index :
      ColumnId → DataBaseDataEntry → RowId → InternalColumn → InternalColumn
  version_remove_from_index id value row_id c = elim c.index [
    | none ↦ c
    | some index ↦ record c {
      index = some (index_remove (key p value) row_id index);
      index_added_by = drop_added (key p value) row_id c.index_added_by;
    }
  ]

-- `InternalColumn::ensure_index_empty`
unfoldable pub ensure_index_empty : InternalColumn → Result InternalColumn
ensure_index_empty c = elim c.index [
  | none ↦ ok (record c { index = some [] })
  | some index ↦ if is_empty_index index then ok c else err (index_exist c.name)
]

-- `InternalColumn::rollback_index_transaction`
unfoldable pub rollback_index : TransactionId → InternalColumn → InternalColumn
rollback_index txn_id c = elim c.index [
  | none ↦ record c { index_added_by = retain (λ e. not (e.2 == txn_id)) c.index_added_by }
  | some index ↦
      let to_remove = entries_of txn_id c.index_added_by in
      let (index', added') = remove_entries to_remove index c.index_added_by in
      record c { index = some index'; index_added_by = added' }
]

module _ {ℓ} {S : Type ℓ} (is_alive : RowId → S → Bool × S) where
  -- `InternalColumn::prune`
  unfoldable pub prune_version_index : InternalColumn → S → InternalColumn × S
  unfolding prune_entries
  prune_version_index c s = elim c.index [
    | none ↦ (c, s)
    | some index ↦
        let ((index', added'), t) = prune_entries is_alive index c.index_added_by s in
        (record c { index = some index'; index_added_by = added' }, t)
  ]

  -- `Column::prune_index`
  unfoldable pub prune_index : List InternalColumn → S → List InternalColumn × S
  unfolding prune_version_index
  prune_index [] s = ([], s)
  prune_index (c ∷ cs) s =
      let (c', t) = prune_version_index c s in let (cs', u) = prune_index cs t in (c' ∷ cs', u)

  -- `Column::prune`
  unfoldable pub prune_column : TransactionId → Column → S → Column × S
  unfolding prune_index
  prune_column oldest c s =
      let (versions, t) = prune_index (prune_versions column_versioned oldest c.versions) s in
      (record { versions = versions }, t)

-- `Column::new`
unfoldable pub new_column :
    ColumnId → Text → DataBaseDataType → List Constraint → Transaction → Column
new_column id name type cs txn = record { versions = new_version id name type cs txn ∷ [] }

-- `Column::remove`
unfoldable pub remove_column : Transaction → Column → Column
remove_column txn c = record { versions = remove_latest column_versioned txn c.versions }

-- `Column::get_versioned_column`
unfoldable pub get_versioned_column : Transaction → Column → Option InternalColumn
get_versioned_column txn c = latest column_versioned txn c.versions

abbrev pub unwrap_or {ℓ} : {A : Type ℓ} → Option A → A → A
unwrap_or none d = d
unwrap_or (some a) d = a

-- The version that `Column::update` pushes behind `current`.
abbrev pub updated_version :
    Option Text
    → Option DataBaseDataType
    → Option (List Constraint)
    → Transaction
    → InternalColumn
    → InternalColumn
updated_version name type cs txn current =
    let new_constraints = unwrap_or cs current.constraints in
    record {
      transaction_header = record { created_by = txn.transaction_id; deleted_by = none };
      column_id = current.column_id;
      name = unwrap_or name current.name;
      data_type = unwrap_or type current.data_type;
      constraints = new_constraints;
      index = if wants_index new_constraints then some (unwrap_or current.index []) else none;
      index_added_by = current.index_added_by;
      is_nullable = not (has_constraint not_null new_constraints);
    }

-- `Column::update`
unfoldable pub update_column :
    Option Text → Option DataBaseDataType → Option (List Constraint) → Transaction → Column → Column
unfolding get_versioned_column
update_column name type cs txn c = elim (get_versioned_column txn c) [
  | none ↦ c
  | some current ↦ record {
    versions =
        remove_latest column_versioned txn c.versions
        ++ updated_version name type cs txn current ∷ [];
  }
]

-- `Column::rollback_transaction`
unfoldable pub rollback_column : TransactionId → Column → Column
rollback_column id c = record {
  versions = map (λ v. undo column_versioned id (rollback_index id v)) c.versions;
}

abbrev pub no_version_building : DataBaseErrors
no_version_building = query_error "No visible column version found while building index"

-- `Column::ensure_index_ready`
unfoldable pub ensure_index_ready : Transaction → Column → Result Column
unfolding get_versioned_column ensure_index_empty
ensure_index_ready txn c = elim (get_versioned_column txn c) [
  | none ↦ err no_version_building
  | some version ↦ do
    version' ← ensure_index_empty version
    ok (record { versions = (modify_latest column_versioned txn (λ _. version') c.versions).1 })
]

-- `Column::drop_index`
unfoldable pub drop_index : Transaction → Column → Result Column
unfolding get_versioned_column
drop_index txn c = elim (get_versioned_column txn c) [
  | none ↦ err (query_error "No visible column version found while dropping index")
  | some version ↦
      if wants_index version.constraints
      then err (
          query_error
            "Cannot drop index on a column that enforces a PRIMARY KEY or UNIQUE constraint")
      else elim version.index [
        | none ↦ err (index_not_found version.name)
        | some _ ↦ ok (record {
          versions =
              (modify_latest column_versioned txn (λ v. record v { index = none }) c.versions).1;
        })
      ]
]

-- `Column::is_indexed`
unfoldable pub is_indexed : Transaction → Column → Bool
unfolding get_versioned_column
is_indexed txn c = elim (get_versioned_column txn c) [
  | none ↦ false
  | some version ↦ version_is_indexed version
]

module _ (p : Primitives) where
  -- `Column::index_row`
  unfoldable pub index_row : RowId → Row → Transaction → Column → Bool × Column
  unfolding get_versioned_column
  index_row row_id row txn c = (
    elim (get_versioned_column txn c) [
      | none ↦ false
      | some version ↦ (version_index_row p row_id row txn version).0
    ],
    record {
      versions =
          (modify_latest column_versioned txn (λ v. (version_index_row p row_id row txn v).1)
            c.versions).1;
    },
  )

  -- `Column::update_index`
  unfoldable pub update_index : ColumnId → DataBaseDataEntry → RowId → Transaction → Column → Column
  update_index id value row_id txn c = record {
    versions =
        (modify_latest column_versioned txn
          (version_update_index p id value row_id txn.transaction_id) c.versions).1;
  }

  -- `Column::index_lookup`
  unfoldable pub index_lookup : DataBaseDataEntry → Transaction → Column → Option (List RowId)
  unfolding get_versioned_column
  index_lookup value txn c = elim (get_versioned_column txn c) [
    | none ↦ none
    | some version ↦ version_index_lookup p value version
  ]
