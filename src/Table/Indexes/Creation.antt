-- ===== src/Table/Indexes/Creation.antt =====
-- CREATE INDEX and DROP INDEX of src/backend/core/table.rs, and what all operations that define columns
-- keep.
use ant_db.Common.{
  ◌≡◌, refl, ap, false, Option, none, some, List, if◌then◌else◌, lookup, arith, inl, inr,
  Option-cases,
}
use ant_db.Errors.{Text, DataBaseErrors, ok, err, index_not_found, query_error, Result-cases}
use ant_db.Txn.{Transaction}
use ant_db.Row.Entry.{DataBaseDataType, Primitives, ColumnId}
use ant_db.Column.{
  Column, InternalColumn, column_versioned, wants_index, get_versioned_column, new_column,
  update_column, remove_column, is_indexed, drop_index,
}
use ant_db.Column.Constraints.{Constraint}
use ant_db.Row.Entry.Order.{compare_list_refl}
use ant_db.Copy.{to_ascii_lowercase}
use ant_db.Versions.Changes.{latest-All}
use ant_db.Pages.Defs.{Sizes}
use ant_db.Planner.{column_named, get_visible_column_map}
use ant_db.Database.{Table}
use ant_db.Table.Indexes.{
  DefinedTable, set_column, build_column_index_from_rows, create_column, add_column_constraints,
  create_column_index, drop_column_index, drop_column, name_index, index_column, merged_constraints,
}
use ant_db.Table.Indexes.Backed.{
  IsBacked, IsBackedColumn, IsBackedTable, set_column-IsBackedTable, new_column-IsBackedColumn,
  update_column-IsBackedColumn, remove_column-IsBackedColumn, build-IsBackedTable,
}

module _ (p : Primitives) (sizes : Sizes) (txn : Transaction) where
  -- Why DROP INDEX refuses
  abbrev pub refusal : Column → DataBaseErrors
  refusal c = elim (get_versioned_column txn c) [
    | none ↦ query_error "No visible column version found while dropping index"
    | some version ↦
        if wants_index version.constraints
        then query_error
            "Cannot drop index on a column that enforces a PRIMARY KEY or UNIQUE constraint"
        else index_not_found version.name
  ]

  drop_index-refused : (c : Column) → IsBackedColumn c → drop_index txn c ≡ err (refusal c)
  unfolding drop_index get_versioned_column
  drop_index-refused c h = elim (Option-cases (get_versioned_column txn c)) [
    | inl unseen ↦ ground arith
    | inr (version, seen) ↦
        let backed : IsBacked version =
          latest-All column_versioned txn IsBacked c.versions version h seen in
        elim (Option-cases version.index) [
          | inl bare ↦ ground arith
          | inr (index, at) ↦ ground arith
        ]
  ]

  -- DROP INDEX never succeeds on a table whose columns have an index exactly where a PRIMARY KEY or UNIQUE
  -- constraint asks for it: it gives an error and changes nothing.
  pub drop_column_index-refused :
      (name : Text) (d : DefinedTable)
      → IsBackedTable d.table
      → (e : DataBaseErrors) × (drop_column_index txn name d ≡ (err e, d))
  unfolding drop_column_index
  drop_column_index-refused name d h =
      elim (Option-cases (index_column txn (to_ascii_lowercase name) d)) [
        | inl absent ↦ (index_not_found name, rw (drop_column_index, absent) refl)
        | inr (id, named) ↦ elim (Option-cases (lookup id d.table.columns)) [
          | inl absent ↦ (
            query_error "Column not found while dropping index",
            rw (drop_column_index, named, absent) refl,
          )
          | inr (c, at) ↦
              (refusal c, rw (drop_column_index, named, at, drop_index-refused c (h id c at)) refl)
        ]
      ]

  indexed_name :
      (name : Text) (id : ColumnId) (d : DefinedTable)
      → index_column txn
          (to_ascii_lowercase name)
          (record d { index_names = name_index (some name) id d.index_names })
        ≡ some id
  unfolding index_column
  indexed_name name id d =
      rw (index_column, column_named, compare_list_refl (to_ascii_lowercase name)) refl

  unindexed :
      (c : Column) (version : InternalColumn)
      → IsBackedColumn c
      → get_versioned_column txn c ≡ some version
      → wants_index version.constraints ≡ false
      → (is_indexed txn c ≡ false) × (refusal c ≡ index_not_found version.name)
  unfolding is_indexed get_versioned_column
  unindexed c version h seen bare =
      let backed : IsBacked version =
        latest-All column_versioned txn IsBacked c.versions version h seen in
      (ground arith, ground arith)

  build_bare :
      (id : ColumnId) (t : Table) (c : Column)
      → lookup id t.columns ≡ some c
      → is_indexed txn c ≡ false
      → build_column_index_from_rows p sizes txn id t ≡ (ok 0, t)
  unfolding build_column_index_from_rows
  build_bare id t c at bare = rw (build_column_index_from_rows, at, bare) refl

  -- On a table whose columns have an index exactly where a PRIMARY KEY or UNIQUE constraint asks for it,
  -- CREATE INDEX on a visible column without such a constraint reports success with no row, enters the
  -- index's name, and builds no index: the column stays as it was, and DROP INDEX of the new name fails
  -- with IndexNotFound.
  pub create_column_index-inert :
      (name column : Text) (d : DefinedTable) (id : ColumnId) (c : Column)
      (version : InternalColumn)
      → IsBackedTable d.table
      → column_named (to_ascii_lowercase column) (get_visible_column_map txn d.table) ≡ some id
      → lookup id d.table.columns ≡ some c
      → get_versioned_column txn c ≡ some version
      → wants_index version.constraints ≡ false
      → (create : DefinedTable) × (create_column_index p sizes txn (some name) column d
          ≡ (ok 0, create))
        × (create.table ≡ d.table)
        × (drop_column_index txn name create ≡ (err (index_not_found version.name), create))
  unfolding create_column_index drop_column_index
  create_column_index-inert name column d id c version h visible at seen bare =
      let (no_index, why) = unindexed c version (h id c at) seen bare in
      let built = build_bare id d.table c at no_index in
      let created = record d { index_names = name_index (some name) id d.index_names } in
      (
        created,
        rw (create_column_index, visible, built)
            (ap (λ r. (ok 0, record created { table = r.1 })) built),
        refl,
        rw (drop_column_index, indexed_name name id d, at, drop_index-refused c (h id c at), why)
            refl,
      )

  create_column_index-IsBackedTable :
      (index_name : Option Text) (column : Text) (d : DefinedTable)
      → IsBackedTable d.table
      → IsBackedTable (create_column_index p sizes txn index_name column d).1.table
  unfolding create_column_index
  create_column_index-IsBackedTable index_name column d h =
      elim (Option-cases
        (column_named (to_ascii_lowercase column) (get_visible_column_map txn d.table))) [
          | inl absent ↦ rw (create_column_index, absent) h
          | inr (id, visible) ↦
              let built = build-IsBackedTable p sizes txn id d.table h in
              elim (Result-cases (build_column_index_from_rows p sizes txn id d.table).0) [
                | inl (n, done) ↦ rw (create_column_index, visible, done) built
                | inr (e, failed) ↦ rw (create_column_index, visible, failed) built
              ]
        ]

  -- Every operation that defines columns keeps this form: that a column has an index exactly where a
  -- PRIMARY KEY or UNIQUE constraint asks for it, whether the operation goes through or fails.
  pub definitions-IsBackedTable :
      (d : DefinedTable)
      → IsBackedTable d.table
      → ((name : Text) (type : DataBaseDataType) (cs : List Constraint)
          → IsBackedTable (create_column p sizes txn name type cs d).1.table)
        × ((id : ColumnId) (cs : List Constraint)
            → IsBackedTable (add_column_constraints p sizes txn id cs d.table).1)
        × ((index_name : Option Text) (column : Text)
            → IsBackedTable (create_column_index p sizes txn index_name column d).1.table)
        × ((name : Text) → IsBackedTable (drop_column_index txn name d).1.table)
        × ((id : ColumnId) → IsBackedTable (drop_column txn id d.table).1)
  unfolding create_column add_column_constraints create_column_index drop_column
  definitions-IsBackedTable d h = (
    λ name type cs.
        build-IsBackedTable p sizes txn d.next_column_id
          (set_column d.next_column_id (new_column d.next_column_id name type cs txn) d.table)
          (set_column-IsBackedTable d.next_column_id (new_column d.next_column_id name type cs txn)
            d.table (new_column-IsBackedColumn d.next_column_id name type cs txn) h),
    λ id cs. elim (Option-cases (lookup id d.table.columns)) [
      | inl absent ↦ rw (add_column_constraints, absent) h
      | inr (c, at) ↦
          let updated = update_column none none (some (merged_constraints txn cs c)) txn c in
          rw (add_column_constraints, at)
            (build-IsBackedTable p sizes txn id (set_column id updated d.table) (
              set_column-IsBackedTable id updated d.table
                (update_column-IsBackedColumn (some (merged_constraints txn cs c)) txn c
                  (h id c at))
                h))
    ],
    λ index_name column. create_column_index-IsBackedTable index_name column d h,
    λ name. let (e, refused) = drop_column_index-refused name d h in rw (refused) h,
    λ id. elim (Option-cases (lookup id d.table.columns)) [
      | inl absent ↦ rw (drop_column, absent) h
      | inr (c, at) ↦
          rw (drop_column, at)
            (set_column-IsBackedTable id (remove_column txn c) d.table
              (remove_column-IsBackedColumn txn c (h id c at)) h)
    ],
  )
