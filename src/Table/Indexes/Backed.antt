-- ===== src/Table/Indexes/Backed.antt =====
-- Which columns have an index, over the steps of the operations of src/backend/core/table.rs that
-- define columns.
use mathlib.Core.Path.{subst}
use ant_db.Common.{
  ℕ, suc, ◌≡◌, true, Option, none, some, List, [], ◌∷◌, ◌++◌, ◌==◌, if◌then◌else◌, lookup, arith,
  All, inl, inr, Option-cases, lookup-insert, Bool-cases, keys,
}
use ant_db.Errors.{Text, ok, Result-cases}
use ant_db.Txn.{Transaction}
use ant_db.Row.Entry.{DataBaseDataType, Primitives, RowId, ColumnId}
use ant_db.Row.{Row}
use ant_db.Column.{
  Column, InternalColumn, column_versioned, wants_index, version_is_indexed, get_versioned_column,
  new_column, new_version, update_column, updated_version, remove_column, ensure_index_ready,
  ensure_index_empty, is_indexed, index_row, version_index_row,
}
use ant_db.Column.Constraints.{Constraint}
use ant_db.Column.Entries.{is_empty_index}
use ant_db.Versions.{remove_latest, modify_latest}
use ant_db.Versions.Changes.{modify_latest-All, remove_latest-All, latest-All}
use ant_db.Pages.Defs.{Sizes}
use ant_db.Pages.Rows.{page_for_row}
use ant_db.Database.{Table}
use ant_db.Table.Indexes.{set_column, index_rows, build_column_index_from_rows}

-- A version has an index exactly where a constraint is enforced through it.
abbrev pub IsBacked : InternalColumn → Type 0
IsBacked v = version_is_indexed v ≡ wants_index v.constraints

abbrev pub IsBackedColumn : Column → Type 0
IsBackedColumn c = All IsBacked c.versions

abbrev pub IsBackedTable : Table → Type 0
IsBackedTable t = (id : ColumnId) (c : Column) → lookup id t.columns ≡ some c → IsBackedColumn c

pub set_column-IsBackedTable :
    (id : ColumnId) (c : Column) (t : Table)
    → IsBackedColumn c
    → IsBackedTable t
    → IsBackedTable (set_column id c t)
set_column-IsBackedTable id c t hc h j d e = elim (Bool-cases (id == j)) [
  | inl same ↦ subst IsBackedColumn (ground (arith, lookup-insert id j c t.columns)) hc
  | inr other ↦ h j d (ground (arith, lookup-insert id j c t.columns))
]

pub new_column-IsBackedColumn :
    (id : ColumnId) (name : Text) (type : DataBaseDataType) (cs : List Constraint)
    (txn : Transaction)
    → IsBackedColumn (new_column id name type cs txn)
unfolding new_column new_version
new_column-IsBackedColumn id name type cs txn = (ground arith, tt)

All-snoc :
    {V : Type 0} (Q : V → Type 0) (vs : List V) (v : V) → All Q vs → Q v → All Q (vs ++ v ∷ [])
All-snoc Q [] v h hv = (hv, tt)
All-snoc Q (w ∷ vs) v (hw, h) hv = (hw, All-snoc Q vs v h hv)

remove_latest-IsBacked :
    (txn : Transaction) (vs : List InternalColumn)
    → All IsBacked vs
    → All IsBacked (remove_latest column_versioned txn vs)
remove_latest-IsBacked txn vs h = remove_latest-All column_versioned txn IsBacked vs (λ v hv. hv) h

pub update_column-IsBackedColumn :
    (cs : Option (List Constraint)) (txn : Transaction) (c : Column)
    → IsBackedColumn c
    → IsBackedColumn (update_column none none cs txn c)
unfolding update_column
update_column-IsBackedColumn cs txn c h = elim (Option-cases (get_versioned_column txn c)) [
  | inl e ↦ rw (update_column, e) h
  | inr (current, e) ↦
      rw (update_column, e)
        (All-snoc IsBacked (remove_latest column_versioned txn c.versions)
          (updated_version none none cs txn current) (remove_latest-IsBacked txn c.versions h)
          (ground arith))
]

pub remove_column-IsBackedColumn :
    (txn : Transaction) (c : Column) → IsBackedColumn c → IsBackedColumn (remove_column txn c)
unfolding remove_column
remove_column-IsBackedColumn txn c h = remove_latest-IsBacked txn c.versions h

module _ (p : Primitives) (sizes : Sizes) (txn : Transaction) where
  index_row-IsBackedColumn :
      (row_id : RowId) (row : Row) (c : Column)
      → IsBackedColumn c
      → IsBackedColumn (index_row p row_id row txn c).1
  unfolding index_row version_index_row
  index_row-IsBackedColumn row_id row c h =
      modify_latest-All column_versioned txn IsBacked
        (λ v. (version_index_row p row_id row txn v).1) c.versions (λ v hv. ground arith) h

  ready_same :
      (c ready : Column) (version : InternalColumn)
      → get_versioned_column txn c ≡ some version
      → version_is_indexed version ≡ true
      → ensure_index_ready txn c ≡ ok ready
      → record { versions = (modify_latest column_versioned txn (λ _. version) c.versions).1 }
        ≡ ready
  unfolding ensure_index_ready ensure_index_empty
  ready_same c ready version seen indexed e = elim (Option-cases version.index) [
    | inl absent ↦ absurd (ground arith)
    | inr (index, at) ↦ elim (Bool-cases (is_empty_index index)) [
      | inl empty ↦ ground arith
      | inr full ↦ absurd (ground arith)
    ]
  ]

  ensure_index_ready-IsBackedColumn :
      (c ready : Column)
      → IsBackedColumn c
      → is_indexed txn c ≡ true
      → ensure_index_ready txn c ≡ ok ready
      → IsBackedColumn ready
  unfolding is_indexed get_versioned_column
  ensure_index_ready-IsBackedColumn c ready h indexed e =
      elim (Option-cases (get_versioned_column txn c)) [
        | inl unseen ↦ absurd (ground arith)
        | inr (version, seen) ↦
            subst IsBackedColumn (ready_same c ready version seen (ground arith) e) (
              modify_latest-All column_versioned txn IsBacked (λ _. version) c.versions
                (λ v hv. latest-All column_versioned txn IsBacked c.versions version h seen) h)
      ]

  -- Building an index keeps the form of every column, whether or not it goes through.
  index_rows-IsBackedTable :
      (id : ColumnId) (ids : List RowId) (n : ℕ) (t : Table)
      → IsBackedTable t
      → IsBackedTable (index_rows p sizes txn id ids n t).1
  unfolding index_rows
  index_rows-IsBackedTable id [] n t h = h
  index_rows-IsBackedTable id (row_id ∷ ids) n t h =
      elim (Result-cases (page_for_row sizes row_id t.space)) [
        | inr (e, failed) ↦ rw (index_rows, failed) h
        | inl ((page_id, page, u), found) ↦ elim (Option-cases (lookup row_id page.rows)) [
          | inl absent ↦
              rw (index_rows, found, absent)
                (index_rows-IsBackedTable id ids n (record t { space = u }) h)
          | inr (row, held) ↦ elim (Option-cases (lookup id t.columns)) [
            | inl absent ↦ rw (index_rows, found, held, absent) h
            | inr (c, at) ↦
                rw (index_rows, found, held, at)
                  (index_rows-IsBackedTable id ids
                    (if (index_row p row_id row txn c).0 then suc n else n)
                    (set_column id (index_row p row_id row txn c).1 (record t { space = u }))
                    (set_column-IsBackedTable id (index_row p row_id row txn c).1
                      (record t { space = u }) (index_row-IsBackedColumn row_id row c (h id c at))
                      h))
          ]
        ]
      ]

  pub build-IsBackedTable :
      (id : ColumnId) (t : Table)
      → IsBackedTable t
      → IsBackedTable (build_column_index_from_rows p sizes txn id t).1
  unfolding build_column_index_from_rows
  build-IsBackedTable id t h = elim (Option-cases (lookup id t.columns)) [
    | inl absent ↦ rw (build_column_index_from_rows, absent) h
    | inr (c, at) ↦ elim (Bool-cases (is_indexed txn c)) [
      | inr bare ↦ rw (build_column_index_from_rows, at, bare) h
      | inl indexed ↦ elim (Result-cases (ensure_index_ready txn c)) [
        | inr (e, failed) ↦ rw (build_column_index_from_rows, at, indexed, failed) h
        | inl (ready, done) ↦
            rw (build_column_index_from_rows, at, indexed, done)
              (index_rows-IsBackedTable id (keys t.space.row_locations) 0 (set_column id ready t) (
                set_column-IsBackedTable id ready t
                  (ensure_index_ready-IsBackedColumn c ready (h id c at) indexed done) h))
      ]
    ]
  ]
