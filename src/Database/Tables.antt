-- ===== src/Database/Tables.antt =====
-- Looking tables up by name (src/backend/core/database.rs).
use ant_db.Common.{ℕ, ◌≡◌, refl, ◌≢◌, false, none, some, [], ◌∷◌, arith, if◌then◌else◌}
use ant_db.Errors.{Text, ok, err, table_already_exists}
use ant_db.Copy.{text_eq}
use ant_db.Row.Entry.Order.{compare_list-eq, compare_list_refl}
use ant_db.Database.{
  Table, Database, TableMap, find_table, get_table, create_table, remove_table, drop_table,
  put_table,
}

find_table-remove_table :
    (name other : Text) (m : TableMap)
    → find_table other (remove_table name m)
      ≡ (if text_eq name other then none else find_table other m)
unfolding find_table remove_table
find_table-remove_table name other [] = ground arith
find_table-remove_table name other ((n, t) ∷ m) = ground (
  arith,
  find_table-remove_table name other m,
  compare_list-eq n name,
  compare_list-eq n other,
  compare_list-eq name other,
  compare_list_refl name,
)

find_table-put_table :
    (name other : Text) (t : Table) (m : TableMap)
    → find_table name m ≡ none
    → find_table other (put_table name t m)
      ≡ (if text_eq name other then some t else find_table other m)
unfolding find_table put_table
find_table-put_table name other t [] h = refl
find_table-put_table name other t ((n, u) ∷ m) h = ground (
  arith,
  find_table-put_table name other t m,
  compare_list-eq n name,
  compare_list-eq n other,
  compare_list-eq name other,
  compare_list_refl name,
)

-- A table that is created is found under its exact name and no other exact lookup changes; a second
-- creation under a name fails and changes nothing; a table that is dropped is not found by its exact
-- name, and the exact lookups of other names are as before.
pub create_table-drop_table :
    (make : ℕ → Table) (name other : Text) (db : Database)
    → (find_table name db.tables ≡ none
        → let (r, u) = create_table make name db in
          (r ≡ ok db.next_table_id)
          × (get_table name u ≡ some (make db.next_table_id))
          × (text_eq name other ≡ false → find_table other u.tables ≡ find_table other db.tables))
      × (find_table name db.tables ≢ none
          → create_table make name db ≡ (err (table_already_exists name), db))
      × (find_table other (drop_table name db).tables
          ≡ (if text_eq name other then none else find_table other db.tables))
unfolding create_table get_table drop_table
create_table-drop_table make name other db = (
  λ fresh. (
    ground arith,
    ground (
      arith,
      find_table-put_table name name (make db.next_table_id) db.tables fresh,
      compare_list_refl name,
    ),
    λ ne. ground (arith, find_table-put_table name other (make db.next_table_id) db.tables fresh),
  ),
  λ there. ground arith,
  find_table-remove_table name other db.tables,
)
