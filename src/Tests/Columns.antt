-- ===== src/Tests/Columns.antt =====
-- Entries, indexes and constraints of columns.
use ant_db.Common.{false, none, some, [], ◌∷◌, ◌==◌, if◌then◌else◌}
use ant_db.Common.Int.{pos}
use ant_db.Errors.{ok}
use ant_db.Row.Entry.{DataBaseDataType, DataBaseDataEntry}
use ant_db.Column.{InternalColumn}
use ant_db.Column.Constraints.{unique, not_null}
use ant_db.Column.Validate.{RowLookup, FkLookup}

abbrev pub seven : DataBaseDataEntry
seven = DataBaseDataEntry.integer_i32 (pos 7)

abbrev eight : DataBaseDataEntry
eight = DataBaseDataEntry.integer_i32 (pos 8)

-- Row 1 holds 7, indexed by a committed transaction, and row 2 holds 8, indexed by transaction 3.
abbrev pub numbers : InternalColumn
numbers = record {
  transaction_header = record { created_by = 1; deleted_by = none };
  column_id = 0;
  name = b'n' ∷ [];
  data_type = DataBaseDataType.integer_i32;
  constraints = not_null ∷ unique ∷ [];
  index = some ((7, 1 ∷ []) ∷ (8, 2 ∷ []) ∷ []);
  index_added_by = (7, 1, 1) ∷ (8, 2, 3) ∷ [];
  is_nullable = false;
}

abbrev find_row : RowLookup
find_row r = ok (some (if r == 1 then seven else eight))

abbrev pub no_keys : FkLookup
no_keys t c v = ok false
