-- ===== src/Row.antt =====
-- src/backend/core/row.rs: rows as lists of versions.
pub mod Entry
use ant_db.Common.{◌≡◌, refl, Option, none, some, List, [], ◌∷◌}
use ant_db.Txn.{TransactionId, Transaction, TransactionHeader}
use ant_db.Versions.{
  Versioned, latest, remove_latest, replace_latest, rollback, prune_versions, view,
}
use ant_db.Row.Entry.{RowData}

pub record InternalRow : Type 0 where
  pub transaction_header : TransactionHeader
  pub row_data : RowData

pub record Row : Type 0 where
  pub versions : List InternalRow

abbrev pub row_versioned : Versioned InternalRow RowData
row_versioned = record {
  header = λ v. v.transaction_header;
  set_deleted_by = λ d v. record v {
    transaction_header = record { created_by = v.transaction_header.created_by; deleted_by = d };
  };
  payload = λ v. v.row_data;
  header-set = λ d v. refl;
  payload-set = λ d v. refl;
  set-set = λ d e v. refl;
  set_self = λ v. refl;
}

-- The version that `new` and `update` push.
abbrev pub fresh_version : Transaction → RowData → InternalRow
fresh_version txn values = record {
  transaction_header = record { created_by = txn.transaction_id; deleted_by = none };
  row_data = values;
}

-- `Row::new`
unfoldable pub new_row : Transaction → RowData → Row
new_row txn values = record { versions = fresh_version txn values ∷ [] }

-- `Row::remove`
unfoldable pub remove_row : Transaction → Row → Row
remove_row txn row = record { versions = remove_latest row_versioned txn row.versions }

-- `Row::update`
unfoldable pub update_row : Transaction → RowData → Row → Row
update_row txn values row = record {
  versions = replace_latest row_versioned txn (fresh_version txn values) row.versions;
}

-- `Row::prune`
unfoldable pub prune_row : TransactionId → Row → Row
prune_row oldest row = record { versions = prune_versions row_versioned oldest row.versions }

-- `Row::rollback_transaction`
unfoldable pub rollback_row : TransactionId → Row → Row
rollback_row id row = record { versions = rollback row_versioned id row.versions }

-- `Row::get_versioned_row`, and the `data` that its callers take of it.
unfoldable pub get_versioned_row : Transaction → Row → Option InternalRow
get_versioned_row txn row = latest row_versioned txn row.versions

unfoldable pub row_view : Transaction → Row → Option RowData
row_view txn row = view row_versioned txn row.versions
