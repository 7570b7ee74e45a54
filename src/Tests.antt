-- ===== src/Tests.antt =====
-- Runs of the modelled code on small data, one for each of the theorems that speaks of conditions.
mod Transactions
mod Columns
mod Storage
mod Texts
mod Sessions
mod Files
mod Queries
mod Tables
mod Searches
mod Vacuums
mod Indexes
use Prim.Native.Nat.{compare}
use ant_db.Common.{ℕ, none, some, [], ◌∷◌, length}
use ant_db.Common.Int.{pos}
use ant_db.Txn.{TransactionSnapshot}
use ant_db.Versions.{reader}
use ant_db.Row.Entry.{DataBaseDataEntry, Primitives, RowData, as_u64}
use ant_db.Row.{InternalRow}
use ant_db.Pages.{Space}

-- Transactions 1 and 2 have committed, 3 and 4 are active.
abbrev pub snap : TransactionSnapshot
snap = record {
  smallest_active_transaction_id = 3;
  last_possible_transaction_id = 2;
  active_transaction = 3 ∷ 4 ∷ [];
}

abbrev pub data_at : ℕ → RowData
data_at v = (0, DataBaseDataEntry.integer_i32 (pos v)) ∷ []

-- A row of transaction 1.
abbrev pub old : InternalRow
old = record {
  transaction_header = record { created_by = 1; deleted_by = none };
  row_data = data_at 7;
}

-- A new version of it by transaction 3.
abbrev pub new : InternalRow
new = record {
  transaction_header = record { created_by = 3; deleted_by = none };
  row_data = data_at 8;
}

-- Lengths for hash codes, bit patterns for the order of floats.
abbrev pub prims : Primitives
prims = record {
  hash_u128 = λ v. v;
  hash_i128 = as_u64;
  hash_text = λ s. length s;
  hash_bytes = λ s. length s;
  compare_f32 = compare;
  compare_f64 = compare;
}

-- A table with no page, and room for half a page.
abbrev pub no_pages : Space
no_pages = record {
  row_space = [];
  row_locations = [];
  next_page_id = 0;
  page_size = 25;
  evicted_pages = [];
  on_disk_pages = [];
  lru = [];
  lru_counter = 0;
  memory_used = 0;
  memory_limit = 50;
  page_store = [];
}
