-- ===== src/Txn.antt =====
-- src/backend/core/transaction.rs, and the bookkeeping of src/backend/core/database.rs on the
-- shared snapshot. A `Transaction` holds the `Arc` of the database's one snapshot, so in the model
-- it holds the snapshot that the read lock gives at the time of the call.
pub mod Visibility
pub mod Lifecycle
pub mod Restart
pub mod Draining
use ant_db.Common.{
  ℕ, zero, suc, ◌+◌, Bool, true, false, not, ◌&&◌, Option, none, some, List, [], ◌∷◌, ltb, leb,
  ◌==◌, if◌then◌else◌, contains, insert_key, remove_key,
}

abbrev pub TransactionId : Type 0
TransactionId = ℕ

pub record TransactionSnapshot : Type 0 where
  pub smallest_active_transaction_id : TransactionId
  pub last_possible_transaction_id : TransactionId
  pub active_transaction : List TransactionId

pub record Transaction : Type 0 where
  pub transaction_id : TransactionId
  pub snapshot : TransactionSnapshot

-- `TransactionSnapshot::default`
abbrev pub default_snapshot : TransactionSnapshot
default_snapshot = record {
  smallest_active_transaction_id = 0;
  last_possible_transaction_id = 0;
  active_transaction = [];
}

pub record TransactionHeader : Type 0 where
  pub created_by : TransactionId
  pub deleted_by : Option TransactionId

-- `deleted_by == Some(id)`
abbrev pub is_deleted_by : Option TransactionId → TransactionId → Bool
is_deleted_by none id = false
is_deleted_by (some d) id = d == id

-- The `match self.deleted_by` at the end of `is_visible`.
abbrev pub survives : Option TransactionId → Transaction → Bool
survives none txn = true
survives (some deleted_by) txn =
    let s = txn.snapshot in
    if deleted_by == txn.transaction_id
    then false
    else if ltb deleted_by s.smallest_active_transaction_id
    then false
    else if leb deleted_by s.last_possible_transaction_id
        && not (contains deleted_by s.active_transaction)
    then false
    else true

unfoldable pub is_visible : TransactionHeader → Transaction → Bool
is_visible h txn =
    let s = txn.snapshot in
    if h.created_by == txn.transaction_id
    then not (is_deleted_by h.deleted_by txn.transaction_id)
    else if ltb s.last_possible_transaction_id h.created_by
    then false
    else if contains h.created_by s.active_transaction
    then false
    else survives h.deleted_by txn

-- `iter().min().copied().unwrap_or(d)`
abbrev pub min_or : ℕ → List ℕ → ℕ
min_or d [] = d
min_or d (x ∷ []) = x
min_or d (x ∷ y ∷ xs) = let m = min_or d (y ∷ xs) in if ltb m x then m else x

abbrev pub is_empty : List ℕ → Bool
is_empty [] = true
is_empty (_ ∷ _) = false

-- What `Database::create_transaction` does to the snapshot.
unfoldable pub begin_txn : TransactionId → TransactionSnapshot → TransactionSnapshot
begin_txn id s = record s { active_transaction = insert_key id s.active_transaction }

-- `Database::commit_transaction`
unfoldable pub commit_txn : TransactionId → TransactionSnapshot → TransactionSnapshot
commit_txn id s =
    let active = remove_key id s.active_transaction in
    record {
      smallest_active_transaction_id = if is_empty active then id else min_or id active;
      last_possible_transaction_id = id;
      active_transaction = active;
    }

-- What `Database::rollback_transaction` does to the snapshot.
unfoldable pub rollback_txn : TransactionId → TransactionSnapshot → TransactionSnapshot
rollback_txn id s =
    let active = remove_key id s.active_transaction in
    let last = s.last_possible_transaction_id in
    record s {
      smallest_active_transaction_id = if is_empty active then last else min_or last active;
      active_transaction = active;
    }
