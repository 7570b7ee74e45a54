-- ===== src/Column/Rollback.antt =====
-- What `rollback_index_transaction` (src/backend/core/column.rs) does to the index, and what becomes
-- of an entry that a transaction has added again.
use ant_db.Common.{
  ℕ, ◌≡◌, refl, inl, inr, Bool, false, ◌&&◌, ◌||◌, none, some, List, [], ◌∷◌, ◌==◌, if◌then◌else◌,
  arith, Option-cases,
}
use ant_db.Txn.{TransactionId}
use ant_db.Row.Entry.{DataBaseDataEntry, ColumnId, RowId, Primitives, key}
use ant_db.Column.Entries.{
  Index, AddedBy, leads_to, index_remove, put_added, drop_added, entries_of, remove_entries,
  leads_to-index_insert, leads_to-index_remove,
}
use ant_db.Column.{InternalColumn, rollback_index, version_update_index}

-- Whether a list of pairs holds a pair.
abbrev pub holds_pair : ℕ → ℕ → List (ℕ × ℕ) → Bool
holds_pair k r [] = false
holds_pair k r ((k', r') ∷ xs) = ((k' == k) && (r' == r)) || holds_pair k r xs

-- Whether the transaction is recorded as the one that added the entry.
abbrev pub is_added_by : TransactionId → ℕ → ℕ → AddedBy → Bool
is_added_by t k r [] = false
is_added_by t k r ((k', r', by) ∷ xs) =
    ((k' == k) && ((r' == r) && (by == t))) || is_added_by t k r xs

holds_pair-entries_of :
    (t : TransactionId) (k r : ℕ) (added : AddedBy)
    → holds_pair k r (entries_of t added) ≡ is_added_by t k r added
unfolding entries_of
holds_pair-entries_of t k r [] = refl
holds_pair-entries_of t k r ((k', r', by) ∷ added) =
    ground (arith, holds_pair-entries_of t k r added)

leads_to-remove_entries :
    (k r : ℕ) (xs : List (ℕ × ℕ)) (index : Index) (added : AddedBy)
    → leads_to k r (remove_entries xs index added).0
      ≡ (if holds_pair k r xs then false else leads_to k r index)
unfolding remove_entries
leads_to-remove_entries k r [] index added = refl
leads_to-remove_entries k r ((k', r') ∷ xs) index added = ground (
  arith,
  leads_to-remove_entries k r xs (index_remove k' r' index) (drop_added k' r' added),
  leads_to-index_remove k' k r' r index,
)

-- Whether the column's index leads from a key to a row.
abbrev pub finds : ℕ → RowId → InternalColumn → Bool
finds k r c = elim c.index [ none ↦ false | some index ↦ leads_to k r index ]

-- A rollback takes out of the index exactly the entries that the transaction is recorded to have added.
pub finds-rollback_index :
    (t : TransactionId) (k r : ℕ) (c : InternalColumn)
    → finds k r (rollback_index t c)
      ≡ (if is_added_by t k r c.index_added_by then false else finds k r c)
unfolding rollback_index
finds-rollback_index t k r c = elim (Option-cases c.index) [
  | inl e ↦ ground arith
  | inr (index, e) ↦ ground (
    arith,
    leads_to-remove_entries k r (entries_of t c.index_added_by) index c.index_added_by,
    holds_pair-entries_of t k r c.index_added_by,
  )
]

is_added_by-drop_added :
    (t : TransactionId) (k k' r r' : ℕ) (added : AddedBy)
    → is_added_by t k' r' (drop_added k r added)
      ≡ (if (k == k') && (r == r') then false else is_added_by t k' r' added)
unfolding drop_added
is_added_by-drop_added t k k' r r' [] = ground arith
is_added_by-drop_added t k k' r r' ((a, b, by) ∷ added) =
    ground (arith, is_added_by-drop_added t k k' r r' added)

module _ (p : Primitives) (id : ColumnId) (value : DataBaseDataEntry) (r : RowId)
    (t : TransactionId) where
  -- An index update followed by its rollback, as one change of the column.
  abbrev pub update_and_roll_back : InternalColumn → InternalColumn
  update_and_roll_back c = rollback_index t (version_update_index p id value r t c)

  -- A transaction that adds one entry, and has added no other, takes that entry out again when it
  -- rolls back, and leaves every other entry alone.
  pub finds-update_and_roll_back :
      (k' : ℕ) (r' : RowId) (c : InternalColumn)
      → is_added_by t k' r' c.index_added_by ≡ false
      → finds k' r' (update_and_roll_back c)
        ≡ (if (key p value == k') && (r == r') then false else finds k' r' c)
  unfolding version_update_index put_added
  finds-update_and_roll_back k' r' c new = elim (Option-cases c.index) [
    | inl e ↦ ground (arith, finds-rollback_index t k' r' c)
    | inr (index, e) ↦ ground (
      arith,
      finds-rollback_index t k' r' (version_update_index p id value r t c),
      is_added_by-drop_added t (key p value) k' r r' c.index_added_by,
      leads_to-index_insert (key p value) k' r r' index,
    )
  ]
