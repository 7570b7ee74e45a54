-- ===== src/Column/Entries.antt =====
-- The index of a column (src/backend/core/column.rs): a `BTreeMap` from keys to sets of row ids, and
-- the `HashMap` that tells which transaction has added an entry.
use ant_db.Common.{
  ℕ, ◌≡◌, refl, Bool, true, false, not, ◌&&◌, ◌||◌, none, some, List, [], ◌∷◌, ◌==◌, if◌then◌else◌,
  NatMap, lookup, insert, erase, contains, insert_key, remove_key, arith, retain, lookup-insert,
  lookup-erase, contains-insert_key, contains-remove_key, inl, inr, Option-cases,
}
use ant_db.Txn.{TransactionId, is_empty}

abbrev pub Index : Type 0
Index = NatMap (List ℕ)

-- Entries `(key, row_id, transaction)`.
abbrev pub AddedBy : Type 0
AddedBy = List (ℕ × ℕ × TransactionId)

abbrev pub is_empty_index : Index → Bool
is_empty_index [] = true
is_empty_index (_ ∷ _) = false

-- `index.entry(key).or_default().insert(row_id)`
unfoldable pub index_insert : ℕ → ℕ → Index → Index
index_insert k row_id index = elim (lookup k index) [
  | none ↦ insert k (row_id ∷ []) index
  | some ids ↦ insert k (insert_key row_id ids) index
]

-- The removal of a row id, and of its key where no row id is left.
unfoldable pub index_remove : ℕ → ℕ → Index → Index
index_remove k row_id index = elim (lookup k index) [
  | none ↦ index
  | some ids ↦
      let ids' = remove_key row_id ids in
      if is_empty ids' then erase k index else insert k ids' index
]

abbrev pub is_entry : ℕ → ℕ → ℕ × ℕ × TransactionId → Bool
is_entry k row_id e = (e.0 == k) && (e.1 == row_id)

unfoldable pub drop_added : ℕ → ℕ → AddedBy → AddedBy
drop_added k row_id = retain (λ e. not (is_entry k row_id e))

-- `index_added_by.insert((key, row_id), transaction_id)`
unfoldable pub put_added : ℕ → ℕ → TransactionId → AddedBy → AddedBy
unfolding drop_added
put_added k row_id txn_id added = (k, row_id, txn_id) ∷ drop_added k row_id added

-- The list `to_remove` of `rollback_index_transaction`.
unfoldable pub entries_of : TransactionId → AddedBy → List (ℕ × ℕ)
entries_of txn_id [] = []
entries_of txn_id ((k, row_id, by) ∷ added) =
    let rest = entries_of txn_id added in if by == txn_id then (k, row_id) ∷ rest else rest

-- Its loop over `to_remove`.
unfoldable pub remove_entries : List (ℕ × ℕ) → Index → AddedBy → Index × AddedBy
unfolding index_remove drop_added
remove_entries [] index added = (index, added)
remove_entries ((k, row_id) ∷ rest) index added =
    remove_entries rest (index_remove k row_id index) (drop_added k row_id added)

abbrev pub drop_rows : ℕ → List ℕ → AddedBy → AddedBy
drop_rows k [] added = added
drop_rows k (row_id ∷ ids) added = drop_rows k ids (drop_added k row_id added)

module _ {ℓ} {S : Type ℓ} (is_alive : ℕ → S → Bool × S) where
  -- `row_ids.retain(…)` of `InternalColumn::prune`: the row ids that stay and the ones that go. Asking for
  -- a row may change what the closure has access to.
  unfoldable pub split_alive : List ℕ → S → (List ℕ × List ℕ) × S
  split_alive [] s = (([], []), s)
  split_alive (r ∷ ids) s =
      let (alive, t) = is_alive r s in
      let ((stay, go), u) = split_alive ids t in
      (if alive then (r ∷ stay, go) else (stay, r ∷ go), u)

  -- The loop of `InternalColumn::prune`: dead row ids go, then keys without row ids, and what was
  -- removed is forgotten in `index_added_by`.
  unfoldable pub prune_entries : Index → AddedBy → S → (Index × AddedBy) × S
  unfolding drop_added split_alive
  prune_entries [] added s = (([], added), s)
  prune_entries ((k, ids) ∷ index) added s =
      let ((alive, dead), t) = split_alive ids s in
      let ((index', added'), u) = prune_entries index (drop_rows k dead added) t in
      ((if is_empty alive then index' else (k, alive) ∷ index', added'), u)

-- Whether the index leads from the key to the row.
abbrev pub leads_to : ℕ → ℕ → Index → Bool
leads_to k row_id index = elim (lookup k index) [ none ↦ false | some ids ↦ contains row_id ids ]

-- An entry that is put into the index is found, and every other is found as before.
pub leads_to-index_insert :
    (k k' r r' : ℕ) (index : Index)
    → leads_to k' r' (index_insert k r index) ≡ (((k == k') && (r == r')) || leads_to k' r' index)
unfolding index_insert
leads_to-index_insert k k' r r' index = elim (Option-cases (lookup k index)) [
  | inl absent ↦ ground (arith, lookup-insert k k' (r ∷ []) index)
  | inr (ids, found) ↦
      ground (arith, lookup-insert k k' (insert_key r ids) index, contains-insert_key r r' ids)
]

contains-empty : (a : ℕ) (xs : List ℕ) → is_empty xs ≡ true → contains a xs ≡ false
contains-empty a [] h = refl
contains-empty a (x ∷ xs) h = cc

-- A removal takes away the one entry, whether or not the key goes with it.
pub leads_to-index_remove :
    (k k' r r' : ℕ) (index : Index)
    → leads_to k' r' (index_remove k r index)
      ≡ (if (k == k') && (r == r') then false else leads_to k' r' index)
unfolding index_remove
leads_to-index_remove k k' r r' index = elim (Option-cases (lookup k index)) [
  | inl absent ↦ ground arith
  | inr (ids, found) ↦ ground (
    arith,
    lookup-insert k k' (remove_key r ids) index,
    lookup-erase k k' index,
    contains-remove_key r r' ids,
    contains-empty r' (remove_key r ids),
  )
]
