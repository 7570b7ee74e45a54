-- ===== src/Versions.antt =====
-- The version lists of src/backend/core/row.rs (`Row`) and src/backend/core/column.rs (`Column`).
-- Both files write the same loops over `versions`, so the loops are written once, over anything that
-- carries a `TransactionHeader`; `Row` and `Column` are two instances.
pub mod Isolation
pub mod Undo
pub mod Vacuum
pub mod LostDelete
pub mod Changes
use ant_db.Common.{
  ℕ, ◌+◌, ◌≡◌, Bool, true, false, not, ◌&&◌, Option, none, some, List, [], ◌∷◌, ◌++◌, ltb, ◌==◌,
  if◌then◌else◌, map, retain,
}
use ant_db.Txn.{
  TransactionId, TransactionSnapshot, Transaction, TransactionHeader, is_deleted_by, is_visible,
}

-- A version: its header, its `deleted_by` field as a place to write, and what readers get.
pub record Versioned (V P : Type 0) : Type 0 where
  pub header : V → TransactionHeader
  pub set_deleted_by : Option TransactionId → V → V
  pub payload : V → P
  pub header-set :
      (d : Option TransactionId) (v : V)
      → header (set_deleted_by d v) ≡ record { created_by = (header v).created_by; deleted_by = d }
  pub payload-set : (d : Option TransactionId) (v : V) → payload (set_deleted_by d v) ≡ payload v
  pub set-set :
      (d e : Option TransactionId) (v : V)
      → set_deleted_by d (set_deleted_by e v) ≡ set_deleted_by d v
  pub set_self : (v : V) → set_deleted_by (header v).deleted_by v ≡ v

-- The transaction `id` as it reads under the snapshot `s`.
abbrev pub reader : TransactionSnapshot → TransactionId → Transaction
reader s id = record { transaction_id = id; snapshot = s }

abbrev pub is_none : Option ℕ → Bool
is_none none = true
is_none (some _) = false

-- `match deleted_by { None => true, Some(del) => del >= oldest }`
abbrev pub is_retained : TransactionId → Option TransactionId → Bool
is_retained oldest none = true
is_retained oldest (some del) = not (ltb del oldest)

module _ {V P : Type 0} (i : Versioned V P) where
  open i use {header, set_deleted_by, payload}

  abbrev pub is_seen : Transaction → V → Bool
  is_seen txn v = is_visible (header v) txn

  -- `versions.iter().rev().find(|v| v.transaction_header.is_visible(txn))`
  unfoldable pub latest : Transaction → List V → Option V
  latest txn [] = none
  latest txn (v ∷ vs) = elim (latest txn vs) [
    | some w ↦ some w
    | none ↦ if is_seen txn v then some v else none
  ]

  -- The loop over `versions.iter_mut().rev()` that changes the last visible version and then ends.
  -- The flag tells whether the loop has ended.
  pub modify_latest : Transaction → (V → V) → List V → Bool × List V
  modify_latest txn f [] = (false, [])
  modify_latest txn f (v ∷ vs) =
      let (done, rest) = modify_latest txn f vs in
      if done
      then (true, v ∷ rest)
      else if is_seen txn v
      then (true, f v ∷ rest)
      else (false, v ∷ rest)

  -- The last visible version is marked as deleted.
  pub mark_latest : Transaction → List V → Bool × List V
  unfolding modify_latest
  mark_latest txn = modify_latest txn (set_deleted_by (some txn.transaction_id))

  pub remove_latest : Transaction → List V → List V
  remove_latest txn vs = (mark_latest txn vs).1

  -- The marking loop and the `push` of `update`.
  pub replace_latest : Transaction → V → List V → List V
  replace_latest txn new vs = remove_latest txn vs ++ new ∷ []

  -- One round of the loop of `rollback_transaction`.
  pub undo : TransactionId → V → V
  undo id v =
      let v' =
        if ((header v).created_by == id) && is_none (header v).deleted_by
        then set_deleted_by (some id) v
        else v in
      if is_deleted_by (header v').deleted_by id && not ((header v').created_by == id)
      then set_deleted_by none v'
      else v'

  pub rollback : TransactionId → List V → List V
  rollback id = map (undo id)

  -- `prune`'s `versions.retain(…)`
  unfoldable pub prune_versions : TransactionId → List V → List V
  prune_versions oldest = retain (λ v. is_retained oldest (header v).deleted_by)

  -- What a reader gets of a version list.
  unfoldable pub view : Transaction → List V → Option P
  unfolding latest
  view txn vs = elim (latest txn vs) [ none ↦ none | some v ↦ some (payload v) ]

  unfoldable pub count_visible : Transaction → List V → ℕ
  count_visible txn [] = 0
  count_visible txn (v ∷ vs) = (if is_seen txn v then 1 else 0) + count_visible txn vs
