-- ===== src/Txn/Lifecycle.antt =====
-- The shared snapshot of src/backend/core/database.rs under begin, commit and rollback in any order.
use ant_db.Common.{
  ℕ, ◌+◌, ◌≤◌, ◌<◌, ◌≡◌, refl, ◌≢◌, true, false, List, [], ◌∷◌, arith, contains, remove_key,
  contains-insert_key, contains-remove_key,
}
use ant_db.Txn.{
  TransactionSnapshot, TransactionHeader, default_snapshot, min_or, is_empty, begin_txn, commit_txn,
  rollback_txn, is_visible,
}
use ant_db.Txn.Visibility.{IsCommitted}

-- The database's transaction state: the snapshot and `next_transaction_id`.
pub record TxnState : Type 0 where
  pub snapshot : TransactionSnapshot
  pub next_transaction_id : ℕ

-- `Database::new`
abbrev pub start : TxnState
start = record { snapshot = default_snapshot; next_transaction_id = 1 }

unfoldable pub begin_state : TxnState → TxnState
begin_state s = record {
  snapshot = begin_txn s.next_transaction_id s.snapshot;
  next_transaction_id = s.next_transaction_id + 1;
}

unfoldable pub commit_state : ℕ → TxnState → TxnState
commit_state id s = record s { snapshot = commit_txn id s.snapshot }

unfoldable pub rollback_state : ℕ → TxnState → TxnState
rollback_state id s = record s { snapshot = rollback_txn id s.snapshot }

-- The connections end the transactions that they have begun, in an order of their own.
pub data Step (s u : TxnState) : Type 0 where
  begin : u ≡ begin_state s → Step s u
  commit :
      (id : ℕ) → contains id s.snapshot.active_transaction ≡ true → u ≡ commit_state id s → Step s u
  roll_back :
      (id : ℕ)
      → contains id s.snapshot.active_transaction ≡ true
      → u ≡ rollback_state id s
      → Step s u

pub data Reach (s : TxnState) : TxnState → Type 0 where
  here : Reach s s
  next : {t u : TxnState} → Reach s t → Step t u → Reach s u

pub record IsWellFormed (s : TxnState) : Type 0 where
  pub last_issued : s.snapshot.last_possible_transaction_id < s.next_transaction_id
  pub smallest_issued : s.snapshot.smallest_active_transaction_id < s.next_transaction_id
  pub active_issued :
      (a : ℕ) → contains a s.snapshot.active_transaction ≡ true → a < s.next_transaction_id
  pub smallest_le :
      (a : ℕ)
      → contains a s.snapshot.active_transaction ≡ true
      → s.snapshot.smallest_active_transaction_id ≤ a
  pub last_ended :
      contains s.snapshot.last_possible_transaction_id s.snapshot.active_transaction ≡ false

min_or-le : (d a : ℕ) (xs : List ℕ) → contains a xs ≡ true → min_or d xs ≤ a
min_or-le d a [] h = cc
min_or-le d a (x ∷ []) h = ground arith
min_or-le d a (x ∷ y ∷ xs) h = ground (arith, min_or-le d a (y ∷ xs))

contains-min_or : (d : ℕ) (xs : List ℕ) → is_empty xs ≡ false → contains (min_or d xs) xs ≡ true
contains-min_or d [] h = cc
contains-min_or d (x ∷ []) h = ground arith
contains-min_or d (x ∷ y ∷ xs) h = ground (arith, contains-min_or d (y ∷ xs) refl)

start-IsWellFormed : IsWellFormed start
start-IsWellFormed = record {
  last_issued = omega arith;
  smallest_issued = omega arith;
  active_issued = λ a h. cc;
  smallest_le = λ a h. cc;
  last_ended = refl;
}

begin-IsWellFormed : {s : TxnState} → IsWellFormed s → IsWellFormed (begin_state s)
unfolding begin_state begin_txn
begin-IsWellFormed {s} w =
    let next = s.next_transaction_id in
    let active = s.snapshot.active_transaction in
    record {
      last_issued = omega (arith, w.last_issued);
      smallest_issued = omega (arith, w.smallest_issued);
      active_issued = λ a h. ground (arith, contains-insert_key next a active, w.active_issued a);
      smallest_le = λ a h.
          ground (arith, contains-insert_key next a active, w.smallest_le a, w.smallest_issued);
      last_ended = ground (
        arith,
        contains-insert_key next s.snapshot.last_possible_transaction_id active,
        w.last_issued,
        w.last_ended,
      );
    }

is_empty-contains : (a : ℕ) (xs : List ℕ) → contains a xs ≡ true → is_empty xs ≡ false
is_empty-contains a [] h = cc
is_empty-contains a (x ∷ xs) h = refl

commit-IsWellFormed :
    {s : TxnState} (id : ℕ)
    → IsWellFormed s
    → contains id s.snapshot.active_transaction ≡ true
    → IsWellFormed (commit_state id s)
unfolding commit_state commit_txn
commit-IsWellFormed {s} id w h =
    let active = s.snapshot.active_transaction in
    let rest = remove_key id active in
    record {
      last_issued = w.active_issued id h;
      smallest_issued = ground (
        arith,
        w.active_issued id h,
        contains-min_or id rest,
        contains-remove_key id (min_or id rest) active,
        w.active_issued (min_or id rest),
      );
      active_issued = λ a g. ground (arith, contains-remove_key id a active, w.active_issued a);
      smallest_le = λ a g. ground (arith, is_empty-contains a rest g, min_or-le id a rest g);
      last_ended = ground (arith, contains-remove_key id id active);
    }

rollback-IsWellFormed :
    {s : TxnState} (id : ℕ)
    → IsWellFormed s
    → contains id s.snapshot.active_transaction ≡ true
    → IsWellFormed (rollback_state id s)
unfolding rollback_state rollback_txn
rollback-IsWellFormed {s} id w h =
    let active = s.snapshot.active_transaction in
    let last = s.snapshot.last_possible_transaction_id in
    let rest = remove_key id active in
    record {
      last_issued = w.last_issued;
      smallest_issued = ground (
        arith,
        w.last_issued,
        contains-min_or last rest,
        contains-remove_key id (min_or last rest) active,
        w.active_issued (min_or last rest),
      );
      active_issued = λ a g. ground (arith, contains-remove_key id a active, w.active_issued a);
      smallest_le = λ a g. ground (arith, is_empty-contains a rest g, min_or-le last a rest g);
      last_ended = ground (arith, contains-remove_key id last active, w.last_ended);
    }

pub Step-IsWellFormed : {s u : TxnState} → Step s u → IsWellFormed s → IsWellFormed u
Step-IsWellFormed (begin e) w = rw e (begin-IsWellFormed w)
Step-IsWellFormed (commit id h e) w = rw e (commit-IsWellFormed id w h)
Step-IsWellFormed (roll_back id h e) w = rw e (rollback-IsWellFormed id w h)

-- In every state that the database reaches from its start, by any interleaving of begins, commits
-- and rollbacks, all ids in use were issued, the oldest-active mark is at most every active id, and
-- the last committed transaction is not active.
pub Reach-IsWellFormed : {s : TxnState} → Reach start s → IsWellFormed s
Reach-IsWellFormed here = start-IsWellFormed
Reach-IsWellFormed (next r st) = Step-IsWellFormed st (Reach-IsWellFormed r)

-- The state in which `a` began before `b`, and `b` committed before `a`.
abbrev pub commit_younger_first : ℕ → ℕ → TxnState → TxnState
commit_younger_first a b s = commit_state a (commit_state b s)

-- When an older transaction commits after a younger one, the watermark falls back: whatever the
-- younger one wrote is invisible to every other transaction although both have committed.
pub commit_younger_first-hides :
    (s : TxnState) (a b c : ℕ) (h : TransactionHeader)
    → a < b
    → c ≢ b
    → h.created_by ≡ b
    → is_visible h (record { transaction_id = c; snapshot = (commit_younger_first a b s).snapshot })
      ≡ false
unfolding is_visible commit_state commit_txn
commit_younger_first-hides s a b c h lt ne e = ground arith

-- The step commits nothing older than `b`.
abbrev pub IsNoOlderCommit : {s u : TxnState} → ℕ → Step s u → Type 0
IsNoOlderCommit b (begin _) = Unit
IsNoOlderCommit b (commit id _ _) = b ≤ id
IsNoOlderCommit b (roll_back _ _ _) = Unit

-- In a well-formed state, a committed transaction stays committed under every step but the commit of an
-- older one.
pub Step-IsCommitted :
    (s u : TxnState) (b : ℕ)
    → IsWellFormed s
    → (st : Step s u) → IsNoOlderCommit b st
    → IsCommitted s.snapshot b
    → IsCommitted u.snapshot b
unfolding begin_state begin_txn commit_state commit_txn rollback_state rollback_txn
Step-IsCommitted s u b w (begin e) young c = ground (
  arith,
  e,
  w.last_issued,
  contains-insert_key s.next_transaction_id b s.snapshot.active_transaction,
)
Step-IsCommitted s u b w (commit id h e) young c =
    ground (arith, e, contains-remove_key id b s.snapshot.active_transaction)
Step-IsCommitted s u b w (roll_back id h e) young c =
    ground (arith, e, contains-remove_key id b s.snapshot.active_transaction)
