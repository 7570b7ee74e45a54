-- ===== src/Txn/Draining.antt =====
-- The transactions of src/backend/core/database.rs can always be brought to an end.
use ant_db.Common.{ℕ, zero, suc, ◌≤◌, ◌≡◌, refl, List, [], ◌∷◌, arith, remove_key, length}
use ant_db.Txn.{commit_txn}
use ant_db.Txn.Lifecycle.{
  TxnState, start, Step, commit, Reach, here, next, commit_state, IsWellFormed, Reach-IsWellFormed,
}

Reach-front : {s t u : TxnState} → Step s t → Reach t u → Reach s u
Reach-front first here = next here first
Reach-front first (next r last) = next (Reach-front first r) last

Reach-joined : {s t u : TxnState} → Reach s t → Reach t u → Reach s u
Reach-joined r here = r
Reach-joined r (next q last) = next (Reach-joined r q) last

length-remove_key : (a : ℕ) (xs : List ℕ) → length (remove_key a xs) ≤ length xs
length-remove_key a [] = omega arith
length-remove_key a (x ∷ xs) = ground (arith, length-remove_key a xs)

-- A commit leaves at most the other transactions active.
length-commit_state :
    (id : ℕ) (ids : List ℕ) (s : TxnState)
    → s.snapshot.active_transaction ≡ id ∷ ids
    → length (commit_state id s).snapshot.active_transaction ≤ length ids
unfolding commit_state commit_txn
length-commit_state id ids s h = rw (h) (ground (arith, length-remove_key id ids))

-- Committing the oldest active transaction, again and again, ends them all.
drained :
    (n : ℕ) (ids : List ℕ) (s : TxnState)
    → s.snapshot.active_transaction ≡ ids
    → length ids ≤ n
    → (t : TxnState) × Reach s t × (t.snapshot.active_transaction ≡ [])
drained n [] s h fits = (s, here, h)
drained zero (id ∷ ids) s h fits = absurd (omega arith)
drained (suc n) (id ∷ ids) s h fits =
    let (t, r, e) =
      drained n (commit_state id s).snapshot.active_transaction (commit_state id s) refl
        (omega (arith, length-commit_state id ids s h)) in
    (t, Reach-front (commit id (ground arith) refl) r, e)

-- From every state that begin, commit and rollback lead to, further steps lead to a state in which no
-- transaction is active, and that state is well-formed.
pub Reach-ends :
    {s : TxnState}
    → Reach start s
    → (t : TxnState) × Reach s t × (t.snapshot.active_transaction ≡ []) × IsWellFormed t
Reach-ends {s} r =
    let (t, q, e) =
      drained (length s.snapshot.active_transaction) s.snapshot.active_transaction s refl
        (omega arith) in
    (t, q, e, Reach-IsWellFormed (Reach-joined r q))
