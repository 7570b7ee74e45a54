-- ===== src/Tests/Transactions.antt =====
-- Transactions on rows.
use ant_db.Common.{◌≡◌, refl, false, none, [], ◌∷◌, arith}
use ant_db.Txn.{is_visible, begin_txn}
use ant_db.Txn.Draining.{Reach-ends}
use ant_db.Txn.Lifecycle.{
  Reach, TxnState, start, begin_state, commit_state, begin, commit, here, next, IsWellFormed,
  Reach-IsWellFormed, commit_younger_first, commit_younger_first-hides,
}
use ant_db.Versions.{reader, view, remove_latest, replace_latest, rollback}
use ant_db.Versions.Isolation.{view-replace_other}
use ant_db.Versions.Undo.{IsFree, view-rollback-replace}
use ant_db.Versions.LostDelete.{rollback-remove_twice}
use ant_db.Row.{row_versioned}
use ant_db.Tests.{snap, old, new}

abbrev two_begun : TxnState
two_begun = begin_state (begin_state start)

abbrev second_committed : TxnState
second_committed = commit_state 2 two_begun

Reach-IsWellFormed_example : IsWellFormed second_committed
unfolding begin_state begin_txn
Reach-IsWellFormed_example =
    Reach-IsWellFormed (next (next (next here (begin refl)) (begin refl)) (commit 2 refl refl))

two_begun-Reach : Reach start two_begun
two_begun-Reach = next (next here (begin refl)) (begin refl)

Reach-ends_example :
    (t : TxnState) × Reach two_begun t × (t.snapshot.active_transaction ≡ []) × IsWellFormed t
Reach-ends_example = Reach-ends two_begun-Reach

commit_younger_first-hides_example :
    is_visible
      (record { created_by = 2; deleted_by = none })
      (reader (commit_younger_first 1 2 two_begun).snapshot 3)
    ≡ false
commit_younger_first-hides_example =
    commit_younger_first-hides two_begun 1 2 3 (record { created_by = 2; deleted_by = none })
      (omega arith) (omega arith) refl

-- Transaction 4 goes on reading 7 while transaction 3 writes 8.
view-replace_other_example :
    view row_versioned (reader snap 4) (replace_latest row_versioned (reader snap 3) new (old ∷ []))
    ≡ view row_versioned (reader snap 4) (old ∷ [])
view-replace_other_example =
    view-replace_other row_versioned snap 3 4 new (old ∷ []) (omega arith) refl (omega arith)
      (refl, tt) refl

old-IsFree : IsFree row_versioned snap 3 old
old-IsFree = record { created = omega arith; deleted = refl; undeleted = λ _. refl }

view-rollback-replace_example :
    view row_versioned
      (reader snap 4)
      (rollback row_versioned 3 (replace_latest row_versioned (reader snap 3) new (old ∷ [])))
    ≡ view row_versioned (reader snap 4) (old ∷ [])
view-rollback-replace_example =
    view-rollback-replace row_versioned snap snap 3 4 new (old ∷ []) (omega arith) (old-IsFree, tt)
      refl

rollback-remove_twice_example :
    rollback row_versioned 4 (
      remove_latest row_versioned
        (reader snap 4)
        (remove_latest row_versioned (reader snap 3) (old ∷ [])))
    ≡ old ∷ []
unfolding is_visible
rollback-remove_twice_example =
    rollback-remove_twice row_versioned snap 3 4 old (omega arith) refl (omega arith) refl
      (omega arith) refl refl
