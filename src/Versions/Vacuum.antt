-- ===== src/Versions/Vacuum.antt =====
-- `prune` drops only versions that no transaction of the snapshot can see.
use ant_db.Common.{◌≤◌, ◌≡◌, refl, ◌⊎◌, false, none, some, List, [], ◌∷◌, arith, All}
use ant_db.Txn.{TransactionId, TransactionSnapshot, is_visible}
use ant_db.Versions.{Versioned, reader, is_seen, view, is_retained, prune_versions}
use ant_db.Versions.Isolation.{view-cons}

module _ {V P : Type 0} (i : Versioned V P) where
  open i use {header}

  module _ (s : TransactionSnapshot) (u : TransactionId) where
    -- What `u` has created is deleted by nobody but `u`: no one else sees it while `u` is active.
    abbrev pub IsOwn : V → Type 0
    IsOwn v =
        (header v).created_by ≡ u
        → ((header v).deleted_by ≡ none) ⊎ ((header v).deleted_by ≡ some u)

    dropped_unseen :
        (v : V)
        → s.smallest_active_transaction_id ≤ u
        → IsOwn v
        → is_retained s.smallest_active_transaction_id (header v).deleted_by ≡ false
        → is_seen i (reader s u) v ≡ false
    unfolding is_visible
    dropped_unseen v low own drop = ground (arith, own)

    -- A vacuum at the snapshot's oldest active transaction changes the view of no transaction that
    -- is at least as young, and whose own versions nobody else has deleted.
    pub view-prune :
        (vs : List V)
        → s.smallest_active_transaction_id ≤ u
        → All IsOwn vs
        → view i (reader s u) (prune_versions i s.smallest_active_transaction_id vs)
          ≡ view i (reader s u) vs
    unfolding prune_versions
    view-prune [] low own = refl
    view-prune (v ∷ vs) low own = ground (
      arith,
      view-prune vs low own.1,
      dropped_unseen v low own.0,
      view-cons i (reader s u) v vs,
      view-cons i (reader s u) v (prune_versions i s.smallest_active_transaction_id vs),
    )
