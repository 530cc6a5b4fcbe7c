-- ===== src/Snapshotter/History/Whole.antt =====
-- What holds in every state that calls lead to.
use sysbox.Prelude.{ℕ, ◌+◌, ◌≡◌, Bool, true, List, arith, is_ok}
use sysbox.Go.Strings.{Text}
use sysbox.Action.{Action}
use sysbox.Snapshotter.Mount.{Mount}
use sysbox.Snapshotter.Mounts.{Snapshot, Info}
use sysbox.Snapshotter.Store.{Storage, Store}
use sysbox.Snapshotter.Create.Outcome.{open-create_snapshot}
use sysbox.Snapshotter.Operations.Transactions.{
  open-remove, open-cleanup, open-stat, open-update, open-usage, open-commit, open-walk,
  open-mounts_of,
}
use sysbox.Snapshotter.History.{
  StorageLaws, Step, Reaches, loses_transaction, creates, removes, cleans, stats, updates, measures,
  commits, walks, mounts_again, here, next,
}
use sysbox.Snapshotter.History.Operations.{
  IsWhole-remove, IsWhole-cleanup, IsWhole-commit, IsWhole-update, IsWhole-stat, IsWhole-usage,
  IsWhole-walk, IsWhole-mounts_of,
}
use sysbox.Snapshotter.History.Created.{IsWhole, IsWhole-create_snapshot}

module _ {D W : Type 0} (storage : Storage D)
    (mounts : Text → Snapshot → Info → Action W (List Mount)) where
  open-Step :
      {s t : Store D W} {n : ℕ}
      → Step storage mounts s n t
      → t.open_transactions ≡ s.open_transactions + n
  unfolding loses_transaction
  open-Step {s} (creates a kind key parent named) =
      omega (arith, open-create_snapshot storage mounts a kind key parent s)
  open-Step {s} (removes a async_remove handoffs key) =
      omega (arith, open-remove storage a async_remove handoffs key s)
  open-Step {s} (cleans a) = omega (arith, open-cleanup storage a s)
  open-Step {s} (stats a key) = omega (arith, open-stat storage a key s)
  open-Step {s} (updates a info) = omega (arith, open-update storage a info s)
  open-Step {s} (measures a key) = omega (arith, open-usage storage a key s)
  open-Step {s} (commits a name key) = omega (arith, open-commit storage a name key s)
  open-Step {s} (walks a walk_info) = open-walk storage a walk_info s
  open-Step {s} (mounts_again a key) = open-mounts_of storage a mounts key s

  -- Along any calls, whatever fails in them, the number of open transactions grows by exactly one for
  -- each call of `Mounts` that begins a transaction and does not find the snapshot.
  pub open-Reaches :
      {s t : Store D W} {n : ℕ}
      → Reaches storage mounts s n t
      → t.open_transactions ≡ s.open_transactions + n
  open-Reaches here = omega arith
  open-Reaches (next r step) = omega (arith, open-Reaches r, open-Step step)

  module _ (owns : D → Text → Bool) (laws : StorageLaws storage owns) where
    module _
        (mounted : (key : Text) (s : Snapshot) (info : Info) (w : W)
          → is_ok (mounts key s info w).0 ≡ true) where
      IsWhole-Step :
          {s t : Store D W} {n : ℕ} → Step storage mounts s n t → IsWhole owns s → IsWhole owns t
      IsWhole-Step {s} (creates a kind key parent named) c =
          IsWhole-create_snapshot owns a storage laws mounts mounted named kind key parent s c
      IsWhole-Step {s} (removes a async_remove handoffs key) c =
          IsWhole-remove storage owns laws a async_remove handoffs key s c
      IsWhole-Step {s} (cleans a) c = IsWhole-cleanup storage owns laws a s c
      IsWhole-Step {s} (stats a key) c = IsWhole-stat storage owns laws a key s c
      IsWhole-Step {s} (updates a info) c = IsWhole-update storage owns laws a info s c
      IsWhole-Step {s} (measures a key) c = IsWhole-usage storage owns laws a key s c
      IsWhole-Step {s} (commits a name key) c = IsWhole-commit storage owns laws a name key s c
      IsWhole-Step {s} (walks a walk_info) c = IsWhole-walk storage owns laws a walk_info s c
      IsWhole-Step {s} (mounts_again a key) c = IsWhole-mounts_of storage owns laws mounts a key s c

      -- Along any calls from a state where every snapshot of the metadata has its directory,
      -- whatever else fails in them and at whatever step, every snapshot of the metadata has its
      -- directory in the end, if making mounts never fails, and if the metadata store and the
      -- temporary directories behave as documented: a new snapshot has a new identifier, and no
      -- identifier begins like the name of a temporary directory.
      pub Reaches-IsWhole :
          {s t : Store D W} {n : ℕ} → Reaches storage mounts s n t → IsWhole owns s → IsWhole owns t
      Reaches-IsWhole here c = c
      Reaches-IsWhole (next r step) c = IsWhole-Step step (Reaches-IsWhole r c)
