-- ===== src/Snapshotter/Operations/Transactions.antt =====
-- Whether an operation ends the transaction that it begins.
use sysbox.Prelude.{
  ◌+◌, ◌≡◌, refl, Bool, true, false, Option, none, some, List, [], ◌∷◌, arith, Error, is_ok, not,
  Result, ◌&&◌, if◌then◌else◌,
}
use sysbox.Go.Strings.{Text}
use sysbox.Action.{Action}
use sysbox.Snapshotter.Mount.{Mount}
use sysbox.Snapshotter.Hooks.{HandoffStore}
use sysbox.Snapshotter.Mounts.{Kind, Snapshot, Info}
use sysbox.Snapshotter.Store.{Storage, Store, Answers, opened, closed, remove_dir, remove_dirs}
use sysbox.Snapshotter.Create.{create_snapshot}
use sysbox.Snapshotter.Create.Outcome.{open-create_snapshot}
use sysbox.Snapshotter.Operations.{
  stat, update, usage, mounts_of, commit, remove, cleanup, walk, forget, forget_handoff,
  handoff_keys,
}

abbrev pub is_none : Option Error → Bool
is_none none = true
is_none (some e) = false

module _ {D W : Type 0} where
  open-remove_dirs :
      (a : Answers) (ds : List Text) (s : Store D W)
      → (remove_dirs a ds s).open_transactions ≡ s.open_transactions
  unfolding remove_dirs
  open-remove_dirs a [] s = refl
  open-remove_dirs a (d ∷ ds) s = ground (arith, open-remove_dirs a ds (remove_dir a d s))

  module _ (storage : Storage D) (a : Answers) where
    open-forget :
        (store : HandoffStore W) (keys : List Text) (s : Store D W)
        → (forget storage a store keys s).open_transactions ≡ s.open_transactions
    unfolding forget
    open-forget store [] s = refl
    open-forget store (key ∷ keys) s = open-forget store keys _

    open-forget_handoff :
        (store : Option (HandoffStore W)) (key : Text) (s : Store D W)
        → (forget_handoff storage a store key s).open_transactions ≡ s.open_transactions
    unfolding forget_handoff
    open-forget_handoff none key s = refl
    open-forget_handoff (some store) key s = open-forget store (handoff_keys key) s

    pub open-remove :
        (async_remove : Bool) (store : Option (HandoffStore W)) (key : Text) (s : Store D W)
        → (remove storage a async_remove store key s).1.open_transactions ≡ s.open_transactions
    unfolding remove closed opened
    open-remove async_remove store key s = grind (arith, open-remove_dirs, open-forget_handoff)

    pub open-cleanup :
        (s : Store D W) → (cleanup storage a s).1.open_transactions ≡ s.open_transactions
    unfolding cleanup closed opened
    open-cleanup s = grind (arith, open-remove_dirs)

    pub open-stat :
        (key : Text) (s : Store D W)
        → (stat storage a key s).1.open_transactions ≡ s.open_transactions
    unfolding stat closed opened
    open-stat key s = ground arith

    pub open-update :
        (info : Info) (s : Store D W)
        → (update storage a info s).1.open_transactions ≡ s.open_transactions
    unfolding update closed opened
    open-update info s = ground arith

    pub open-usage :
        (key : Text) (s : Store D W)
        → (usage storage a key s).1.open_transactions ≡ s.open_transactions
    unfolding usage closed opened
    open-usage key s = ground arith

    pub open-commit :
        (name key : Text) (s : Store D W)
        → (commit storage a name key s).1.open_transactions ≡ s.open_transactions
    unfolding commit closed opened
    open-commit name key s = ground arith

    pub open-walk :
        (walk_info : D → Result (Unit {0})) (s : Store D W)
        → (walk storage a walk_info s).1.open_transactions ≡ s.open_transactions + 0
    unfolding walk closed opened
    open-walk walk_info s = ground arith

    module _ (mounts : Text → Snapshot → Info → Action W (List Mount)) where
      -- `createSnapshot`, `Remove`, `Cleanup`, `Stat`, `Update`, `Usage` and `Commit` leave as many
      -- transactions open as there were before, whether they succeed or fail and at whatever step.
      pub operations_end_transactions :
          (s : Store D W) (kind : Kind) (key parent name : Text) (info : Info) (async_remove : Bool)
          (store : Option (HandoffStore W))
          → ((create_snapshot storage mounts a kind key parent s).1.open_transactions
              ≡ s.open_transactions)
            × ((remove storage a async_remove store key s).1.open_transactions
                ≡ s.open_transactions)
            × ((cleanup storage a s).1.open_transactions ≡ s.open_transactions)
            × ((stat storage a key s).1.open_transactions ≡ s.open_transactions)
            × ((update storage a info s).1.open_transactions ≡ s.open_transactions)
            × ((usage storage a key s).1.open_transactions ≡ s.open_transactions)
            × ((commit storage a name key s).1.open_transactions ≡ s.open_transactions)
      operations_end_transactions s kind key parent name info async_remove store = (
        open-create_snapshot storage mounts a kind key parent s,
        open-remove async_remove store key s,
        open-cleanup s,
        open-stat key s,
        open-update info s,
        open-usage key s,
        open-commit name key s,
      )

      -- `Mounts` leaves one transaction more open exactly if it begins one and does not find the
      -- snapshot; on every other path it leaves as many as there were.
      pub open-mounts_of :
          (key : Text) (s : Store D W)
          → (mounts_of storage a mounts key s).1.open_transactions
            ≡ s.open_transactions
              + (if is_none a.begin && not (is_ok (storage.get_snapshot key s.metadata))
                  then 1
                  else 0)
      unfolding mounts_of closed opened
      open-mounts_of key s = ground arith
