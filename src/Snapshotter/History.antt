-- ===== src/Snapshotter/History.antt =====
-- sysbox-snapshotter/fuseoverlayfs.go: sequences of calls of the snapshotter. Each call has its own
-- answers of the system.
pub mod Whole
pub mod Created
pub mod Operations
use sysbox.Prelude.{
  ℕ, ◌+◌, ◌≡◌, Bool, true, false, ◌||◌, ◌&&◌, not, if◌then◌else◌, Option, List, Result, is_ok, ok,
}
use sysbox.Go.Strings.{Text, codes, text_eq, contains, has_prefix}
use sysbox.Action.{Action}
use sysbox.Snapshotter.Mount.{Mount}
use sysbox.Snapshotter.Mounts.{Kind, Snapshot, Info}
use sysbox.Snapshotter.Hooks.{HandoffStore}
use sysbox.Snapshotter.Store.{Storage, Store, Answers, Usage}
use sysbox.Snapshotter.Create.{create_snapshot}
use sysbox.Snapshotter.Operations.{stat, update, usage, mounts_of, commit, remove, cleanup, walk}
use sysbox.Snapshotter.Operations.Transactions.{is_none}

-- What the code relies on of containerd's metadata store. `owns m d`: the metadata `m` has a snapshot
-- with the identifier `d`.
pub record StorageLaws {D : Type 0} (storage : Storage D) (owns : D → Text → Bool) : Type 0 where
  pub lists :
      (m : D) (d : Text) {ids : List Text} → storage.id_map m ≡ ok ids → contains ids d ≡ owns m d
  pub creates :
      (kind : Kind) (key parent : Text) (m : D) (d : Text) {s : Snapshot} {m' : D}
      → storage.create_snapshot kind key parent m ≡ ok (s, m')
      → owns m' d ≡ (text_eq d s.id || owns m d)
  -- A new snapshot has a new identifier.
  pub fresh :
      (kind : Kind) (key parent : Text) (m : D) {s : Snapshot} {m' : D}
      → storage.create_snapshot kind key parent m ≡ ok (s, m')
      → owns m s.id ≡ false
  -- Identifiers are numerals, so that none begins like a temporary directory.
  pub numerals : (m : D) (d : Text) → has_prefix d (codes "new-") ≡ true → owns m d ≡ false
  pub removes :
      (key : Text) (m : D) (d : Text) {m' : D}
      → storage.remove key m ≡ ok m'
      → owns m' d ≡ true
      → owns m d ≡ true
  pub commits :
      (key name : Text) (measured : Usage) (m : D) (d : Text) {m' : D}
      → storage.commit_active key name measured m ≡ ok m'
      → owns m' d ≡ owns m d
  pub updates :
      (info : Info) (m : D) (d : Text) {info' : Info} {m' : D}
      → storage.update_info info m ≡ ok (info', m')
      → owns m' d ≡ owns m d

-- The name that `os.MkdirTemp` gives begins with the prefix that the code asks for.
abbrev pub IsNamed : Answers → Type 0
IsNamed a = (td : Text) → a.temp_dir ≡ ok td → has_prefix td (codes "new-") ≡ true

module _ {D W : Type 0} (storage : Storage D)
    (mounts : Text → Snapshot → Info → Action W (List Mount)) where
  -- `Mounts` fails to find the snapshot, in a transaction of its own.
  unfoldable pub loses_transaction : Answers → Text → Store D W → ℕ
  loses_transaction a key s =
      if is_none a.begin && not (is_ok (storage.get_snapshot key s.metadata)) then 1 else 0

  -- One call, with the number of transactions that it leaves open.
  pub data Step : Store D W → ℕ → Store D W → Type 0 where
    creates :
        {s : Store D W} (a : Answers) (kind : Kind) (key parent : Text)
        → IsNamed a
        → Step s 0 (create_snapshot storage mounts a kind key parent s).1
    removes :
        {s : Store D W} (a : Answers) (async_remove : Bool) (handoffs : Option (HandoffStore W))
        (key : Text)
        → Step s 0 (remove storage a async_remove handoffs key s).1
    cleans : {s : Store D W} (a : Answers) → Step s 0 (cleanup storage a s).1
    stats : {s : Store D W} (a : Answers) (key : Text) → Step s 0 (stat storage a key s).1
    updates : {s : Store D W} (a : Answers) (info : Info) → Step s 0 (update storage a info s).1
    measures : {s : Store D W} (a : Answers) (key : Text) → Step s 0 (usage storage a key s).1
    commits :
        {s : Store D W} (a : Answers) (name key : Text) → Step s 0 (commit storage a name key s).1
    walks :
        {s : Store D W} (a : Answers) (walk_info : D → Result (Unit {0}))
        → Step s 0 (walk storage a walk_info s).1
    mounts_again :
        {s : Store D W} (a : Answers) (key : Text)
        → Step s (loses_transaction a key s) (mounts_of storage a mounts key s).1

  -- Some calls, with the number of transactions that they leave open together.
  pub data Reaches (s : Store D W) : ℕ → Store D W → Type 0 where
    here : Reaches s 0 s
    next : {n k : ℕ} {t u : Store D W} → Reaches s n t → Step t k u → Reaches s (n + k) u
