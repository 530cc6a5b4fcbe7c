-- ===== src/Snapshotter/Store.antt =====
-- sysbox-snapshotter/fuseoverlayfs.go: the state of a snapshotter. containerd's metadata store is
-- the record `Storage`: the operations on the metadata `D` inside a transaction. A transaction works
-- on a copy, which its commit puts in place.
use sysbox.Prelude.{
  ℕ, ◌+◌, ◌-◌, not, Option, none, some, List, [], ◌∷◌, Result, ok, err, Error, keep,
}
use sysbox.Go.Strings.{Text, text_eq, contains}
use sysbox.Snapshotter.Mounts.{Kind, Snapshot, Info}

pub record Usage : Type 0 where
  pub inodes : ℕ
  pub size : ℕ

-- A snapshot's identifier, its kind and labels, and the usage that is stored.
pub record Entry : Type 0 where
  pub id : Text
  pub info : Info
  pub usage : Usage

pub record Storage (D : Type 0) : Type 0 where
  pub get_info : Text → D → Result Entry
  pub get_snapshot : Text → D → Result Snapshot
  pub create_snapshot : Kind → Text → Text → D → Result (Snapshot × D)
  pub commit_active : Text → Text → Usage → D → Result D
  pub remove : Text → D → Result D
  pub update_info : Info → D → Result (Info × D)
  pub id_map : D → Result (List Text)

-- The metadata, the number of transactions that are open, the names in the directory `snapshots`,
-- and the rest of the world.
pub record Store (D W : Type 0) : Type 0 where
  pub metadata : D
  pub open_transactions : ℕ
  pub dirs : List Text
  pub world : W

-- What the system answers to the calls of one operation.
pub record Answers : Type 0 where
  pub begin : Option Error
  pub commit : Option Error
  pub temp_dir : Result Text
  pub mkdir_fs : Option Error
  pub mkdir_work : Option Error
  pub stat_parent : Option Error
  pub chown : Option Error
  pub rename : Option Error
  pub remove_all : Text → Option Error
  pub list_dirs : Option Error
  pub disk_usage : Result Usage

module _ {D W : Type 0} where
  unfoldable pub opened : Store D W → Store D W
  opened s = record s { open_transactions = s.open_transactions + 1 }

  -- A rollback, or the end of a commit.
  unfoldable pub closed : Store D W → Store D W
  closed s = record s { open_transactions = s.open_transactions - 1 }

  -- `os.RemoveAll` of an entry of `snapshots`.
  unfoldable pub remove_dir : Answers → Text → Store D W → Store D W
  remove_dir a d s = elim (a.remove_all d) [
    | none ↦ record s { dirs = keep (λ x. not (text_eq x d)) s.dirs }
    | some e ↦ s
  ]

  unfoldable pub remove_dirs : Answers → List Text → Store D W → Store D W
  unfolding remove_dir
  remove_dirs a [] s = s
  remove_dirs a (d ∷ ds) s = remove_dirs a ds (remove_dir a d s)

  -- The entries of `snapshots` that no snapshot of the metadata owns.
  unfoldable pub get_cleanup_directories : Storage D → Answers → D → Store D W → Result (List Text)
  get_cleanup_directories storage a metadata s = elim (storage.id_map metadata) [
    | err e ↦ err e
    | ok ids ↦ elim a.list_dirs [
      | some e ↦ err e
      | none ↦ ok (keep (λ d. not (contains ids d)) s.dirs)
    ]
  ]
