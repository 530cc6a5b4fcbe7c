-- ===== src/Tests/Snapshots.antt =====
-- A snapshotter whose metadata is the list of the identifiers of its snapshots.
use sysbox.Snapshotter.Hooks.{RootfsHooks, apply_rootfs_hook}
use sysbox.Snapshotter.Hooks.Kept.{AreSame, apply_rootfs_hook-AreSame}
use sysbox.Prelude.{
  some, ℕ, ◌≡◌, refl, true, false, not, ◌&&◌, none, List, [], ◌∷◌, ok, err, any, sentinel, io_eof,
  is_ok, keep,
}
use sysbox.Go.Strings.{Text, codes, text_eq, contains, blank}
use sysbox.Action.{Action}
use sysbox.Snapshotter.Mount.{
  Mount, fuse_overlay, materialized_rootfs_paths, rewrite_fuse_overlay_mounts,
}
use sysbox.Snapshotter.Mount.Rewrite.{has_upper, has_work, materialized_rootfs_paths-rewrite}
use sysbox.Snapshotter.Mounts.{Snapshot, Info, active}
use sysbox.Snapshotter.Store.{Storage, Store, Answers, Entry, Usage}
use sysbox.Snapshotter.Create.{create_snapshot}
use sysbox.Snapshotter.Create.Outcome.{Commits, create_snapshot-loses_directory}
use sysbox.Snapshotter.Operations.{stat, update, usage, commit, remove, cleanup}
use sysbox.Snapshotter.Operations.Transactions.{operations_end_transactions}
use sysbox.Snapshotter.Operations.Orphans.{contains-cleanup, contains-remove}

abbrev pub info : Info
info = record { kind = active; labels = [] }

abbrev pub no_usage : Usage
no_usage = record { inodes = 0; size = 0 }

abbrev snapshot : Snapshot
snapshot = record { kind = active; id = codes "1"; parent_ids = [] }

abbrev storage : Storage (List Text)
storage = record {
  get_info = λ key d. ok (record { id = codes "1"; info = info; usage = no_usage });
  get_snapshot = λ key d. err (sentinel io_eof);
  create_snapshot = λ kind key parent d. ok (snapshot, codes "1" ∷ d);
  commit_active = λ key name u d. ok d;
  remove = λ key d. ok (keep (λ x. not (text_eq x key)) d);
  update_info = λ i d. ok (i, d);
  id_map = λ d. ok d;
}

abbrev pub answers : Answers
answers = record {
  begin = none;
  commit = none;
  temp_dir = ok (codes "new-1");
  mkdir_fs = none;
  mkdir_work = none;
  stat_parent = none;
  chown = none;
  rename = none;
  remove_all = λ d. none;
  list_dirs = none;
  disk_usage = ok no_usage;
}

abbrev pub mounts_made : Text → Snapshot → Info → Action ℕ (List Mount)
mounts_made key s i w = (ok [], w)

abbrev mounts_failed : Text → Snapshot → Info → Action ℕ (List Mount)
mounts_failed key s i w = (err (sentinel io_eof), w)

abbrev store : Store (List Text) ℕ
store = record {
  metadata = codes "2" ∷ [];
  open_transactions = 0;
  dirs = codes "2" ∷ codes "3" ∷ [];
  world = 0;
}

operations_end_transactions_example :
    ((create_snapshot storage mounts_failed answers active (codes "k") [] store).1.open_transactions
      ≡ 0)
    × ((remove storage answers false none (codes "k") store).1.open_transactions ≡ 0)
    × ((cleanup storage answers store).1.open_transactions ≡ 0)
    × ((stat storage answers (codes "k") store).1.open_transactions ≡ 0)
    × ((update storage answers info store).1.open_transactions ≡ 0)
    × ((usage storage answers (codes "k") store).1.open_transactions ≡ 0)
    × ((commit storage answers (codes "n") (codes "k") store).1.open_transactions ≡ 0)
operations_end_transactions_example =
    operations_end_transactions storage answers mounts_failed store active (codes "k") []
      (codes "n") info false none

cleanup_succeeds : (cleanup storage answers store).0 ≡ ok tt
unfolding cleanup sysbox.Snapshotter.Store.get_cleanup_directories
cleanup_succeeds = refl

contains-cleanup_example :
    contains (cleanup storage answers store).1.dirs (codes "3")
    ≡ (contains store.dirs (codes "3") && contains store.metadata (codes "3"))
contains-cleanup_example =
    contains-cleanup answers (λ d. refl) storage store (codes "2" ∷ []) (codes "3") refl
      cleanup_succeeds

removed : storage.remove (codes "2") store.metadata ≡ ok []
unfolding keep text_eq
removed = refl

remove_succeeds : (remove storage answers false none (codes "2") store).0 ≡ ok tt
unfolding remove sysbox.Snapshotter.Store.get_cleanup_directories
remove_succeeds = refl

contains-remove_example :
    ((remove storage answers false none (codes "2") store).1.metadata ≡ [])
    × (contains (remove storage answers false none (codes "2") store).1.dirs (codes "2")
        ≡ (contains store.dirs (codes "2") && contains [] (codes "2")))
contains-remove_example =
    contains-remove answers (λ d. refl) storage none (codes "2") store [] [] (codes "2") removed
      refl remove_succeeds

Commits-failed :
    Commits storage mounts_failed answers active
      (codes "k")
      []
      (codes "new-1")
      snapshot
      (codes "1" ∷ codes "2" ∷ [])
      store
Commits-failed = record {
  begins = refl;
  temp = refl;
  made_fs = refl;
  made_work = refl;
  created = refl;
  found_parent = refl;
  owned = refl;
  renamed = refl;
  commits = refl;
}

create_snapshot-loses_directory_example :
    (is_ok (create_snapshot storage mounts_failed answers active (codes "k") [] store).0 ≡ false)
    × ((create_snapshot storage mounts_failed answers active (codes "k") [] store).1.metadata
        ≡ codes "1" ∷ codes "2" ∷ [])
    × (contains
          (create_snapshot storage mounts_failed answers active (codes "k") [] store).1.dirs
          (codes "1")
        ≡ false)
create_snapshot-loses_directory_example =
    create_snapshot-loses_directory storage mounts_failed answers Commits-failed refl refl

abbrev layer : Mount
layer = record {
  kind = fuse_overlay;
  source = codes "overlay";
  options = codes "workdir=/w" ∷ codes "upperdir=/u" ∷ codes "lowerdir=/l" ∷ [];
}

layer_has_upper : has_upper layer.options ≡ true
unfolding any sysbox.Go.Strings.has_prefix
layer_has_upper = refl

layer_has_work : has_work layer.options ≡ true
unfolding any sysbox.Go.Strings.has_prefix
layer_has_work = refl

is_not_blank : blank (codes "/x") ≡ false
is_not_blank = refl

materialized_rootfs_paths-rewrite_example :
    materialized_rootfs_paths (rewrite_fuse_overlay_mounts (layer ∷ []) (codes "/x") (codes "/x"))
    ≡ ok (codes "/x", codes "/x")
materialized_rootfs_paths-rewrite_example =
    materialized_rootfs_paths-rewrite (codes "/x") (codes "/x") layer refl layer_has_upper
      layer_has_work is_not_blank is_not_blank

abbrev pub hooks : RootfsHooks ℕ
hooks = record {
  identity_resolver = some (λ key w. (
    ok (record {
      snapshot_key = key;
      pod_uid = codes "u";
      container_name = codes "app";
      annotation = [];
    }),
    w,
  ));
  metadata_resolver = some (λ r w. (
    ok (record {
      volume_name = codes "disk";
      path = codes "a";
      persistent_special_mounts = false;
      special_path = [];
      sidecar = false;
      sidecar_spec = none;
    }),
    w,
  ));
  pvc_resolver = some (λ r s w. (ok (codes "/data"), w));
  preparer = some (λ r w. (ok (record { upper_dir = codes "/x"; work_dir = codes "/y" }), w));
  handoff_store = none;
}

hook_rewrites :
    (apply_rootfs_hook hooks (codes "k") (layer ∷ []) 0).0
    ≡ ok (rewrite_fuse_overlay_mounts (layer ∷ []) (codes "/x") (codes "/y"))
unfolding apply_rootfs_hook
hook_rewrites = refl

apply_rootfs_hook-AreSame_example :
    AreSame (layer ∷ []) (rewrite_fuse_overlay_mounts (layer ∷ []) (codes "/x") (codes "/y"))
apply_rootfs_hook-AreSame_example =
    apply_rootfs_hook-AreSame hooks (codes "k") (layer ∷ []) 0 hook_rewrites
