-- ===== src/Tests/Nested.antt =====
-- An active snapshot with a parent, in a nested user namespace, with a layer on a claim.
use sysbox.Prelude.{ℕ, ◌≡◌, refl, true, [], ◌∷◌, Result, ok}
use sysbox.Go.Strings.{Text, codes}
use sysbox.Snapshotter.Mount.{Mount}
use sysbox.Snapshotter.Materialize.{Host, running_in_nested_user_ns}
use sysbox.Snapshotter.Mounts.{Snapshot, active, is_active, bind_mount, mounts}
use sysbox.Snapshotter.Mounts.Nested.{IsUpper, mounts-IsUpper}
use sysbox.Tests.Snapshots.{hooks, info}

abbrev snapshot : Snapshot
snapshot = record { kind = active; id = codes "2"; parent_ids = codes "1" ∷ [] }

abbrev host : Host ℕ
host = record {
  stat = λ p w. (ok tt, w);
  mkdir_all = λ p m w. (ok tt, w);
  mount_at = λ m p w. (ok tt, w);
  unmount_all = λ p w. (ok tt, w);
  copy_dir = λ p q w. (ok tt, w);
  write_file = λ p t m w. (ok tt, w);
}

abbrev uid_map : Result Text
uid_map = ok (codes "0 100000 65536")

is_active_here : is_active snapshot.kind ≡ true
unfolding is_active
is_active_here = refl

is_nested : running_in_nested_user_ns uid_map ≡ true
unfolding running_in_nested_user_ns sysbox.Go.Strings.fields sysbox.Go.Strings.text_eq
    sysbox.Snapshotter.Materialize.parse_uint32
is_nested = refl

mounts_are_made :
    (mounts (codes "/r") hooks host uid_map (codes "k") snapshot info 0).0
    ≡ ok (bind_mount (codes "/x") (codes "rw") ∷ [])
unfolding mounts is_active running_in_nested_user_ns sysbox.Go.Strings.fields
    sysbox.Go.Strings.text_eq sysbox.Snapshotter.Materialize.parse_uint32
    sysbox.Snapshotter.Hooks.apply_rootfs_hook sysbox.Snapshotter.Mount.materialized_rootfs_paths
    sysbox.Snapshotter.Mount.rewrite_fuse_overlay_mounts sysbox.Snapshotter.Mounts.overlay_mount
    sysbox.Admission.Pod.lookup sysbox.Go.Strings.has_prefix sysbox.Go.Strings.trim_prefix
    sysbox.Snapshotter.Materialize.materialize_active_snapshot
mounts_are_made = refl

mounts-IsUpper_example :
    IsUpper
      (codes "/r")
      snapshot
      info
      is_active_here
      hooks
      host
      uid_map
      (codes "k")
      0
      (bind_mount (codes "/x") (codes "rw") ∷ [])
mounts-IsUpper_example =
    mounts-IsUpper (codes "/r") snapshot info is_active_here hooks host uid_map (codes "k") 0
      is_nested refl mounts_are_made
