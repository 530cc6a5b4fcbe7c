-- ===== src/Snapshotter/Mounts.antt =====
-- sysbox-snapshotter/fuseoverlayfs.go: the mounts of a snapshot.
pub mod Nested
use sysbox.Prelude.{
  Bool, true, false, not, ◌&&◌, Option, none, some, List, [], ◌∷◌, ◌++◌, if◌then◌else◌, map, Result,
}
use sysbox.Go.Strings.{Text, codes}
use sysbox.Go.Strings.Split.{join}
use sysbox.Go.Filepath.{join_path}
use sysbox.Action.{Action, pure, ◌>>=◌, ◌>>◌}
use sysbox.Admission.Pod.{StringMap, lookup}
use sysbox.Snapshotter.Mount.{
  Mount, fuse_overlay, upperdir_option, workdir_option, convert_id_mapping_option,
  materialized_rootfs_paths,
}
use sysbox.Snapshotter.Hooks.{RootfsHooks, apply_rootfs_hook}
use sysbox.Snapshotter.Materialize.{Host, running_in_nested_user_ns, materialize_active_snapshot}

pub data Kind : Type 0 where
  view active committed : Kind

unfoldable pub is_active : Kind → Bool
is_active active = true
is_active view = false
is_active committed = false

unfoldable pub is_view : Kind → Bool
is_view view = true
is_view active = false
is_view committed = false

-- `storage.Snapshot` and the fields of `snapshots.Info` in use.
pub record Snapshot : Type 0 where
  pub kind : Kind
  pub id : Text
  pub parent_ids : List Text

pub record Info : Type 0 where
  pub kind : Kind
  pub labels : StringMap

unfoldable pub upper_path : Text → Text → Text
upper_path root id = join_path (root ∷ codes "snapshots" ∷ id ∷ codes "fs" ∷ [])

unfoldable pub work_path : Text → Text → Text
work_path root id = join_path (root ∷ codes "snapshots" ∷ id ∷ codes "work" ∷ [])

unfoldable pub bind_mount : Text → Text → Mount
bind_mount source flag = record {
  kind = codes "bind";
  source = source;
  options = flag ∷ codes "rbind" ∷ [];
}

mapping_option : Text → Option Text → List Text
mapping_option name none = []
mapping_option name (some mapping) = (name ++ convert_id_mapping_option mapping) ∷ []

-- The mappings in one option, behind `nodev`.
grouped : List Text → List Text
grouped [] = []
grouped (o ∷ os) = (codes "nodev," ++ join b',' (o ∷ os)) ∷ []

unfoldable pub id_mapping_options : StringMap → List Text
unfolding mapping_option grouped
id_mapping_options labels = grouped (
    mapping_option (codes "uidmapping=") (lookup (codes "containerd.io/snapshot/uidmapping") labels)
    ++ mapping_option (codes "gidmapping=")
        (lookup (codes "containerd.io/snapshot/gidmapping") labels))

own_options : Text → Snapshot → List Text
own_options root s =
    if is_active s.kind
    then (workdir_option ++ work_path root s.id) ∷ (upperdir_option ++ upper_path root s.id) ∷ []
    else []

unfoldable pub overlay_mount : Text → Snapshot → Info → Mount
unfolding own_options id_mapping_options
overlay_mount root s info = record {
  kind = fuse_overlay;
  source = codes "overlay";
  options =
      own_options root s
      ++ (codes "lowerdir=" ++ join b':' (map (upper_path root) s.parent_ids))
        ∷ id_mapping_options info.labels;
}

first_mount : List Mount → Mount
first_mount [] = record { kind = []; source = []; options = [] }
first_mount (m ∷ ms) = m

module _ {W : Type 0} (root : Text) (hooks : RootfsHooks W) (host : Host W)
    (uid_map : Result Text) where
  -- In a nested user namespace the merged view is copied into the writable layer.
  unfoldable pub nested_mounts : Text → Snapshot → Mount → Action W (List Mount)
  unfolding first_mount
  nested_mounts key s overlay = do
    rewritten ← apply_rootfs_hook hooks key (overlay ∷ [])
    paths ← (λ w. (materialized_rootfs_paths rewritten, w))
    materialize_active_snapshot host root s.id (first_mount rewritten) paths.0 paths.1
    pure (bind_mount paths.0 (codes "rw") ∷ [])

  overlay_mounts : Text → Snapshot → Info → Action W (List Mount)
  unfolding nested_mounts
  overlay_mounts key s info =
      let overlay = overlay_mount root s info in
      if is_active s.kind && running_in_nested_user_ns uid_map
      then nested_mounts key s overlay
      else if not (is_active s.kind)
      then pure (overlay ∷ [])
      else apply_rootfs_hook hooks key (overlay ∷ [])

  by_parents : Text → Snapshot → Info → List Text → Action W (List Mount)
  unfolding overlay_mounts
  by_parents key s info [] =
      pure
        (bind_mount (upper_path root s.id) (if is_view s.kind then codes "ro" else codes "rw") ∷ [])
  by_parents key s info (p ∷ []) =
      if is_active s.kind
      then overlay_mounts key s info
      else pure (bind_mount (upper_path root p) (codes "ro") ∷ [])
  by_parents key s info (p ∷ q ∷ ps) = overlay_mounts key s info

  unfoldable pub mounts : Text → Snapshot → Info → Action W (List Mount)
  unfolding by_parents
  mounts key s info = by_parents key s info s.parent_ids
