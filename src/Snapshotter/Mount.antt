-- ===== src/Snapshotter/Mount.antt =====
-- sysbox-snapshotter/fuseoverlayfs.go: mounts and their options.
pub mod Rewrite
use sysbox.Prelude.{
  Bool, true, false, not, ◌&&◌, ◌||◌, Option, none, some, List, [], ◌∷◌, ◌++◌, if◌then◌else◌,
  Result, ok, err, errorf,
}
use sysbox.Go.Strings.{Text, codes, text_eq, blank, has_prefix, trim_prefix, replace_all}

-- `mount.Mount` of containerd.
pub record Mount : Type 0 where
  pub kind : Text
  pub source : Text
  pub options : List Text

abbrev pub fuse_overlay : Text
fuse_overlay = codes "fuse3.fuse-overlayfs"

abbrev pub upperdir_option : Text
upperdir_option = codes "upperdir="

abbrev pub workdir_option : Text
workdir_option = codes "workdir="

unfoldable pub convert_id_mapping_option : Text → Text
unfolding replace_all
convert_id_mapping_option label = replace_all b',' b':' label

unfoldable pub rewrite_option : Text → Text → Text → Text
rewrite_option upper_dir work_dir option =
    if has_prefix option upperdir_option
    then upperdir_option ++ upper_dir
    else if has_prefix option workdir_option
    then workdir_option ++ work_dir
    else option

unfoldable pub rewrite_options : Text → Text → List Text → List Text
unfolding rewrite_option
rewrite_options upper_dir work_dir [] = []
rewrite_options upper_dir work_dir (option ∷ options) =
    rewrite_option upper_dir work_dir option ∷ rewrite_options upper_dir work_dir options

unfoldable pub rewrite_fuse_overlay_mounts : List Mount → Text → Text → List Mount
unfolding rewrite_options
rewrite_fuse_overlay_mounts [] upper_dir work_dir = []
rewrite_fuse_overlay_mounts (m ∷ ms) upper_dir work_dir =
    (if text_eq m.kind fuse_overlay
      then record m { options = rewrite_options upper_dir work_dir m.options }
      else m)
    ∷ rewrite_fuse_overlay_mounts ms upper_dir work_dir

-- The loop over the options: the last one of each kind counts.
unfoldable pub scan_options : Text → Text → List Text → Text × Text
scan_options upper work [] = (upper, work)
scan_options upper work (option ∷ options) =
    scan_options
      (if has_prefix option upperdir_option then trim_prefix option upperdir_option else upper)
      (if not (has_prefix option upperdir_option) && has_prefix option workdir_option
        then trim_prefix option workdir_option
        else work)
      options

unfoldable pub materialized_rootfs_paths : List Mount → Result (Text × Text)
unfolding scan_options
materialized_rootfs_paths (m ∷ []) =
    if not (text_eq m.kind fuse_overlay)
    then err (errorf "expected one active fuse-overlayfs mount")
    else let (upper, work) = scan_options [] [] m.options in
      if blank upper || blank work
      then err (errorf "active fuse-overlayfs mount has no upperdir or workdir")
      else ok (upper, work)
materialized_rootfs_paths _ = err (errorf "expected one active fuse-overlayfs mount")
