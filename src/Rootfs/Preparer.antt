-- ===== src/Rootfs/Preparer.antt =====
-- sysbox-snapshotter/rootfs/local_preparer.go: the directories of a layer on its volume.
pub mod Inside
use sysbox.Prelude.{
  not, ◌||◌, Option, List, [], ◌∷◌, if◌then◌else◌, Result, ok, err, errorf, wrap, sentinel, Error,
  is_error, os_not_exist, unsafe_layer_path, unmanaged_rootfs_layer, check_context,
}
use sysbox.Go.Strings.{Text, codes, blank}
use sysbox.Go.Filepath.{join_path, rel}
use sysbox.Action.{Action, pure, fail, in_context, ◌>>=◌, ◌>>◌}
use sysbox.Rootfs.Path.{safe_join}
use sysbox.Rootfs.Types.{PrepareRootfsRequest, PreparedRootfs}
use sysbox.Rootfs.Os.{Os, FileKind, is_symlink, is_dir}

module _ {W : Type 0} (os : Os W) where
  after_lstat_root : Result FileKind → Action W (Unit {0})
  after_lstat_root (ok kind) w =
      if is_symlink kind then fail (sentinel unsafe_layer_path) w else pure tt w
  after_lstat_root (err e) w =
      if is_error e os_not_exist then pure tt w else fail (wrap "stat rootfs rw-layer path" e) w

  unfoldable pub reject_symlink_path : Text → Action W (Unit {0})
  unfolding after_lstat_root
  reject_symlink_path path w = let (r, v) = os.lstat path w in after_lstat_root r v

  -- The elements below `current` one by one; one that does not exist ends the walk.
  unfoldable pub walk_elements : Text → List Text → Action W (Unit {0})
  walk_elements current [] w = pure tt w
  walk_elements current (elem ∷ elems) w =
      let next = join_path (current ∷ elem ∷ []) in
      let (r, v) = os.lstat next w in
      let deeper = walk_elements next elems v in
      elim r [
        | ok kind ↦ (if is_symlink kind then fail (sentinel unsafe_layer_path) v else deeper)
        | err e ↦
            (if is_error e os_not_exist
              then pure tt v
              else fail (wrap "stat rootfs rw-layer path" e) v)
      ]

  unfoldable pub reject_symlink : Text → Text → Action W (Unit {0})
  unfolding reject_symlink_path walk_elements
  reject_symlink root path = do
    reject_symlink_path root
    elems ← in_context "resolve rootfs rw-layer path" (λ w. (rel root path, w))
    walk_elements root elems

  -- Before the directories are made: an error of `Lstat` is passed over.
  unfoldable pub check_before : Text → Action W (Unit {0})
  check_before path w =
      let (r, v) = os.lstat path w in
      elim r [
        | ok kind ↦
            (if is_symlink kind || not (is_dir kind)
              then fail (sentinel unmanaged_rootfs_layer) v
              else pure tt v)
        | err e ↦ pure tt v
      ]

  -- Behind it: the path is a directory, and no symbolic link.
  unfoldable pub check_after : Text → Action W (Unit {0})
  check_after path w =
      let (r, v) = os.lstat path w in
      elim r [
        | ok kind ↦
            (if is_symlink kind || not (is_dir kind)
              then fail (sentinel unmanaged_rootfs_layer) v
              else pure tt v)
        | err e ↦ fail (wrap "stat rootfs rw-layer path" e) v
      ]

  -- Behind the computation of the layer's path.
  unfoldable pub prepare_at : Text → Text → Action W PreparedRootfs
  unfolding reject_symlink check_before check_after
  prepare_at pvc_mount_path layer_root = do
    reject_symlink pvc_mount_path layer_root
    let upper = join_path (layer_root ∷ codes "upper" ∷ [])
    let work = join_path (layer_root ∷ codes "work" ∷ [])
    check_before upper
    check_before work
    in_context "create rootfs upperdir" (os.mkdir_all upper 0o755)
    in_context "create rootfs workdir" (os.mkdir_all work 0o711)
    check_after upper
    check_after work
    pure (record { upper_dir = upper; work_dir = work })

  unfoldable pub prepare_rootfs_rw_layer :
      Option Error → Result Text → PrepareRootfsRequest → Action W PreparedRootfs
  unfolding prepare_at
  prepare_rootfs_rw_layer context_error cwd request = do
    (λ w. (check_context context_error, w))
    (λ w. (
      if blank request.pvc_mount_path then err (errorf "pvc mount path is required") else ok tt,
      w,
    ))
    layer_root ← (λ w. (safe_join cwd request.pvc_mount_path request.path, w))
    prepare_at request.pvc_mount_path layer_root
