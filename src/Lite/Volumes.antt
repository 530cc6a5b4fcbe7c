-- ===== src/Lite/Volumes.antt =====
-- sysbox-runc-lite/lite.go: an empty volume is filled from the image.
pub mod Untouched
use sysbox.Prelude.{
  Bool, not, ◌||◌, Option, none, some, List, [], ◌∷◌, if◌then◌else◌, Result, ok, err, errorf, wrap,
  is_error, os_not_exist,
}
use sysbox.Go.Strings.{Text, codes, text_eq, blank, trim_prefix}
use sysbox.Go.Filepath.{slash, dot, clean, abs, join_path}
use sysbox.Action.{Action, pure, fail, in_context, ◌>>=◌, ◌>>◌}
use sysbox.Rootfs.Os.{is_dir, is_symlink}
use sysbox.Rootfs.Types.{OciMount}
use sysbox.Lite.Detect.{lite_mount_read_only, detect_lite_pvc_source_at}
use sysbox.Lite.Dirs.{LiteOs, dir_empty, copy_dir}

-- The parts of `specs.Spec` in use: the root's path, if there is a root, the container's name and
-- the sandbox's uid of the annotations, where a missing one is the empty text, and the mounts.
pub record LiteSpec : Type 0 where
  pub root_path : Option Text
  pub container_name : Text
  pub sandbox_uid : Text
  pub rootfs_annotation : Text
  pub mounts : List OciMount

-- `relative` of a mount's destination, in the code.
unfoldable pub relative_destination : Text → Text
relative_destination destination = trim_prefix (clean destination) (slash ∷ [])

module _ {W : Type 0} (os : LiteOs W) (exists : Text → W → Bool) (cwd : Result Text) where
  -- The image's directory of a mount is copied; a path that is not a directory is left alone.
  unfoldable pub copy_image : Text → Text → Text → Action W (Unit {0})
  copy_image image_path source destination w =
      let (r, v) = os.lstat image_path w in
      elim r [
        | err e ↦
            (if is_error e os_not_exist
              then pure tt v
              else fail (wrap "inspect image volume path %s" e) v)
        | ok kind ↦
            (if not (is_dir kind)
              then pure tt v
              else if is_symlink kind
              then fail (errorf "image volume path %s is a symlink") v
              else in_context "initialize PVC mount %s" (copy_dir os image_path source) v)
      ]

  -- Only an empty directory of the volume is filled.
  fill_empty : Text → Text → OciMount → Action W (Unit {0})
  unfolding copy_image
  fill_empty rootfs source mount w =
      let (empty, v) = dir_empty os source w in
      elim empty [
        | err e ↦ pure tt v
        | ok b ↦
            let relative = relative_destination mount.destination in
            if not b
            then pure tt v
            else if text_eq relative dot || blank relative
            then pure tt v
            else copy_image (join_path (rootfs ∷ relative ∷ [])) source mount.destination v
      ]

  unfoldable pub fill_source : Text → Text → OciMount → Action W (Unit {0})
  unfolding fill_empty
  fill_source rootfs source mount w =
      let (r, v) = os.lstat source w in
      elim r [
        | err e ↦ pure tt v
        | ok kind ↦
            (if not (is_dir kind) || is_symlink kind
              then pure tt v
              else fill_empty rootfs source mount v)
      ]

  unfoldable pub init_mount : Text → Text → Text → Text → OciMount → Action W (Unit {0})
  unfolding fill_source
  init_mount rootfs pod_uid name pods_dir mount w =
      if not (text_eq mount.kind (codes "bind")) || lite_mount_read_only mount
      then pure tt w
      else elim (detect_lite_pvc_source_at (λ p. exists p w) cwd mount.source pod_uid name
          pods_dir) [ none ↦ pure tt w | some source ↦ fill_source rootfs source mount w ]

  init_mounts : Text → Text → Text → Text → List OciMount → Action W (Unit {0})
  unfolding init_mount
  init_mounts rootfs pod_uid name pods_dir [] = pure tt
  init_mounts rootfs pod_uid name pods_dir (mount ∷ mounts) = do
    init_mount rootfs pod_uid name pods_dir mount
    init_mounts rootfs pod_uid name pods_dir mounts

  with_root : Text → LiteSpec → Option Text → Action W (Unit {0})
  unfolding init_mounts
  with_root pods_dir spec none = pure tt
  with_root pods_dir spec (some path) =
      if blank path || (blank spec.container_name || blank spec.sandbox_uid) then pure tt else do
        rootfs ← in_context "resolve container rootfs" (λ w. (abs cwd path, w))
        init_mounts rootfs spec.sandbox_uid spec.container_name pods_dir spec.mounts

  unfoldable pub init_lite_volumes_at : LiteSpec → Text → Action W (Unit {0})
  unfolding with_root
  init_lite_volumes_at spec pods_dir = with_root pods_dir spec spec.root_path
