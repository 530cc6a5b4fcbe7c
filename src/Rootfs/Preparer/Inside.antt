-- ===== src/Rootfs/Preparer/Inside.antt =====
-- Where the directories of a layer lie.
use sysbox.Prelude.{
  ◌≡◌, refl, ap, ◌∙◌, true, false, Option, [], ◌∷◌, ◌++◌, arith, any, Result, ok, Error,
}
use sysbox.Go.Strings.{Text, codes, text_eq}
use sysbox.Go.Strings.Split.{split, join}
use sysbox.Go.Filepath.{is_abs, elements, join_path, clean}
use sysbox.Go.Filepath.Normal.{is_up}
use sysbox.Go.Filepath.Inside.{elements-join_path-clean}
use sysbox.Rootfs.Os.{Os}
use sysbox.Rootfs.Path.{safe_join}
use sysbox.Rootfs.Path.Safety.{safe_join-IsBelow}
use sysbox.Rootfs.Types.{PrepareRootfsRequest, PreparedRootfs}
use sysbox.Rootfs.Preparer.{prepare_at, prepare_rootfs_rw_layer}

module _ {W : Type 0} (os : Os W) where
  prepare_at-ok :
      (mount layer_root : Text) (w : W) {prepared : PreparedRootfs}
      → (prepare_at os mount layer_root w).0 ≡ ok prepared
      → (prepared.upper_dir ≡ join_path (layer_root ∷ codes "upper" ∷ []))
        × (prepared.work_dir ≡ join_path (layer_root ∷ codes "work" ∷ []))
  unfolding prepare_at
  prepare_at-ok mount layer_root w h = ground arith

  prepare_rootfs_rw_layer-ok :
      (context_error : Option Error) (cwd : Result Text) (request : PrepareRootfsRequest) (w : W)
      {prepared : PreparedRootfs}
      → (prepare_rootfs_rw_layer os context_error cwd request w).0 ≡ ok prepared
      → (layer_root : Text) × (safe_join cwd request.pvc_mount_path request.path ≡ ok layer_root)
        × ((prepare_at os request.pvc_mount_path layer_root w).0 ≡ ok prepared)
  unfolding prepare_rootfs_rw_layer
  prepare_rootfs_rw_layer-ok context_error cwd request w h = ground arith

-- A plain name is one element behind those of a directory.
elements-upper :
    (d : Text)
    → is_abs d ≡ true
    → elements (join_path (d ∷ codes "upper" ∷ [])) ≡ elements d ++ codes "upper" ∷ []
unfolding split text_eq clean elements join
elements-upper d h = elements-join_path-clean d (codes "upper") h relative no_up
  where
    relative : is_abs (codes "upper") ≡ false
    relative = unfold is_abs in refl

    no_up : any is_up (elements (codes "upper")) ≡ false
    no_up = unfold elements any in refl

elements-work :
    (d : Text)
    → is_abs d ≡ true
    → elements (join_path (d ∷ codes "work" ∷ [])) ≡ elements d ++ codes "work" ∷ []
unfolding split text_eq clean elements join
elements-work d h = elements-join_path-clean d (codes "work") h relative no_up
  where
    relative : is_abs (codes "work") ≡ false
    relative = unfold is_abs in refl

    no_up : any is_up (elements (codes "work")) ≡ false
    no_up = unfold elements any in refl

-- Whatever the operating system answers, the directories that a preparation returns are those of the
-- request's path below the claim's mount: their elements are the mount's, then the path's, of which
-- none is `..`, and then `upper` or `work`, if the mount is an absolute path.
pub prepare_rootfs_rw_layer-IsBelow :
    {W : Type 0} (os : Os W) (context_error : Option Error) (cwd : Result Text)
    (request : PrepareRootfsRequest) (w : W) {prepared : PreparedRootfs}
    → is_abs request.pvc_mount_path ≡ true
    → (prepare_rootfs_rw_layer os context_error cwd request w).0 ≡ ok prepared
    → (elements prepared.upper_dir
        ≡ (elements request.pvc_mount_path ++ elements request.path) ++ codes "upper" ∷ [])
      × (elements prepared.work_dir
          ≡ (elements request.pvc_mount_path ++ elements request.path) ++ codes "work" ∷ [])
      × (any is_up (elements request.path) ≡ false)
prepare_rootfs_rw_layer-IsBelow os context_error cwd request w a h =
    let (root, joined, made) = prepare_rootfs_rw_layer-ok os context_error cwd request w h in
    let (upper, work) = prepare_at-ok os request.pvc_mount_path root w made in
    let (root_abs, below, up) =
      safe_join-IsBelow cwd request.pvc_mount_path request.path root a joined in
    (
      ap elements upper ∙ elements-upper root root_abs ∙ ap (λ es. es ++ codes "upper" ∷ []) below,
      ap elements work ∙ elements-work root root_abs ∙ ap (λ es. es ++ codes "work" ∷ []) below,
      up,
    )
