-- ===== src/Snapshotter/Support.antt =====
-- sysbox-snapshotter/check.go: whether fuse-overlayfs works below a directory.
pub mod Checked
use sysbox.Prelude.{ℕ, List, [], ◌∷◌, ◌++◌, Result, ok, err}
use sysbox.Go.Strings.{Text, codes}
use sysbox.Go.Filepath.{join_path}
use sysbox.Action.{Action, pure, in_context, ◌>>=◌, ◌>>◌}
use sysbox.Snapshotter.Mount.{Mount, fuse_overlay}

-- The calls of the system that a start of the snapshotter makes.
pub record System (W : Type 0) : Type 0 where
  pub look_path : Text → Action W Text
  pub mkdir_all : Text → ℕ → Action W (Unit {0})
  pub mkdir : Text → ℕ → Action W (Unit {0})
  pub mkdir_temp : Text → Text → Action W Text
  pub remove_all : Text → Action W (Unit {0})
  pub mount_at : Mount → Text → Action W (Unit {0})
  pub unmount_all : Text → Action W (Unit {0})

-- The mount of the check, with two lower directories.
unfoldable pub check_mount : Text → Mount
check_mount td = record {
  kind = fuse_overlay;
  source = codes "overlay";
  options =
      (codes "lowerdir="
        ++ join_path (td ∷ codes "lower2" ∷ [])
        ++ codes ":"
        ++ join_path (td ∷ codes "lower1" ∷ []))
      ∷ [];
}

unfoldable pub check_dest : Text → Text
check_dest td = join_path (td ∷ codes "merged" ∷ [])

module _ {W : Type 0} (system : System W) where
  -- The deferred removal: its error is only logged.
  and_remove_all : Text → Action W (Unit {0}) → Action W (Unit {0})
  and_remove_all td act w = let (r, v) = act w in let (_, u) = system.remove_all td v in (r, u)

  make_dirs : Text → List Text → Action W (Unit {0})
  make_dirs td [] = pure tt
  make_dirs td (dir ∷ dirs) = do system.mkdir (join_path (td ∷ dir ∷ [])) 0o755; make_dirs td dirs

  -- The error of the unmounting is only logged.
  and_unmount_all : Text → Action W (Unit {0})
  and_unmount_all dest w = let (_, v) = system.unmount_all dest w in pure tt v

  try_mount : Text → Action W (Unit {0})
  unfolding make_dirs and_unmount_all check_mount check_dest
  try_mount td = do
    make_dirs td (codes "lower1" ∷ codes "lower2" ∷ codes "merged" ∷ [])
    in_context "failed to mount fuse-overlayfs (%+v) on %s"
        (system.mount_at (check_mount td) (check_dest td))
    and_unmount_all (check_dest td)

  unfoldable pub supports_readonly_multiple_lower_dir : Text → Action W (Unit {0})
  unfolding and_remove_all try_mount
  supports_readonly_multiple_lower_dir d = do
    td ← system.mkdir_temp d (codes "fuseoverlayfs-check")
    and_remove_all td (try_mount td)

  unfoldable pub supported : Text → Action W (Unit {0})
  unfolding supports_readonly_multiple_lower_dir
  supported root = do
    in_context "%s not installed" (system.look_path (codes "fuse-overlayfs"))
    system.mkdir_all root 0o700
    in_context "fuse-overlayfs not functional, make sure running with kernel >= 4.18"
        (supports_readonly_multiple_lower_dir root)
