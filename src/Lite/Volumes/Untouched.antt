-- ===== src/Lite/Volumes/Untouched.antt =====
-- Volumes that hold something are left as they are.
use sysbox.Prelude.{
  ◌≡◌, ◌≢◌, refl, Bool, true, false, Option, none, some, List, [], ◌∷◌, arith, Result, ok, err,
}
use sysbox.Go.Strings.{Text}
use sysbox.Go.Filepath.{abs}
use sysbox.Rootfs.Types.{OciMount}
use sysbox.Lite.Detect.{detect_lite_pvc_source_at}
use sysbox.Lite.Dirs.{LiteOs, dir_empty}
use sysbox.Lite.Volumes.{
  LiteSpec, fill_empty, fill_source, init_mount, init_mounts, with_root, init_lite_volumes_at,
}

module _ {W : Type 0} (os : LiteOs W) (exists : Text → W → Bool) (cwd : Result Text)
    (spec : LiteSpec) (pods_dir : Text) (w : W) (lstat_reads : (p : Text) → (os.lstat p w).1 ≡ w)
    (names_read : (p : Text) → (os.read_dir_names p w).1 ≡ w)
    (in_use : (source p : Text)
      → detect_lite_pvc_source_at
          (λ q. exists q w)
          cwd
          source
          spec.sandbox_uid
          spec.container_name
          pods_dir
        ≡ some p
      → (dir_empty os p w).0 ≢ ok true) where
  dir_empty-reads : (p : Text) → (dir_empty os p w).1 ≡ w
  unfolding dir_empty
  dir_empty-reads p = ground (arith, names_read p)

  untouched-fill_empty :
      (rootfs p : Text) (mount : OciMount)
      → (dir_empty os p w).0 ≢ ok true
      → fill_empty os exists cwd rootfs p mount w ≡ (ok tt, w)
  unfolding fill_empty
  untouched-fill_empty rootfs p mount n = go (dir_empty os p w).0 refl
    where
      go :
          (r : Result Bool)
          → (dir_empty os p w).0 ≡ r
          → fill_empty os exists cwd rootfs p mount w ≡ (ok tt, w)
      go (err e) q = ground (arith, dir_empty-reads p, q)
      go (ok true) q = absurd (n q)
      go (ok false) q = ground (arith, dir_empty-reads p, q)

  untouched-fill_source :
      (rootfs p : Text) (mount : OciMount)
      → (dir_empty os p w).0 ≢ ok true
      → fill_source os exists cwd rootfs p mount w ≡ (ok tt, w)
  unfolding fill_source
  untouched-fill_source rootfs p mount n =
      ground (arith, lstat_reads p, untouched-fill_empty rootfs p mount n)

  untouched-init_mount :
      (rootfs : Text) (mount : OciMount)
      → init_mount os exists cwd rootfs spec.sandbox_uid spec.container_name pods_dir mount w
        ≡ (ok tt, w)
  unfolding init_mount
  untouched-init_mount rootfs mount =
      go
        (detect_lite_pvc_source_at (λ q. exists q w) cwd mount.source spec.sandbox_uid
          spec.container_name pods_dir)
        refl
    where
      go :
          (found : Option Text)
          → detect_lite_pvc_source_at
              (λ q. exists q w)
              cwd
              mount.source
              spec.sandbox_uid
              spec.container_name
              pods_dir
            ≡ found
          → init_mount os exists cwd rootfs spec.sandbox_uid spec.container_name pods_dir mount w
            ≡ (ok tt, w)
      go none q = ground (arith, q)
      go (some p) q =
          ground (arith, q, untouched-fill_source rootfs p mount (in_use mount.source p q))

  untouched-init_mounts :
      (rootfs : Text) (mounts : List OciMount)
      → init_mounts os exists cwd rootfs spec.sandbox_uid spec.container_name pods_dir mounts w
        ≡ (ok tt, w)
  unfolding init_mounts
  untouched-init_mounts rootfs [] = refl
  untouched-init_mounts rootfs (mount ∷ mounts) =
      rw (untouched-init_mount rootfs mount) (untouched-init_mounts rootfs mounts)

  untouched-with_root : (root : Option Text) → (with_root os exists cwd pods_dir spec root w).1 ≡ w
  unfolding with_root
  untouched-with_root none = refl
  untouched-with_root (some path) = go (abs cwd path) refl
    where
      go :
          (r : Result Text)
          → abs cwd path ≡ r
          → (with_root os exists cwd pods_dir spec (some path) w).1 ≡ w
      go (err e) q = ground (arith, q)
      go (ok rootfs) q = ground (arith, q, untouched-init_mounts rootfs spec.mounts)

  -- If every volume that the detection accepts for the container holds something or cannot be read,
  -- and reading changes nothing, then the filling of the volumes leaves the world as it is.
  pub init_lite_volumes_at-in_use : (init_lite_volumes_at os exists cwd spec pods_dir w).1 ≡ w
  unfolding init_lite_volumes_at
  init_lite_volumes_at-in_use = untouched-with_root spec.root_path
