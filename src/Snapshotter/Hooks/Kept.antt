-- ===== src/Snapshotter/Hooks/Kept.antt =====
-- What the hook may change of the mounts.
use sysbox.Prelude.{◌≡◌, refl, ◌⊎◌, inr, Option, none, some, List, [], ◌∷◌, arith, ok}
use sysbox.Go.Strings.{Text, text_eq_iff}
use sysbox.Rootfs.Types.{PreparedRootfs}
use sysbox.Snapshotter.Mount.{Mount, fuse_overlay, rewrite_fuse_overlay_mounts}
use sysbox.Snapshotter.Hooks.{RootfsHooks, apply_rootfs_hook}
use sysbox.Snapshotter.Hooks.Prepared.{led, apply_rootfs_hook-cases}

-- The mounts are the same, but for the options of the fuse-overlayfs ones.
abbrev pub AreSame : List Mount → List Mount → Type 0
AreSame [] [] = Unit
AreSame [] (n ∷ ns) = ⊥
AreSame (m ∷ ms) [] = ⊥
AreSame (m ∷ ms) (n ∷ ns) =
    (n.kind ≡ m.kind)
    × (n.source ≡ m.source)
    × ((m.kind ≡ fuse_overlay) ⊎ (n.options ≡ m.options))
    × AreSame ms ns

AreSame-refl : (ms : List Mount) → AreSame ms ms
AreSame-refl [] = tt
AreSame-refl (m ∷ ms) = (refl, refl, inr refl, AreSame-refl ms)

AreSame-rewrite :
    (upper work : Text) (ms : List Mount) → AreSame ms (rewrite_fuse_overlay_mounts ms upper work)
unfolding rewrite_fuse_overlay_mounts
AreSame-rewrite upper work [] = tt
AreSame-rewrite upper work (m ∷ ms) = (
  ground arith,
  ground arith,
  ground (arith, text_eq_iff m.kind fuse_overlay),
  AreSame-rewrite upper work ms,
)

AreSame-led : (o : Option PreparedRootfs) (ms : List Mount) → AreSame ms (led o ms)
unfolding led
AreSame-led none ms = AreSame-refl ms
AreSame-led (some prepared) ms = AreSame-rewrite prepared.upper_dir prepared.work_dir ms

-- Where the hook succeeds, whatever its resolvers answer, it gives as many mounts as it was given, with
-- the same kinds and sources in the same order; only options of fuse-overlayfs mounts may differ.
pub apply_rootfs_hook-AreSame :
    {W : Type 0} (hooks : RootfsHooks W) (key : Text) (mounts : List Mount) (w : W)
    {result : List Mount}
    → (apply_rootfs_hook hooks key mounts w).0 ≡ ok result
    → AreSame mounts result
apply_rootfs_hook-AreSame hooks key mounts w h =
    let (o, _, e) = apply_rootfs_hook-cases hooks key mounts w h in rw e (AreSame-led o mounts)
