-- ===== src/Snapshotter/Mount/Rewrite.antt =====
-- Rewriting a mount leads it to the new directories, and reading it gives these back.
use sysbox.Prelude.{
  ◌≡◌, refl, Bool, true, false, not, ◌&&◌, List, [], ◌∷◌, ◌++◌, arith, if◌then◌else◌, any, ok,
}
use sysbox.Go.Strings.{Text, text_eq_refl, blank, has_prefix, has_prefix-append, trim_prefix-append}
use sysbox.Snapshotter.Mount.{
  Mount, fuse_overlay, upperdir_option, workdir_option, rewrite_options,
  rewrite_fuse_overlay_mounts, scan_options, materialized_rootfs_paths,
}

abbrev pub has_upper : List Text → Bool
has_upper = any (λ o. has_prefix o upperdir_option)

-- An option that the code takes for the workdir.
abbrev is_work : Text → Bool
is_work o = not (has_prefix o upperdir_option) && has_prefix o workdir_option

abbrev pub has_work : List Text → Bool
has_work = any is_work

upper-not_work : (s : Text) → has_prefix (workdir_option ++ s) upperdir_option ≡ false
unfolding has_prefix
upper-not_work s = refl

module _ (upper work : Text) where
  scan-upper :
      (o u w : Text) (os : List Text)
      → has_prefix o upperdir_option ≡ true
      → scan_options u w (rewrite_options upper work (o ∷ os))
        ≡ scan_options upper w (rewrite_options upper work os)
  unfolding scan_options rewrite_options
  scan-upper o u w os h =
      rw (h, has_prefix-append upperdir_option upper, trim_prefix-append upperdir_option upper)

  scan-work :
      (o u w : Text) (os : List Text)
      → has_prefix o upperdir_option ≡ false
      → has_prefix o workdir_option ≡ true
      → scan_options u w (rewrite_options upper work (o ∷ os))
        ≡ scan_options u work (rewrite_options upper work os)
  unfolding scan_options rewrite_options
  scan-work o u w os h k = rw (
    h,
    k,
    upper-not_work work,
    has_prefix-append workdir_option work,
    trim_prefix-append workdir_option work,
  )

  scan-other :
      (o u w : Text) (os : List Text)
      → has_prefix o upperdir_option ≡ false
      → has_prefix o workdir_option ≡ false
      → scan_options u w (rewrite_options upper work (o ∷ os))
        ≡ scan_options u w (rewrite_options upper work os)
  unfolding scan_options rewrite_options
  scan-other o u w os h k = rw (h, k, h, k)

  -- The directories that are read: the new one where there is such an option, the old one otherwise.
  pub scan-rewrite_options :
      (u w : Text) (os : List Text)
      → scan_options u w (rewrite_options upper work os)
        ≡ (if has_upper os then upper else u, if has_work os then work else w)
  unfolding any
  scan-rewrite_options u w [] = unfold scan_options rewrite_options in refl
  scan-rewrite_options u w (o ∷ os) = ground (
    arith,
    scan-upper o u w os,
    scan-work o u w os,
    scan-other o u w os,
    scan-rewrite_options upper w os,
    scan-rewrite_options u work os,
    scan-rewrite_options u w os,
  )

  -- Of one fuse-overlayfs mount with an upperdir and a workdir, rewriting to two directories and
  -- reading the paths gives these two, if neither is empty.
  pub materialized_rootfs_paths-rewrite :
      (m : Mount)
      → m.kind ≡ fuse_overlay
      → has_upper m.options ≡ true
      → has_work m.options ≡ true
      → blank upper ≡ false
      → blank work ≡ false
      → materialized_rootfs_paths (rewrite_fuse_overlay_mounts (m ∷ []) upper work)
        ≡ ok (upper, work)
  unfolding materialized_rootfs_paths rewrite_fuse_overlay_mounts
  materialized_rootfs_paths-rewrite m k hu hw bu bw = rw (
    k,
    text_eq_refl fuse_overlay,
    text_eq_refl fuse_overlay,
    scan-rewrite_options [] [] m.options,
    hu,
    hw,
    bu,
    bw,
  )
