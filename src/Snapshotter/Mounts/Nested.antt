-- ===== src/Snapshotter/Mounts/Nested.antt =====
-- The mount of an active snapshot in a nested user namespace.
use sysbox.Prelude.{
  ◌≡◌, refl, sym, ap, ◌∙◌, true, false, Option, none, some, List, [], ◌∷◌, ◌++◌, arith, any, Result,
  ok, is_empty,
}
use sysbox.Go.Strings.{Text, codes, has_prefix, trim_prefix, text_eq_refl}
use sysbox.Action.{>>=-eq-ok}
use sysbox.Go.Filepath.{join_path}
use sysbox.Rootfs.Types.{PreparedRootfs}
use sysbox.Snapshotter.Mount.{
  Mount, fuse_overlay, upperdir_option, workdir_option, scan_options, rewrite_options,
  rewrite_fuse_overlay_mounts, materialized_rootfs_paths,
}
use sysbox.Snapshotter.Mount.Rewrite.{has_upper, has_work, scan-rewrite_options}
use sysbox.Snapshotter.Hooks.{RootfsHooks, apply_rootfs_hook}
use sysbox.Snapshotter.Hooks.Prepared.{Leads, led, apply_rootfs_hook-cases}
use sysbox.Snapshotter.Materialize.{Host, materialize_active_snapshot, running_in_nested_user_ns}
use sysbox.Snapshotter.Mounts.{
  Snapshot, Info, is_active, upper_path, work_path, bind_mount, first_mount, own_options,
  id_mapping_options, grouped, overlay_mount, nested_mounts, overlay_mounts, by_parents, mounts,
}

-- The option of the mappings says nothing of the directories.
scan-grouped : (u w : Text) (os : List Text) → scan_options u w (grouped os) ≡ (u, w)
unfolding scan_options grouped has_prefix
scan-grouped u w [] = refl
scan-grouped u w (o ∷ os) = refl

materialized_rootfs_paths-scan :
    (source : Text) (os : List Text) {paths : Text × Text}
    → materialized_rootfs_paths (record { kind = fuse_overlay; source = source; options = os } ∷ [])
      ≡ ok paths
    → scan_options [] [] os ≡ paths
unfolding materialized_rootfs_paths
materialized_rootfs_paths-scan source os h = ground (arith, text_eq_refl fuse_overlay, h)

module _ (root : Text) (s : Snapshot) (info : Info) (active : is_active s.kind ≡ true) where
  own_options-active :
      own_options root s
      ≡ (workdir_option ++ work_path root s.id) ∷ (upperdir_option ++ upper_path root s.id) ∷ []
  unfolding own_options
  own_options-active = ground (arith, active)

  scan-overlay_mount :
      scan_options [] [] (overlay_mount root s info).options
      ≡ (upper_path root s.id, work_path root s.id)
  unfolding overlay_mount scan_options has_prefix trim_prefix id_mapping_options
  scan-overlay_mount = rw own_options-active (scan-grouped _ _ _)

  has_directories :
      (has_upper (overlay_mount root s info).options ≡ true)
      × (has_work (overlay_mount root s info).options ≡ true)
  unfolding overlay_mount has_prefix any
  has_directories = rw own_options-active (refl, refl)

  -- The directories that are read from the snapshot's mount are its own.
  own_paths :
      {paths : Text × Text}
      → materialized_rootfs_paths (overlay_mount root s info ∷ []) ≡ ok paths
      → paths ≡ (upper_path root s.id, work_path root s.id)
  unfolding overlay_mount
  own_paths h =
      sym (materialized_rootfs_paths-scan (codes "overlay") (overlay_mount root s info).options h)
      ∙ scan-overlay_mount

  -- Those that are read from the rewritten one are the ones that it was rewritten to.
  rewritten_paths :
      (upper work : Text) {paths : Text × Text}
      → materialized_rootfs_paths
          (rewrite_fuse_overlay_mounts (overlay_mount root s info ∷ []) upper work)
        ≡ ok paths
      → paths ≡ (upper, work)
  unfolding overlay_mount rewrite_fuse_overlay_mounts
  rewritten_paths upper work h =
      sym (
        materialized_rootfs_paths-scan (codes "overlay")
          (rewrite_options upper work (overlay_mount root s info).options)
          (rw (text_eq_refl fuse_overlay) at h))
      ∙ scan-rewrite_options upper work [] [] (overlay_mount root s info).options
      ∙ rw (has_directories.0, has_directories.1) refl

  module _ {W : Type 0} (hooks : RootfsHooks W) (host : Host W) (uid_map : Result Text) where
    -- The directory of the layer that the container is led to, or the snapshot's own.
    abbrev upper_of : Option PreparedRootfs → Text
    upper_of none = join_path (root ∷ codes "snapshots" ∷ s.id ∷ codes "fs" ∷ [])
    upper_of (some prepared) = prepared.upper_dir

    -- One writable bind mount, of that directory.
    abbrev pub IsUpper : Text → W → List Mount → Type 0
    IsUpper key w ms =
        (o : Option PreparedRootfs) × Leads hooks key w o
        × (ms
            ≡ record {
              kind = codes "bind";
              source = upper_of o;
              options = codes "rw" ∷ codes "rbind" ∷ [];
            }
              ∷ [])

    paths-led :
        (o : Option PreparedRootfs) {paths : Text × Text}
        → materialized_rootfs_paths (led o (overlay_mount root s info ∷ [])) ≡ ok paths
        → paths.0 ≡ upper_of o
    unfolding led upper_path
    paths-led none h = ap (λ x. x.0) (own_paths h)
    paths-led (some prepared) h =
        ap (λ x. x.0) (rewritten_paths prepared.upper_dir prepared.work_dir h)

    nested_mounts-IsUpper :
        (key : Text) (w : W) {ms : List Mount}
        → (nested_mounts root hooks host uid_map key s (overlay_mount root s info) w).0 ≡ ok ms
        → IsUpper key w ms
    unfolding nested_mounts bind_mount
    nested_mounts-IsUpper key w h =
        let (rewritten, w1, q, h1) =
          >>=-eq-ok (apply_rootfs_hook hooks key (overlay_mount root s info ∷ [])) _ w h in
        let (paths, w2, p, h2) =
          >>=-eq-ok (λ v. (materialized_rootfs_paths rewritten, v)) _ w1 h1 in
        let (_, w3, _, last) =
          >>=-eq-ok
            (materialize_active_snapshot host root s.id (first_mount rewritten) paths.0 paths.1) _
            w2 h2 in
        let (o, leads, e) =
          apply_rootfs_hook-cases hooks key (overlay_mount root s info ∷ []) w q in
        (o, leads, ground (arith, last, paths-led o {paths = paths} (rw e at p)))

    -- In a nested user namespace, where making the mounts of an active snapshot with a parent succeeds,
    -- there is one mount, a writable bind mount: of the directory that the preparer gave for the
    -- container's path on its claim, where the answers to the hooks name a layer for a container that is
    -- not the sidecar, and otherwise of the snapshot's own directory, which happens only where a hook is
    -- nil, the container's identity is unavailable, no layer is configured for it, or it is the sidecar.
    pub mounts-IsUpper :
        (key : Text) (w : W) {ms : List Mount}
        → running_in_nested_user_ns uid_map ≡ true
        → is_empty s.parent_ids ≡ false
        → (mounts root hooks host uid_map key s info w).0 ≡ ok ms
        → IsUpper key w ms
    unfolding mounts by_parents overlay_mounts
    mounts-IsUpper key w {ms} nested parents h = by_parent s.parent_ids parents h
      where
        by_parent :
            (ps : List Text)
            → is_empty ps ≡ false
            → (by_parents root hooks host uid_map key s info ps w).0 ≡ ok ms
            → IsUpper key w ms
        by_parent [] e q = absurd (ground arith)
        by_parent (p ∷ []) e q = nested_mounts-IsUpper key w (rw (active, nested) at q)
        by_parent (p ∷ p' ∷ ps) e q = nested_mounts-IsUpper key w (rw (active, nested) at q)
