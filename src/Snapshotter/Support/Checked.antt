-- ===== src/Snapshotter/Support/Checked.antt =====
-- What the check of fuse-overlayfs does.
use sysbox.Prelude.{◌++◌, refl, ◌≡◌, sym, ap, subst, ◌∙◌, Bool, false, [], ◌∷◌, ok}
use sysbox.Go.Strings.{Text, codes}
use sysbox.Go.Filepath.{join_path}
use sysbox.Snapshotter.Mount.{Mount}
use sysbox.Action.{in_context, >>=-eq-ok, >>=-run_ok, in_context-eq-ok}
use sysbox.Snapshotter.Support.{
  System, check_mount, check_dest, and_remove_all, make_dirs, try_mount,
  supports_readonly_multiple_lower_dir, supported,
}

module _ {W : Type 0} (system : System W) (there : Text → W → Bool)
    (removes : (p : Text) (w : W) → there p (system.remove_all p w).1 ≡ false) where
  -- The two directories "lower1" and "lower2" that were made in `td`, and the fuse-overlayfs mount with
  -- both as its lower directories, and no other option, that succeeded on "merged" in `td`.
  pub record HaveMounted (td : Text) : Type 0 where
    pub before1 : W
    pub before2 : W
    pub made1 : (system.mkdir (join_path (td ∷ codes "lower1" ∷ [])) 0o755 before1).0 ≡ ok tt
    pub made2 : (system.mkdir (join_path (td ∷ codes "lower2" ∷ [])) 0o755 before2).0 ≡ ok tt
    pub fs : Mount
    pub during : W
    pub is_overlay : fs.kind ≡ codes "fuse3.fuse-overlayfs"
    pub layers :
        fs.options
        ≡ (codes "lowerdir="
            ++ join_path (td ∷ codes "lower2" ∷ [])
            ++ codes ":"
            ++ join_path (td ∷ codes "lower1" ∷ []))
          ∷ []
    pub mounts : (system.mount_at fs (join_path (td ∷ codes "merged" ∷ [])) during).0 ≡ ok tt

  try_mount-mounts : (td : Text) (w : W) → (try_mount system td w).0 ≡ ok tt → HaveMounted td
  unfolding try_mount make_dirs check_mount check_dest
  try_mount-mounts td w h =
      let (_, v, dirs, h1) =
        >>=-eq-ok (make_dirs system td (codes "lower1" ∷ codes "lower2" ∷ codes "merged" ∷ [])) _ w
          h in
      let (_, w1, made1, dirs1) =
        >>=-eq-ok (system.mkdir (join_path (td ∷ codes "lower1" ∷ [])) 0o755) _ w dirs in
      let (_, w2, made2, _) =
        >>=-eq-ok (system.mkdir (join_path (td ∷ codes "lower2" ∷ [])) 0o755) _ w1 dirs1 in
      let (_, _, q, _) =
        >>=-eq-ok
          (in_context "failed to mount fuse-overlayfs (%+v) on %s"
            (system.mount_at (check_mount td) (check_dest td)))
          _ v h1 in
      record {
        before1 = w;
        before2 = w1;
        made1 = made1;
        made2 = made2;
        fs = check_mount td;
        during = v;
        is_overlay = refl;
        layers = refl;
        mounts =
            in_context-eq-ok "failed to mount fuse-overlayfs (%+v) on %s"
              (system.mount_at (check_mount td) (check_dest td)) v q;
      }

  -- A directory of the check, the mount that succeeded in it, and its end.
  pub record IsChecked (root : Text) (after : W) : Type 0 where
    pub td : Text
    pub before : W
    pub made : (system.mkdir_temp root (codes "fuseoverlayfs-check") before).0 ≡ ok td
    pub mounted : HaveMounted td
    pub gone : there td after ≡ false

  supports-IsChecked :
      (d : Text) (w : W)
      → (supports_readonly_multiple_lower_dir system d w).0 ≡ ok tt
      → IsChecked d (supports_readonly_multiple_lower_dir system d w).1
  unfolding supports_readonly_multiple_lower_dir and_remove_all
  supports-IsChecked d w h =
      let check = supports_readonly_multiple_lower_dir system d w in
      let (td, made, same) =
        >>=-run_ok (system.mkdir_temp d (codes "fuseoverlayfs-check"))
          (λ td. and_remove_all system td (try_mount system td)) w h in
      let v : W = (system.mkdir_temp d (codes "fuseoverlayfs-check") w).1 in
      record {
        td = td;
        before = w;
        made = made;
        mounted = try_mount-mounts td v (sym (ap (λ x. x.0) same) ∙ h);
        gone = ap (λ x. there td x.1) same ∙ removes td (try_mount system td v).1;
      }

  -- If the check succeeds, it has made a new directory below the root with "lower1" and "lower2" in it, a
  -- fuse-overlayfs mount with these two lower directories has succeeded on "merged" in it, and that new
  -- directory is gone, where removing a directory works.
  pub supported-IsChecked :
      (root : Text) (w : W)
      → (supported system root w).0 ≡ ok tt
      → IsChecked root (supported system root w).1
  unfolding supported
  supported-IsChecked root w h =
      let (_, _, same) =
        >>=-run_ok (in_context "%s not installed" (system.look_path (codes "fuse-overlayfs"))) _ w
          h in
      let h1 = sym (ap (λ x. x.0) same) ∙ h in
      let (_, _, same1) = >>=-run_ok (system.mkdir_all root 0o700) _ _ h1 in
      subst (λ x. IsChecked root x.1) (sym (same ∙ same1))
        (supports-IsChecked root _ (
          in_context-eq-ok "fuse-overlayfs not functional, make sure running with kernel >= 4.18"
            (supports_readonly_multiple_lower_dir system root) _ (sym (ap (λ x. x.0) same1) ∙ h1)))
