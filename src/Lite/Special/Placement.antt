-- ===== src/Lite/Special/Placement.antt =====
-- Which special directories the runtime mounts, and from where.
use sysbox.Prelude.{
  refl, true, Option, All, ◌≡◌, ◌∙◌, List, [], ◌∷◌, ◌++◌, arith, append_assoc, append-nil, Result,
  ok,
}
use sysbox.Go.Strings.{Text, codes, trim_prefix-append}
use sysbox.Go.Strings.Split.{join}
use sysbox.Go.Filepath.{slash, is_abs, elements, show_path, join_path}
use sysbox.Go.Filepath.Normal.{elements-Lacks}
use sysbox.Go.Filepath.Clean.{clean_lem}
use sysbox.Go.Filepath.Inside.{
  elements-IsName, is_abs-join_path, elements-join_path-join, any_up-elements_abs,
}
use sysbox.Action.{Action, continue-eq-ok, ◌>>◌}
use sysbox.Rootfs.Types.{OciMount}
use sysbox.Lite.Dirs.{LiteOs, dir_empty}
use sysbox.Lite.Special.{
  LiteHandoff, fill_special, special_mount, special_source, add_special_paths,
}

-- The mounts are bind mounts of the special paths, in order and recursively and without propagation to
-- their sources, each from the directory with the elements of the path below those of the root.
abbrev pub ArePlaced : Text → List Text → List OciMount → Type 0
ArePlaced root [] [] = Unit
ArePlaced root [] (m ∷ ms) = ⊥
ArePlaced root (dest ∷ dests) [] = ⊥
ArePlaced root (dest ∷ dests) (m ∷ ms) =
    (m.kind ≡ codes "bind")
    × (m.options ≡ codes "rbind" ∷ codes "rprivate" ∷ [])
    × (m.destination ≡ dest)
    × (is_abs m.source ≡ true)
    × (elements m.source ≡ elements root ++ elements dest)
    × ArePlaced root dests ms

special_source-join :
    (root dest : Text)
    → is_abs dest ≡ true
    → special_source root dest ≡ join_path (root ∷ join slash (elements dest) ∷ [])
unfolding special_source show_path
special_source-join root dest h =
    rw (clean_lem dest, h, trim_prefix-append (slash ∷ []) (join slash (elements dest))) refl

elements-special_source :
    (root dest : Text)
    → is_abs root ≡ true
    → is_abs dest ≡ true
    → elements (special_source root dest) ≡ elements root ++ elements dest
elements-special_source root dest a h = rw (special_source-join root dest h) (
    elements-join_path-join root (elements dest) a (elements-IsName dest) (elements-Lacks dest)
      (any_up-elements_abs dest h))

module _ {W : Type 0} (os : LiteOs W) (digest : Text → Text)
    (decode : Text → Result LiteHandoff) where
  -- Where the loop ends without an error, it has added one mount for each special path, in order, behind
  -- the mounts before: a recursive private bind mount of that path, from the directory with the path's
  -- elements below the root on the volume. The root and the paths are absolute.
  pub add_special_paths-ok :
      (rootfs : Option Text) (root : Text) (dests : List Text) (mounts : List OciMount) (w : W)
      {result : List OciMount}
      → is_abs root ≡ true
      → All (λ dest. is_abs dest ≡ true) dests
      → (add_special_paths os digest decode rootfs root dests mounts w).0 ≡ ok result
      → (added : List OciMount) × (result ≡ mounts ++ added) × ArePlaced root dests added
  unfolding add_special_paths special_mount
  add_special_paths-ok rootfs root [] mounts w a hs h = ([], ground (arith, append-nil mounts), tt)
  add_special_paths-ok rootfs root (dest ∷ dests) mounts w a (d, hs) h =
      let src = special_source root dest in
      let t = (os.mkdir_all src 0o755 w).1 in
      let (_, _, h1) = continue-eq-ok (os.mkdir_all src 0o755 w).0 _ t h in
      let (empty, _, h2) =
        continue-eq-ok {S = W} (dir_empty os src t).0
          (λ e. fill_special os digest decode rootfs dest src e >> more) (dir_empty os src t).1
          h1 in
      let (filled, u) =
        fill_special os digest decode rootfs dest src empty (dir_empty os src t).1 in
      let (_, _, h3) = continue-eq-ok {S = W} filled (λ _. more) u h2 in
      let (added, same, placed) =
        add_special_paths-ok rootfs root dests (mounts ++ special_mount src dest ∷ []) u a hs h3 in
      (
        special_mount src dest ∷ added,
        same ∙ append_assoc mounts (special_mount src dest ∷ []) added,
        (refl, refl, refl, source_is_abs, elements-special_source root dest a d, placed),
      )
    where
      source_is_abs : is_abs (special_source root dest) ≡ true
      source_is_abs = rw (special_source-join root dest d) (is_abs-join_path root _ a)

      more : Action W (List OciMount)
      more =
          add_special_paths os digest decode rootfs root dests
            (mounts ++ special_mount (special_source root dest) dest ∷ [])
