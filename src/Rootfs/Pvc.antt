-- ===== src/Rootfs/Pvc.antt =====
-- sysbox-snapshotter/rootfs/pvc_mountpath_resolver.go: where the volume is mounted on the host.
pub mod Escape
use sysbox.Prelude.{
  ℕ, Bool, true, false, not, ◌&&◌, ◌||◌, Option, none, some, List, [], ◌∷◌, ◌++◌, if◌then◌else◌,
  ◌==◌, Result, ok, err, wrap, sentinel, Error, sidecar_spec_unavailable, sidecar_spec_malformed,
  pvc_mount_not_found, fail_if, context, ◌>>=◌, ◌>>◌,
}
use sysbox.Go.Strings.{Text, codes, text_eq, blank, has_prefix, trim_prefix, trim_space, fields}
use sysbox.Go.Strings.Split.{split}
use sysbox.Go.Filepath.{slash, clean, join_path}
use sysbox.Rootfs.Types.{
  OciMount, OciSpec, RootfsRwLayerRequest, RootfsRwLayerSpec, sidecar_mount_path,
}

-- One of the escapes of the kernel, and the byte that it stands for.
escape_of : ℕ → ℕ → ℕ → ℕ → Option ℕ
escape_of a b c d =
    if not (a == b'\\')
    then none
    else if b == b'0' && (c == b'4' && d == b'0')
    then some 32
    else if b == b'0' && (c == b'1' && d == b'1')
    then some 9
    else if b == b'0' && (c == b'1' && d == b'2')
    then some 10
    else if b == b'1' && (c == b'3' && d == b'4')
    then some b'\\'
    else none

-- `strings.NewReplacer(…).Replace`: from the left, with no rescan of what was put in.
unfoldable pub unescape_mount_info_path : Text → Text
unfolding escape_of
unescape_mount_info_path [] = []
unescape_mount_info_path (a ∷ []) = a ∷ []
unescape_mount_info_path (a ∷ b ∷ []) = a ∷ b ∷ []
unescape_mount_info_path (a ∷ b ∷ c ∷ []) = a ∷ b ∷ c ∷ []
unescape_mount_info_path (a ∷ b ∷ c ∷ d ∷ s) =
    let rest = unescape_mount_info_path s in
    let next = a ∷ unescape_mount_info_path (b ∷ c ∷ d ∷ s) in
    elim (escape_of a b c d) [ none ↦ next | some byte ↦ byte ∷ rest ]

-- On Linux `filepath.ToSlash` changes nothing.
unfoldable pub clean_oci_destination : Text → Text
clean_oci_destination destination = clean (trim_space destination)

abbrev pub sysbox_special_root : Text
sysbox_special_root = codes "/rootfs/special"

-- The path that a root of a mount stands for.
unfoldable pub stable_root : Text → Text → Text
stable_root source root =
    if text_eq root sysbox_special_root || not (has_prefix root (sysbox_special_root ++ slash ∷ []))
    then source
    else trim_prefix root sysbox_special_root

-- The fourth and the fifth field of a line that has five.
mount_fields : List Text → Option (Text × Text)
mount_fields (a ∷ b ∷ c ∷ root ∷ point ∷ more) = some (root, point)
mount_fields _ = none

unfoldable pub stable_in_lines : Text → List Text → Text
unfolding mount_fields stable_root
stable_in_lines source [] = source
stable_in_lines source (line ∷ lines) =
    let rest = stable_in_lines source lines in
    elim (mount_fields (fields line)) [
      | none ↦ rest
      | some (root, point) ↦
          (if text_eq (clean (unescape_mount_info_path point)) source
            then stable_root source (clean (unescape_mount_info_path root))
            else rest)
    ]

unfoldable pub stable_pvc_mount_path_from_mount_info : Text → Result Text → Result Text
unfolding stable_in_lines
stable_pvc_mount_path_from_mount_info source mount_info = do
  contents ← context "read mountinfo" mount_info
  ok (stable_in_lines (clean source) (split 10 contents))

-- `mount_info` is what reading /proc/self/mountinfo gives.
module _ (mount_info : Result Text) where
  unfoldable pub find_pvc_mount : Text → List OciMount → Result Text
  unfolding stable_pvc_mount_path_from_mount_info
  find_pvc_mount target [] = err (sentinel pvc_mount_not_found)
  find_pvc_mount target (mount ∷ mounts) =
      if text_eq (clean_oci_destination mount.destination) target
      then (if blank mount.source
          then err (sentinel sidecar_spec_malformed)
          else stable_pvc_mount_path_from_mount_info mount.source mount_info)
      else find_pvc_mount target mounts

  -- The specification that the metadata brought, or else the one that the store has.
  loaded_spec :
      (RootfsRwLayerRequest → Result (Option OciSpec))
      → RootfsRwLayerRequest
      → Option OciSpec
      → Result (Option OciSpec)
  loaded_spec load request none = load request
  loaded_spec load request (some spec) = ok (some spec)

  present : Option OciSpec → Result OciSpec
  present none = err (sentinel sidecar_spec_unavailable)
  present (some spec) = ok spec

  unfoldable pub resolve_pvc_mount_path :
      (RootfsRwLayerRequest → Result (Option OciSpec))
      → RootfsRwLayerRequest
      → RootfsRwLayerSpec
      → Result Text
  unfolding find_pvc_mount loaded_spec present
  resolve_pvc_mount_path load request spec = do
    fail_if (blank spec.volume_name) (
        wrap "volume name is required to resolve sidecar pvc mount path"
          (sentinel sidecar_spec_malformed))
    loaded ← loaded_spec load request spec.sidecar_spec
    sidecar_spec ← present loaded
    find_pvc_mount (join_path (sidecar_mount_path ∷ spec.volume_name ∷ [])) sidecar_spec.mounts
