-- ===== src/Admission/Validate.antt =====
-- sysbox-admission/admission/mutate.go: the rootfs annotation and its checks.
pub mod Agreement
pub mod Special
pub mod Accepted
use sysbox.Prelude.{
  Bool, true, false, not, ◌&&◌, ◌||◌, Option, none, some, List, [], ◌∷◌, ◌++◌, if◌then◌else◌, any,
  find, is_empty, Result, ok, err, errorf, Error, is_same, io_eof, fail_if, context, ◌>>=◌, ◌>>◌,
}
use sysbox.Go.Strings.{Text, codes, text_eq, blank, has_prefix, trim_space, contains}
use sysbox.Go.Filepath.{slash, dot, dot_dot, is_abs, clean}
use sysbox.Admission.Pod.{
  Container, Volume, PodSpec, RootfsRwLayerEntry, StringMap, annotation_rootfs_rw_layer, lookup_map,
}

-- `encoding/json`: the first value of a text under `DisallowUnknownFields`, with the text behind it,
-- and the error of decoding one more value from there.
pub record Json : Type 0 where
  pub decode_entries : Text → Result (List RootfsRwLayerEntry × Text)
  pub decode_more : Text → Option Error

unfoldable pub find_container : PodSpec → Text → Option Container
unfolding find
find_container spec name = find (λ (c : Container). text_eq c.name name) spec.containers

is_claim : Option Text → Bool
is_claim none = false
is_claim (some c) = true

-- The claim's name of the first volume of that name that is a claim.
unfoldable pub find_pvc_volume : PodSpec → Text → Option Volume
unfolding find is_claim
find_pvc_volume spec name =
    find (λ (v : Volume). text_eq v.name name && is_claim v.claim) spec.volumes

unfoldable pub validate_relative_path : Text → Result (Unit {0})
validate_relative_path path =
    if blank path
    then ok tt
    else if is_abs path
    then err (errorf "path must be relative")
    else let cleaned = clean path in
      if text_eq cleaned dot
      then ok tt
      else if text_eq cleaned dot_dot || has_prefix cleaned (dot_dot ++ slash ∷ [])
      then err (errorf "path must not escape volume root")
      else ok tt

unfoldable pub validate_special_path : Text → Result Text
validate_special_path path =
    if not (is_abs path)
    then err (errorf "path must be absolute")
    else let cleaned = clean path in
      if text_eq cleaned (slash ∷ []) then err (errorf "path must not be root") else ok cleaned

unfoldable pub paths_overlap : Text → Text → Bool
paths_overlap left right =
    text_eq left right
    || (has_prefix left (right ++ slash ∷ []) || has_prefix right (left ++ slash ∷ []))

abbrev pub builtin_special_paths : List Text
builtin_special_paths =
    codes "/var/lib/docker"
    ∷ codes "/var/lib/kubelet"
    ∷ codes "/var/lib/k0s"
    ∷ codes "/var/lib/rancher/k3s"
    ∷ codes "/var/lib/rancher/rke2"
    ∷ codes "/var/lib/buildkit"
    ∷ codes "/var/lib/containerd/io.containerd.snapshotter.v1.overlayfs"
    ∷ []

-- The loop over an entry's special paths, behind the paths that are taken.
unfoldable pub validate_special_paths : List Text → List Text → Result (Unit {0})
unfolding any
validate_special_paths taken [] = ok tt
validate_special_paths taken (path ∷ paths) = do
  cleaned ← context "container %s specialPath %q invalid" (validate_special_path path)
  fail_if (any (paths_overlap cleaned) taken) (errorf "container %s specialPath %q overlaps %q")
  validate_special_paths (taken ++ cleaned ∷ []) paths

unfoldable pub claim_name : Option Text → Result (Unit {0})
claim_name none = err (errorf "volume %s must be a persistentVolumeClaim volume")
claim_name (some []) = err (errorf "volume %s pvc claim name is empty")
claim_name (some (c ∷ s)) = ok tt

unfoldable pub claim_of : Option Volume → Result (Unit {0})
unfolding claim_name
claim_of none = err (errorf "volume %s must be a persistentVolumeClaim volume")
claim_of (some v) = claim_name v.claim

unfoldable pub container_of : Option Container → Result (Unit {0})
container_of none = err (errorf "container %s not found in pod spec")
container_of (some c) = ok tt

unfoldable pub validate_entry : PodSpec → RootfsRwLayerEntry → Result (Unit {0})
unfolding claim_of container_of
validate_entry spec entry = do
  fail_if (blank entry.volume_name) (errorf "container %s volumeName is required")
  container_of (find_container spec entry.name)
  claim_of (find_pvc_volume spec entry.volume_name)
  context "container %s path invalid" (validate_relative_path entry.path)
  fail_if (not (is_empty entry.special_path) && not entry.persistent_special_mounts)
      (errorf "container %s specialPath requires persistentSpecialMounts")
  validate_special_paths builtin_special_paths entry.special_path

-- The loop over the entries; `seen` holds the names before.
unfoldable pub validate_entries : PodSpec → List Text → List RootfsRwLayerEntry → Result (Unit {0})
validate_entries spec seen [] = ok tt
validate_entries spec seen (entry ∷ entries) = do
  fail_if (blank entry.name) (errorf "rootfs rw-layer entry name is required")
  fail_if (contains seen entry.name) (errorf "container %s configured more than once")
  validate_entry spec entry
  validate_entries spec (entry.name ∷ seen) entries

-- `decoder.Decode` of one more value must meet the end of the text.
trailing : Option Error → Result (Unit {0})
trailing none = err (errorf "invalid %s annotation: trailing JSON data")
trailing (some e) =
    if is_same e io_eof then ok tt else err (errorf "invalid %s annotation: trailing JSON data")

module _ (json : Json) where
  unfoldable pub parse_entries : PodSpec → Text → Result (List RootfsRwLayerEntry)
  unfolding trailing
  parse_entries spec raw = do
    fail_if (blank (trim_space raw)) (errorf "%s annotation must not be empty")
    decoded ← context "invalid %s annotation" (json.decode_entries raw)
    trailing (json.decode_more decoded.1)
    fail_if (is_empty decoded.0) (errorf "%s annotation must not be empty")
    validate_entries spec [] decoded.0
    ok decoded.0

  -- `none` where the annotation is not there.
  unfoldable pub parse_rootfs_annotation :
      Option StringMap → PodSpec → Result (Option (List RootfsRwLayerEntry))
  parse_rootfs_annotation annotations spec =
      elim (lookup_map annotation_rootfs_rw_layer annotations) [
        | none ↦ ok none
        | some raw ↦ (do entries ← parse_entries spec raw; ok (some entries))
      ]
