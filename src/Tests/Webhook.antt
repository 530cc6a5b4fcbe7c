-- ===== src/Tests/Webhook.antt =====
-- The webhook at a pod with one container whose root directory is kept on a claim.
use sysbox.Go.Filepath.{elements}
use sysbox.Prelude.{All, map}
use sysbox.Admission.Validate.{validate_special_paths, builtin_special_paths}
use sysbox.Admission.Validate.Special.{
  reserved_directories, IsFarFrom, IsApart, validate_special_paths_lem,
}
use sysbox.Prelude.{
  ◌≡◌, refl, true, none, some, List, [], ◌∷◌, ok, err, arith, sentinel, io_eof, is_ok,
}
use sysbox.Go.Strings.{Text, codes}
use sysbox.Admission.Pod.{
  Pod, PodSpec, Container, RootfsRwLayerEntry, annotation_rootfs_rw_layer, annotation_volume_init,
  runtime_class_sysbox_runc, sidecar_container_name,
}
use sysbox.Admission.Validate.{Json}
use sysbox.Admission.Sidecar.{required_sidecar_mounts}
use sysbox.Admission.Sidecar.Mounts.{
  mounts_volume, uses_volume, IsDistinct, required_sidecar_mounts_lem,
}
use sysbox.Admission.Mutate.{mutate}
use sysbox.Admission.Mutate.Idempotent.{mutate-mutate}
use sysbox.Admission.Mutate.Kept.{IsKept, mutate-IsKept}
use sysbox.Admission.Patch.{patch_for_pod}
use sysbox.Admission.Patch.Apply.{apply_patches, apply_patches-mutate}
use sysbox.Admission.Server.{AdmissionRequest, Codec, mutate_request, patch}
use sysbox.Admission.Server.Verdict.{Admitted, mutate_request-Admitted}
use sysbox.Admission.Validate.Agreement.{validate_relative_path-safe_layer_path}
use sysbox.Admission.Validate.{validate_relative_path}
use sysbox.Rootfs.Path.{safe_layer_path}
use sysbox.Admission.Mutate.{
  is_configured, managed, is_managed_runtime, mutate_managed, with_sidecar,
}
use sysbox.Admission.Pod.{lookup_map, delete_map, delete, lookup}
use sysbox.Go.Strings.{text_eq, trim_space, contains, has_prefix, is_space}
use sysbox.Admission.Validate.{
  parse_rootfs_annotation, parse_entries, validate_entries, validate_entry, find_container,
  find_pvc_volume, claim_name, claim_of, container_of, paths_overlap, validate_special_path,
  validate_special_paths,
}
use sysbox.Go.Filepath.{
  is_abs, add_element, clean, clean_from, elements, go_up, join_path, show_path,
}
use sysbox.Admission.Sidecar.{canonical_sidecar, ensure_sidecar, mounts_from}
use sysbox.Go.Strings.Split.{join, split}
use sysbox.Prelude.{check_context, any, find, keep}

abbrev pub entry : RootfsRwLayerEntry
entry = record {
  name = codes "app";
  volume_name = codes "disk";
  path = codes "data";
  persistent_special_mounts = true;
  special_path = codes "/srv/x" ∷ [];
}

abbrev pub json : Json
json = record {
  decode_entries = λ t. ok (entry ∷ [], []);
  decode_more = λ t. some (sentinel io_eof);
}

abbrev pub app : Container
app = record { name = codes "app"; image = codes "i"; volume_mounts = []; other = [] }

abbrev sidecar : Container
sidecar = record {
  name = sidecar_container_name;
  image = codes "s";
  volume_mounts =
      record { name = codes "disk"; mount_path = codes "/var/lib/sysbox/rootfs-rw-volume/disk" }
      ∷ [];
  other = [];
}

abbrev pub spec_with : List Container → PodSpec
spec_with cs = record {
  runtime_class_name = some runtime_class_sysbox_runc;
  containers = cs;
  volumes = record { name = codes "disk"; claim = some (codes "c") } ∷ [];
}

abbrev pub sent_pod : Pod
sent_pod = record {
  annotations =
      some ((annotation_volume_init, codes "1") ∷ (annotation_rootfs_rw_layer, codes "[]") ∷ []);
  labels = none;
  spec = spec_with (app ∷ []);
  other = [];
}

abbrev mutated_pod : Pod
mutated_pod = record {
  annotations = some ((annotation_rootfs_rw_layer, codes "[]") ∷ []);
  labels = none;
  spec = spec_with (app ∷ sidecar ∷ []);
  other = [];
}

sent_pod-mutates : mutate json none (codes "s") sent_pod ≡ ok mutated_pod
unfolding mutate is_configured lookup_map text_eq managed is_managed_runtime mutate_managed
    parse_rootfs_annotation delete_map parse_entries trim_space validate_entries contains
    validate_entry find_container find_pvc_volume validate_relative_path is_abs with_sidecar delete
    lookup canonical_sidecar ensure_sidecar mounts_from required_sidecar_mounts claim_name claim_of
    container_of paths_overlap validate_special_path validate_special_paths add_element clean
    clean_from elements go_up join_path show_path join split has_prefix is_space check_context any
    find keep
sent_pod-mutates = refl

mutate-mutate_example : mutate json none (codes "s") mutated_pod ≡ ok mutated_pod
mutate-mutate_example = mutate-mutate json none (codes "s") sent_pod mutated_pod sent_pod-mutates

mutate-IsKept_example : IsKept sent_pod mutated_pod
mutate-IsKept_example = mutate-IsKept json none (codes "s") sent_pod mutated_pod sent_pod-mutates

apply_patches-mutate_example :
    apply_patches (patch_for_pod sent_pod mutated_pod) sent_pod ≡ some mutated_pod
apply_patches-mutate_example =
    apply_patches-mutate json none (codes "s") sent_pod mutated_pod sent_pod-mutates

abbrev pub codec : Codec
codec = record {
  decode_review = λ t. err (sentinel io_eof);
  decode_pod = λ t. ok sent_pod;
  encode_patch = λ ps. ok (codes "patch");
}

abbrev pub request : AdmissionRequest
request = record { uid = codes "u"; resource = codes "pods"; object = [] }

request-allowed : (mutate_request codec json none (codes "s") (some request)).allowed ≡ true
unfolding mutate_request patch text_eq
request-allowed = ground (arith, sent_pod-mutates)

mutate_request-Admitted_example :
    Admitted codec json none
      (codes "s")
      request
      (mutate_request codec json none (codes "s") (some request))
mutate_request-Admitted_example =
    mutate_request-Admitted codec json none (codes "s") request request-allowed

required_sidecar_mounts_lem_example :
    ((v : Text)
      → mounts_volume v (required_sidecar_mounts (entry ∷ entry ∷ []))
        ≡ uses_volume v (entry ∷ entry ∷ []))
    × IsDistinct (required_sidecar_mounts (entry ∷ entry ∷ []))
required_sidecar_mounts_lem_example = required_sidecar_mounts_lem (entry ∷ entry ∷ [])

validate_relative_path-safe_layer_path_example :
    is_ok (validate_relative_path (codes "a/../../b")) ≡ is_ok (safe_layer_path (codes "a/../../b"))
validate_relative_path-safe_layer_path_example =
    validate_relative_path-safe_layer_path (codes "a/../../b")

two_accepted :
    validate_special_paths builtin_special_paths (codes "/srv/x" ∷ codes "/srv/./y" ∷ []) ≡ ok tt
unfolding validate_special_paths validate_special_path is_abs text_eq clean join split paths_overlap
    has_prefix
two_accepted = refl

validate_special_paths_lem_example :
    All (IsFarFrom reserved_directories) (codes "/srv/x" ∷ codes "/srv/./y" ∷ [])
    × IsApart (map elements (codes "/srv/x" ∷ codes "/srv/./y" ∷ []))
validate_special_paths_lem_example =
    validate_special_paths_lem (codes "/srv/x" ∷ codes "/srv/./y" ∷ []) two_accepted
