-- ===== src/Tests/Layers.antt =====
-- The annotation of the pod with one entry, as the webhook accepts it and the snapshotter reads it.
use sysbox.Prelude.{◌≡◌, refl, true, false, none, [], ◌∷◌, ok, is_empty, All}
use sysbox.Go.Strings.{codes, text_eq}
use sysbox.Admission.Validate.{parse_entries}
use sysbox.Admission.Validate.Accepted.{AreDistinct, IsAccepted, parse_entries-IsAccepted}
use sysbox.Rootfs.Types.{RootfsRwLayerRequest, sidecar_container_name}
use sysbox.Rootfs.Metadata.{resolve_rootfs_rw_layer}
use sysbox.Rootfs.Metadata.Accepted.{layer_of, resolve_rootfs_rw_layer-accepted}
use sysbox.Tests.Webhook.{entry, json, spec_with, app}

entries_are_read : parse_entries json (spec_with (app ∷ [])) (codes "[]") ≡ ok (entry ∷ [])
unfolding parse_entries sysbox.Go.Strings.trim_space sysbox.Admission.Validate.validate_entries
    sysbox.Go.Strings.contains sysbox.Admission.Validate.validate_entry
    sysbox.Admission.Validate.find_container text_eq sysbox.Admission.Validate.find_pvc_volume
    sysbox.Admission.Validate.validate_relative_path sysbox.Go.Filepath.is_abs
    sysbox.Go.Filepath.clean sysbox.Go.Strings.Split.split sysbox.Go.Strings.Split.join
    sysbox.Go.Strings.has_prefix sysbox.Admission.Validate.validate_special_paths
    sysbox.Admission.Validate.validate_special_path sysbox.Admission.Validate.paths_overlap
entries_are_read = refl

parse_entries-IsAccepted_example :
    (is_empty (entry ∷ []) ≡ false)
    × AreDistinct (entry ∷ [])
    × All (IsAccepted (spec_with (app ∷ []))) (entry ∷ [])
parse_entries-IsAccepted_example =
    parse_entries-IsAccepted json (spec_with (app ∷ [])) (codes "[]") entries_are_read

abbrev request : RootfsRwLayerRequest
request = record {
  snapshot_key = codes "k";
  pod_uid = codes "u";
  container_name = codes "app";
  annotation = codes "[]";
}

names_agree : text_eq entry.name request.container_name ≡ true
unfolding text_eq
names_agree = refl

not_sidecar : text_eq request.container_name sidecar_container_name ≡ false
unfolding text_eq
not_sidecar = refl

resolve_rootfs_rw_layer-accepted_example :
    resolve_rootfs_rw_layer (λ r. ok none) request (λ t. ok (entry ∷ [])) ≡ ok (layer_of entry none)
resolve_rootfs_rw_layer-accepted_example =
    resolve_rootfs_rw_layer-accepted json (spec_with (app ∷ [])) (λ t. ok (entry ∷ []))
      (λ r. ok none) request [] [] entry entries_are_read refl names_agree not_sidecar refl
