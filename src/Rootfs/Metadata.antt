-- ===== src/Rootfs/Metadata.antt =====
-- sysbox-snapshotter/rootfs/sidecar_metadata.go: what the annotation asks for one container.
pub mod Accepted
use sysbox.Prelude.{
  true, false, Option, none, List, [], ◌∷◌, if◌then◌else◌, is_empty, Result, ok, err, wrap,
  sentinel, container_identity_incomplete, rootfs_rw_layer_not_configured, fail_if, context, ◌>>=◌,
  ◌>>◌,
}
use sysbox.Go.Strings.{Text, text_eq, blank}
use sysbox.Admission.Pod.{RootfsRwLayerEntry}
use sysbox.Rootfs.Types.{
  OciSpec, RootfsRwLayerRequest, RootfsRwLayerSpec, IntentEntry, sidecar_container_name,
}
use sysbox.Rootfs.Path.{safe_layer_path}

-- `json.Unmarshal` of the annotation; its anonymous struct has the fields of the webhook's entry.
abbrev pub Unmarshal : Type 0
Unmarshal = Text → Result (List RootfsRwLayerEntry)

unfoldable pub intent_entry : RootfsRwLayerEntry → IntentEntry
intent_entry entry = record {
  container_name = entry.name;
  volume_name = entry.volume_name;
  path = entry.path;
  persistent_special_mounts = entry.persistent_special_mounts;
  special_path = entry.special_path;
}

unfoldable pub intent_entries : List RootfsRwLayerEntry → List IntentEntry
unfolding intent_entry
intent_entries [] = []
intent_entries (entry ∷ entries) = intent_entry entry ∷ intent_entries entries

unfoldable pub parse_pod_annotation_intent : Unmarshal → Text → Result (List IntentEntry)
unfolding intent_entries
parse_pod_annotation_intent unmarshal raw = do
  entries ← context "decode rootfs rw-layer annotation" (unmarshal raw)
  ok (intent_entries entries)

abbrev pub sidecar_only : RootfsRwLayerSpec
sidecar_only = record {
  volume_name = [];
  path = [];
  persistent_special_mounts = false;
  special_path = [];
  sidecar = true;
  sidecar_spec = none;
}

-- `load` is the store's lookup of the sidecar's specification, which may give a nil.
module _ (load : RootfsRwLayerRequest → Result (Option OciSpec))
    (request : RootfsRwLayerRequest) where
  unfoldable pub spec_of_entry : IntentEntry → Result RootfsRwLayerSpec
  spec_of_entry entry = do
    checked ← safe_layer_path entry.path
    sidecar_spec ← load request
    ok (record {
      volume_name = entry.volume_name;
      path = entry.path;
      persistent_special_mounts = entry.persistent_special_mounts;
      special_path = entry.special_path;
      sidecar = false;
      sidecar_spec = sidecar_spec;
    })

  unfoldable pub find_entry : List IntentEntry → Result RootfsRwLayerSpec
  find_entry [] = err (sentinel rootfs_rw_layer_not_configured)
  find_entry (entry ∷ entries) =
      if text_eq entry.container_name request.container_name
      then spec_of_entry entry
      else find_entry entries

  -- The sidecar has no layer of its own, and wants no lookup of its own specification.
  for_container : List IntentEntry → Result RootfsRwLayerSpec
  for_container entries =
      if text_eq request.container_name sidecar_container_name
      then (if is_empty entries
          then err (sentinel rootfs_rw_layer_not_configured)
          else ok sidecar_only)
      else find_entry entries

  unfoldable pub resolve_rootfs_rw_layer : Unmarshal → Result RootfsRwLayerSpec
  unfolding find_entry for_container
  resolve_rootfs_rw_layer unmarshal = do
    fail_if (blank request.container_name) (
        wrap "missing container name in rootfs rw-layer request"
          (sentinel container_identity_incomplete))
    fail_if (blank request.annotation) (sentinel rootfs_rw_layer_not_configured)
    entries ← parse_pod_annotation_intent unmarshal request.annotation
    for_container entries
