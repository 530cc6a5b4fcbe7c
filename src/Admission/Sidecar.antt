-- ===== src/Admission/Sidecar.antt =====
-- sysbox-admission/admission/sidecar.go: the container that holds the volumes' mounts.
pub mod Mounts
use sysbox.Prelude.{Bool, true, false, not, List, [], ◌∷◌, ◌++◌, if◌then◌else◌, keep}
use sysbox.Go.Strings.{Text, text_eq, contains}
use sysbox.Go.Filepath.{join_path}
use sysbox.Admission.Pod.{
  Container, VolumeMount, PodSpec, RootfsRwLayerEntry, sidecar_container_name, sidecar_mount_path,
}

-- The loop over the entries; `seen` holds the volumes before.
unfoldable pub mounts_from : List Text → List RootfsRwLayerEntry → List VolumeMount
mounts_from seen [] = []
mounts_from seen (entry ∷ entries) =
    let again = mounts_from seen entries in
    let rest = mounts_from (entry.volume_name ∷ seen) entries in
    if contains seen entry.volume_name
    then again
    else record {
      name = entry.volume_name;
      mount_path = join_path (sidecar_mount_path ∷ entry.volume_name ∷ []);
    }
      ∷ rest

unfoldable pub required_sidecar_mounts : List RootfsRwLayerEntry → List VolumeMount
unfolding mounts_from
required_sidecar_mounts entries = mounts_from [] entries

unfoldable pub canonical_sidecar : List RootfsRwLayerEntry → Text → Container
canonical_sidecar entries image = record {
  name = sidecar_container_name;
  image = image;
  volume_mounts = required_sidecar_mounts entries;
  other = [];
}

abbrev pub is_app : Container → Bool
is_app c = not (text_eq c.name sidecar_container_name)

unfoldable pub ensure_sidecar : PodSpec → List RootfsRwLayerEntry → Text → PodSpec
ensure_sidecar spec entries image = record spec {
  containers = keep is_app spec.containers ++ canonical_sidecar entries image ∷ [];
}
