-- ===== src/Admission/Pod.antt =====
-- The pod as the webhook sees it: the fields of the Kubernetes types that the code reads or writes.
-- A field `other` stands for the rest of such a value, which the code only copies; a literal of the
-- code leaves it at its zero value, the empty text. A Go map is an association list, and a nil map
-- is `none`.
use native.Mathlib.Decide.{ℕ_discrete}
use sysbox.Prelude.{◌≡◌, ap, Bool, Option, none, some, List, [], ◌∷◌, if◌then◌else◌, arith}
use sysbox.Go.Strings.{Text, codes, text_eq, text_eq_iff}

abbrev pub annotation_rootfs_rw_layer : Text
annotation_rootfs_rw_layer = codes "sysbox/rootfs-rw-layer"

abbrev pub annotation_volume_init : Text
annotation_volume_init = codes "sysbox/volume-init"

abbrev pub runtime_class_sysbox_runc : Text
runtime_class_sysbox_runc = codes "sysbox-runc"

abbrev pub runtime_class_runc_lite : Text
runtime_class_runc_lite = codes "sysbox-runc-lite"

abbrev pub sidecar_mount_path : Text
sidecar_mount_path = codes "/var/lib/sysbox/rootfs-rw-volume"

abbrev pub sidecar_container_name : Text
sidecar_container_name = codes "sysbox-rootfs"

abbrev pub StringMap : Type 0
StringMap = List (Text × Text)

unfoldable pub lookup : Text → StringMap → Option Text
lookup k [] = none
lookup k ((j, v) ∷ m) = if text_eq j k then some v else lookup k m

unfoldable pub delete : Text → StringMap → StringMap
delete k [] = []
delete k ((j, v) ∷ m) = let rest = delete k m in if text_eq j k then rest else (j, v) ∷ rest

-- Reading and deleting a key of a map that may be nil.
unfoldable pub lookup_map : Text → Option StringMap → Option Text
unfolding lookup
lookup_map k none = none
lookup_map k (some m) = lookup k m

unfoldable pub delete_map : Text → Option StringMap → Option StringMap
unfolding delete
delete_map k none = none
delete_map k (some m) = some (delete k m)

pub record VolumeMount : Type 0 where
  pub name : Text
  pub mount_path : Text

pub record Container : Type 0 where
  pub name : Text
  pub image : Text
  pub volume_mounts : List VolumeMount
  pub other : Text

-- `claim` is the claim's name, if the volume is a PersistentVolumeClaim.
pub record Volume : Type 0 where
  pub name : Text
  pub claim : Option Text

pub record PodSpec : Type 0 where
  pub runtime_class_name : Option Text
  pub containers : List Container
  pub volumes : List Volume

pub record Pod : Type 0 where
  pub annotations : Option StringMap
  pub labels : Option StringMap
  pub spec : PodSpec
  pub other : Text

pub record RootfsRwLayerEntry : Type 0 where
  pub name : Text
  pub volume_name : Text
  pub path : Text
  pub persistent_special_mounts : Bool
  pub special_path : List Text

pub Text-discrete : Discrete (Option Text)
Text-discrete = hlevel ℕ_discrete

pub Containers-discrete : Discrete (List Container)
Containers-discrete = hlevel ℕ_discrete

pub StringMap-discrete : Discrete (Option StringMap)
StringMap-discrete = hlevel ℕ_discrete

pub lookup-delete :
    (k j : Text) (m : StringMap)
    → lookup j (delete k m) ≡ (if text_eq k j then none else lookup j m)
unfolding lookup delete
lookup-delete k j [] = ground arith
lookup-delete k j ((i, v) ∷ m) =
    ground (arith, lookup-delete k j m, text_eq_iff i k, text_eq_iff i j, text_eq_iff k j)

pub delete-delete : (k : Text) (m : StringMap) → delete k (delete k m) ≡ delete k m
unfolding delete
delete-delete k [] = ground arith
delete-delete k ((i, v) ∷ m) = ground (arith, delete-delete k m)

pub lookup_map-delete_map :
    (k j : Text) (m : Option StringMap)
    → lookup_map j (delete_map k m) ≡ (if text_eq k j then none else lookup_map j m)
unfolding lookup_map delete_map
lookup_map-delete_map k j none = ground arith
lookup_map-delete_map k j (some m) = lookup-delete k j m

pub delete_map-delete_map :
    (k : Text) (m : Option StringMap) → delete_map k (delete_map k m) ≡ delete_map k m
unfolding delete_map
delete_map-delete_map k none = ground arith
delete_map-delete_map k (some m) = ap some (delete-delete k m)
