-- ===== src/Rootfs/Types.antt =====
-- sysbox-snapshotter/rootfs/types.go, and of the OCI runtime specification the fields in use.
use sysbox.Prelude.{ℕ, Bool, Option, List}
use sysbox.Go.Strings.{Text, codes}
use sysbox.Admission.Pod.{StringMap}

abbrev pub sidecar_mount_path : Text
sidecar_mount_path = codes "/var/lib/sysbox/rootfs-rw-volume"

abbrev pub sidecar_container_name : Text
sidecar_container_name = codes "sysbox-rootfs"

pub record OciMount : Type 0 where
  pub destination : Text
  pub kind : Text
  pub source : Text
  pub options : List Text

-- A nil map of annotations is `none`.
pub record OciSpec : Type 0 where
  pub annotations : Option StringMap
  pub mounts : List OciMount

pub record RootfsRwLayerRequest : Type 0 where
  pub snapshot_key : Text
  pub pod_uid : Text
  pub container_name : Text
  pub annotation : Text

pub record RootfsRwLayerSpec : Type 0 where
  pub volume_name : Text
  pub path : Text
  pub persistent_special_mounts : Bool
  pub special_path : List Text
  pub sidecar : Bool
  pub sidecar_spec : Option OciSpec

pub record PrepareRootfsRequest : Type 0 where
  pub snapshot_key : Text
  pub pod_uid : Text
  pub container_name : Text
  pub path : Text
  pub pvc_mount_path : Text

pub record PreparedRootfs : Type 0 where
  pub upper_dir : Text
  pub work_dir : Text

pub record PersistentSpecialHandoff : Type 0 where
  pub version : ℕ
  pub snapshot_key : Text
  pub pod_uid : Text
  pub container_name : Text
  pub volume_name : Text
  pub pvc_mount_path : Text

pub record IntentEntry : Type 0 where
  pub container_name : Text
  pub volume_name : Text
  pub path : Text
  pub persistent_special_mounts : Bool
  pub special_path : List Text
