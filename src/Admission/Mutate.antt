-- ===== src/Admission/Mutate.antt =====
-- sysbox-admission/admission/mutate.go: the rewriting of a pod. `Mutate` works on a deep copy, so it
-- is a function; on an error its copy is dropped.
pub mod Idempotent
pub mod Kept
use sysbox.Prelude.{
  Bool, true, false, not, ◌&&◌, ◌||◌, Option, none, some, List, if◌then◌else◌, Result, ok, err,
  errorf, Error, check_context, ◌>>=◌, ◌>>◌,
}
use sysbox.Go.Strings.{Text, text_eq}
use sysbox.Admission.Pod.{
  Pod, RootfsRwLayerEntry, annotation_rootfs_rw_layer, annotation_volume_init,
  runtime_class_sysbox_runc, runtime_class_runc_lite, lookup_map, delete_map,
}
use sysbox.Admission.Validate.{Json, parse_rootfs_annotation}
use sysbox.Admission.Sidecar.{ensure_sidecar}

unfoldable pub is_managed_runtime : Text → Bool
is_managed_runtime name =
    text_eq name runtime_class_sysbox_runc || text_eq name runtime_class_runc_lite

-- Whether the pod names a runtime class of Sysbox.
unfoldable pub managed : Option Text → Bool
managed none = false
managed (some name) = is_managed_runtime name

unfoldable pub is_configured : Option Text → Bool
is_configured none = false
is_configured (some raw) = true

unfoldable pub with_sidecar : Pod → Text → Option (List RootfsRwLayerEntry) → Pod
with_sidecar pod image none = pod
with_sidecar pod image (some entries) = record pod { spec = ensure_sidecar pod.spec entries image }

module _ (json : Json) (context_error : Option Error) (sandbox_image : Text) where
  -- The part for a pod of a Sysbox runtime class.
  unfoldable pub mutate_managed : Pod → Result Pod
  unfolding with_sidecar
  mutate_managed pod =
      let stripped = delete_map annotation_volume_init pod.annotations in
      do
        parsed ← parse_rootfs_annotation json stripped pod.spec
        check_context context_error
        ok (with_sidecar (record pod { annotations = stripped }) sandbox_image parsed)

  unfoldable pub mutate : Pod → Result Pod
  mutate pod =
      let configured = is_configured (lookup_map annotation_rootfs_rw_layer pod.annotations) in
      let on = managed pod.spec.runtime_class_name in
      if configured && not on
      then err (errorf "%s annotation requires runtimeClassName %q or %q")
      else if not on
      then ok pod
      else mutate_managed pod
