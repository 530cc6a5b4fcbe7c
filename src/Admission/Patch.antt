-- ===== src/Admission/Patch.antt =====
-- sysbox-admission/admission/patch.go: the JSON patch from a pod to its mutated copy.
pub mod Apply
use sysbox.Prelude.{
  Bool, true, false, not, Option, none, some, List, [], ◌∷◌, ◌++◌, if◌then◌else◌, ◌≡◌,
}
use sysbox.Go.Strings.{Text}
use sysbox.Admission.Pod.{
  Pod, Container, StringMap, Text-discrete, Containers-discrete, StringMap-discrete,
}

pub data PatchOp : Type 0 where
  add replace : PatchOp

-- One constructor for each path that the code patches, with the value put there.
pub data JsonPatch : Type 0 where
  runtime_class : PatchOp → Option Text → JsonPatch
  containers : PatchOp → List Container → JsonPatch
  annotations : PatchOp → Option StringMap → JsonPatch
  labels : PatchOp → Option StringMap → JsonPatch

-- "replace" where there is a value, "add" at a nil.
unfoldable pub op_for {ℓ} : {A : Type ℓ} → Option A → PatchOp
op_for none = add
op_for (some a) = replace

-- One patch, unless `reflect.DeepEqual` finds the two values equal.
unfoldable pub unless_equal {ℓ} : {A : Type ℓ} → Discrete A → A → A → JsonPatch → List JsonPatch
unless_equal eq a b p = elim (eq a b) [ yes e ↦ [] | no n ↦ p ∷ [] ]

unfoldable pub patch_for_pod : Pod → Pod → List JsonPatch
unfolding op_for unless_equal
patch_for_pod original mutated =
    unless_equal Text-discrete original.spec.runtime_class_name mutated.spec.runtime_class_name
      (runtime_class (op_for original.spec.runtime_class_name) mutated.spec.runtime_class_name)
    ++ (unless_equal Containers-discrete original.spec.containers mutated.spec.containers
          (containers replace mutated.spec.containers)
        ++ (unless_equal StringMap-discrete original.annotations mutated.annotations
              (annotations (op_for original.annotations) mutated.annotations)
            ++ unless_equal StringMap-discrete original.labels mutated.labels
                (labels (op_for original.labels) mutated.labels)))
