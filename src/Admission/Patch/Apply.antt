-- ===== src/Admission/Patch/Apply.antt =====
-- The patch turns the pod that was sent into the pod that the webhook made of it.
use sysbox.Prelude.{
  ◌≡◌, refl, sym, ap, ap₂, ◌∙◌, append-nil, Option, none, some, List, [], ◌∷◌, ◌++◌, ok, Error,
}
use sysbox.Go.Strings.{Text}
use sysbox.Admission.Pod.{Pod, Text-discrete, Containers-discrete, StringMap-discrete}
use sysbox.Admission.Validate.{Json}
use sysbox.Admission.Mutate.{mutate}
use sysbox.Admission.Mutate.Kept.{mutate-IsKept}
use sysbox.Admission.Patch.{PatchOp, add, replace, JsonPatch, op_for, unless_equal, patch_for_pod}

-- RFC 6902 at the paths of the code: "add" puts a value, "replace" wants one to be there.
unfoldable pub put_at {ℓ} : {A : Type ℓ} → PatchOp → Option A → Pod → Option Pod
put_at add old pod = some pod
put_at replace none pod = none
put_at replace (some old) pod = some pod

abbrev pub apply_patch : JsonPatch → Pod → Option Pod
apply_patch (JsonPatch.runtime_class op v) pod =
    put_at op pod.spec.runtime_class_name
      (record pod { spec = record pod.spec { runtime_class_name = v } })
apply_patch (JsonPatch.containers op v) pod =
    put_at op (some pod.spec.containers) (record pod { spec = record pod.spec { containers = v } })
apply_patch (JsonPatch.annotations op v) pod =
    put_at op pod.annotations (record pod { annotations = v })
apply_patch (JsonPatch.labels op v) pod = put_at op pod.labels (record pod { labels = v })

unfoldable pub apply_patches : List JsonPatch → Pod → Option Pod
apply_patches [] pod = some pod
apply_patches (p ∷ ps) pod = elim (apply_patch p pod) [ none ↦ none | some q ↦ apply_patches ps q ]

put_at-op_for {ℓ} :
    {A : Type ℓ} (old : Option A) (pod : Pod) → put_at (op_for old) old pod ≡ some pod
unfolding put_at op_for
put_at-op_for none pod = refl
put_at-op_for (some a) pod = refl

apply_unless_equal {ℓ} :
    {A : Type ℓ} (eq : Discrete A) (a b : A) (p : JsonPatch) (ps : List JsonPatch) (pod pod' : Pod)
    → apply_patch p pod ≡ some pod'
    → (a ≡ b → pod ≡ pod')
    → apply_patches (unless_equal eq a b p ++ ps) pod ≡ apply_patches ps pod'
unfolding unless_equal apply_patches
apply_unless_equal eq a b p ps pod pod' applied same =
    elim (eq a b)
      as (λ d.
        apply_patches (elim d [ yes e ↦ [] | no n ↦ p ∷ [] ] ++ ps) pod ≡ apply_patches ps pod') [
          | yes e ↦ ap (apply_patches ps) (same e)
          | no n ↦ rw (apply_patches, applied)
        ]

module _ (pod pod' : Pod) where
  with_runtime : Pod
  with_runtime = record pod {
    spec = record pod.spec { runtime_class_name = pod'.spec.runtime_class_name };
  }

  with_containers : Pod
  unfolding with_runtime
  with_containers = record with_runtime {
    spec = record with_runtime.spec { containers = pod'.spec.containers };
  }

  with_annotations : Pod
  unfolding with_containers
  with_annotations = record with_containers { annotations = pod'.annotations }

  with_labels : Pod
  unfolding with_annotations
  with_labels = record with_annotations { labels = pod'.labels }

  apply_patches-with_labels : apply_patches (patch_for_pod pod pod') pod ≡ some with_labels
  unfolding patch_for_pod with_labels put_at
  apply_patches-with_labels =
      apply_unless_equal Text-discrete pod.spec.runtime_class_name pod'.spec.runtime_class_name
        (JsonPatch.runtime_class (op_for pod.spec.runtime_class_name) pod'.spec.runtime_class_name)
        (from_containers ++ (from_annotations ++ from_labels)) pod with_runtime
        (put_at-op_for pod.spec.runtime_class_name with_runtime)
        (λ e. ap (λ v. record pod { spec = record pod.spec { runtime_class_name = v } }) e)
      ∙ apply_unless_equal Containers-discrete pod.spec.containers pod'.spec.containers
          (JsonPatch.containers replace pod'.spec.containers) (from_annotations ++ from_labels)
          with_runtime with_containers refl
          (λ e.
            ap (λ v. record with_runtime { spec = record with_runtime.spec { containers = v } }) e)
      ∙ apply_unless_equal StringMap-discrete pod.annotations pod'.annotations
          (JsonPatch.annotations (op_for pod.annotations) pod'.annotations) from_labels
          with_containers with_annotations (put_at-op_for pod.annotations with_annotations)
          (λ e. ap (λ v. record with_containers { annotations = v }) e)
      ∙ ap (λ ps. apply_patches ps with_annotations) (sym (append-nil from_labels))
      ∙ apply_unless_equal StringMap-discrete pod.labels pod'.labels
          (JsonPatch.labels (op_for pod.labels) pod'.labels) [] with_annotations with_labels
          (put_at-op_for pod.labels with_labels)
          (λ e. ap (λ v. record with_annotations { labels = v }) e)
      ∙ (unfold apply_patches in refl)
    where
      from_containers : List JsonPatch
      from_containers =
          unless_equal Containers-discrete pod.spec.containers pod'.spec.containers
            (JsonPatch.containers replace pod'.spec.containers)

      from_annotations : List JsonPatch
      from_annotations =
          unless_equal StringMap-discrete pod.annotations pod'.annotations
            (JsonPatch.annotations (op_for pod.annotations) pod'.annotations)

      from_labels : List JsonPatch
      from_labels =
          unless_equal StringMap-discrete pod.labels pod'.labels
            (JsonPatch.labels (op_for pod.labels) pod'.labels)

  -- Between pods that differ in what the patch can change only, the patch applies and gives the
  -- second one.
  apply_patches-patch_for_pod :
      pod'.spec.volumes ≡ pod.spec.volumes
      → pod'.other ≡ pod.other
      → apply_patches (patch_for_pod pod pod') pod ≡ some pod'
  apply_patches-patch_for_pod v o = apply_patches-with_labels ∙ ap some (same v o)
    where
      same : pod'.spec.volumes ≡ pod.spec.volumes → pod'.other ≡ pod.other → with_labels ≡ pod'
      same v o =
          unfold with_labels in
          ap₂ (λ vs x. record pod' { spec = record pod'.spec { volumes = vs }; other = x }) (sym v)
            (sym o)

-- Where the webhook accepts a pod, its patch applies to that pod and gives the pod that the webhook
-- made.
pub apply_patches-mutate :
    (json : Json) (context_error : Option Error) (image : Text) (pod pod' : Pod)
    → mutate json context_error image pod ≡ ok pod'
    → apply_patches (patch_for_pod pod pod') pod ≡ some pod'
apply_patches-mutate json context_error image pod pod' h =
    let kept = mutate-IsKept json context_error image pod pod' h in
    apply_patches-patch_for_pod pod pod' kept.volumes kept.other
