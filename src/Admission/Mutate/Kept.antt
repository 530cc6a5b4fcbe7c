-- ===== src/Admission/Mutate/Kept.antt =====
-- What the webhook leaves as it was.
use sysbox.Prelude.{
  ◌⊎◌, inl, inr, ◌≡◌, ◌≢◌, refl, true, false, Option, none, some, List, [], ◌∷◌, ◌++◌, arith, keep,
  keep-append, keep-keep, append-nil, ok, Error,
}
use sysbox.Go.Strings.{Text, text_eq, text_eq_iff}
use sysbox.Admission.Pod.{
  Pod, Container, RootfsRwLayerEntry, annotation_volume_init, lookup_map, lookup_map-delete_map,
}
use sysbox.Admission.Validate.{Json}
use sysbox.Admission.Sidecar.{canonical_sidecar, is_app, ensure_sidecar}
use sysbox.Admission.Mutate.{managed, mutate_managed, mutate, with_sidecar}
use sysbox.Admission.Mutate.Idempotent.{strip, mutate_managed-parts}

-- Two pods that agree in all but the containers of the sidecar's name and the internal annotation.
pub record IsKept (pod pod' : Pod) : Type 0 where
  pub volumes : pod'.spec.volumes ≡ pod.spec.volumes
  pub runtime : pod'.spec.runtime_class_name ≡ pod.spec.runtime_class_name
  pub labels : pod'.labels ≡ pod.labels
  pub other : pod'.other ≡ pod.other
  pub apps : keep is_app pod'.spec.containers ≡ keep is_app pod.spec.containers
  pub annotations :
      (k : Text)
      → k ≢ annotation_volume_init
      → lookup_map k pod'.annotations ≡ lookup_map k pod.annotations

IsKept-refl : (pod : Pod) → IsKept pod pod
IsKept-refl pod = record {
  volumes = refl;
  runtime = refl;
  labels = refl;
  other = refl;
  apps = refl;
  annotations = λ k h. refl;
}

stripped_annotations :
    (pod : Pod) (k : Text)
    → k ≢ annotation_volume_init
    → lookup_map k (strip pod).annotations ≡ lookup_map k pod.annotations
unfolding strip
stripped_annotations pod k h = ground (
  arith,
  lookup_map-delete_map annotation_volume_init k pod.annotations,
  text_eq_iff annotation_volume_init k,
)

keep-sidecar :
    (es : List RootfsRwLayerEntry) (image : Text) (cs : List Container)
    → keep is_app (keep is_app cs ++ canonical_sidecar es image ∷ []) ≡ keep is_app cs
keep-sidecar es image cs =
    rw (keep-append, keep-keep) (unfold keep canonical_sidecar text_eq in append-nil _)

IsKept-with_sidecar :
    (pod : Pod) (image : Text) (parsed : Option (List RootfsRwLayerEntry))
    → IsKept pod (with_sidecar (strip pod) image parsed)
unfolding with_sidecar strip ensure_sidecar
IsKept-with_sidecar pod image none = record {
  volumes = refl;
  runtime = refl;
  labels = refl;
  other = refl;
  apps = refl;
  annotations = stripped_annotations pod;
}
IsKept-with_sidecar pod image (some es) = record {
  volumes = refl;
  runtime = refl;
  labels = refl;
  other = refl;
  apps = keep-sidecar es image pod.spec.containers;
  annotations = stripped_annotations pod;
}

module _ (json : Json) (context_error : Option Error) (image : Text) (pod pod' : Pod) where
  IsKept-mutate_managed : mutate_managed json context_error image pod ≡ ok pod' → IsKept pod pod'
  IsKept-mutate_managed h =
      let (parsed, _, _, q) = mutate_managed-parts json context_error image pod pod' h in
      rw q (IsKept-with_sidecar pod image parsed)

  -- A pod of no Sysbox runtime class comes back as it is; any other one goes through `mutate_managed`.
  mutate-cases :
      mutate json context_error image pod ≡ ok pod'
      → ((pod' ≡ pod) × (managed pod.spec.runtime_class_name ≡ false))
        ⊎ ((managed pod.spec.runtime_class_name ≡ true)
            × (mutate_managed json context_error image pod ≡ ok pod'))
  unfolding mutate
  mutate-cases h = ground arith

  -- The webhook leaves the volumes, the runtime class, the labels, the other fields, the containers
  -- that do not have the sidecar's name, and every annotation but the internal one as they were.
  pub mutate-IsKept : mutate json context_error image pod ≡ ok pod' → IsKept pod pod'
  mutate-IsKept h = elim (mutate-cases h) [
    | inl (same, _) ↦ rw same (IsKept-refl pod)
    | inr (on, m) ↦ IsKept-mutate_managed m
  ]
