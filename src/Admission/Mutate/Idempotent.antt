-- ===== src/Admission/Mutate/Idempotent.antt =====
-- The webhook may be called again on what it returned (its reinvocation policy is IfNeeded): it then
-- changes nothing more.
use sysbox.Prelude.{
  ◌≡◌, refl, ap, ap₂, ◌∙◌, true, Option, none, some, List, [], ◌∷◌, ◌++◌, arith, append-nil, keep,
  keep-append, keep-keep, find, ok, Error, check_context, >>=-eq-ok,
}
use sysbox.Go.Strings.{Text, text_eq, text_eq_iff}
use sysbox.Admission.Pod.{
  Pod, PodSpec, Container, RootfsRwLayerEntry, StringMap, annotation_rootfs_rw_layer,
  annotation_volume_init, sidecar_container_name, lookup_map, delete_map, delete_map-delete_map,
}
use sysbox.Admission.Validate.{
  Json, find_container, find_pvc_volume, validate_entry, validate_entries, parse_entries,
  parse_rootfs_annotation, container_of,
}
use sysbox.Admission.Sidecar.{canonical_sidecar, is_app, ensure_sidecar}
use sysbox.Admission.Mutate.{managed, mutate_managed, mutate, with_sidecar}

module _ (entries : List RootfsRwLayerEntry) (image : Text) where
  container_of-append :
      (name : Text) (cs : List Container) (c : Container)
      → text_eq c.name name ≡ true
      → container_of (find (λ (d : Container). text_eq d.name name) (cs ++ c ∷ [])) ≡ ok tt
  unfolding find container_of
  container_of-append name [] c h = ground arith
  container_of-append name (d ∷ cs) c h = ground (arith, container_of-append name cs c h)

  -- A container that the pod has is there behind the sidecar's replacement too.
  container_of-keep :
      (name : Text) (cs : List Container)
      → container_of (find (λ (c : Container). text_eq c.name name) cs) ≡ ok tt
      → container_of (
          find
            (λ (c : Container). text_eq c.name name)
            (keep is_app cs ++ canonical_sidecar entries image ∷ []))
        ≡ ok tt
  unfolding find keep container_of
  container_of-keep name [] h = absurd (ground arith)
  container_of-keep name (c ∷ cs) h = ground (
    arith,
    container_of-keep name cs,
    container_of-append name (keep is_app cs) (canonical_sidecar entries image),
    text_eq_iff c.name name,
    text_eq_iff c.name sidecar_container_name,
    sidecar_named name,
  )
    where
      sidecar_named :
          (n : Text)
          → sidecar_container_name ≡ n
          → text_eq (canonical_sidecar entries image).name n ≡ true
      sidecar_named n e = unfold canonical_sidecar in (text_eq_iff _ n).1 e

  validate_entry-ensure_sidecar :
      (spec : PodSpec) (entry : RootfsRwLayerEntry)
      → validate_entry spec entry ≡ ok tt
      → validate_entry (ensure_sidecar spec entries image) entry ≡ ok tt
  unfolding validate_entry ensure_sidecar find_container find_pvc_volume
  validate_entry-ensure_sidecar spec entry h =
      ground (arith, container_of-keep entry.name spec.containers)

  validate_entries-ensure_sidecar :
      (spec : PodSpec) (seen : List Text) (es : List RootfsRwLayerEntry)
      → validate_entries spec seen es ≡ ok tt
      → validate_entries (ensure_sidecar spec entries image) seen es ≡ ok tt
  unfolding validate_entries
  validate_entries-ensure_sidecar spec seen [] h = refl
  validate_entries-ensure_sidecar spec seen (e ∷ es) h = ground (
    arith,
    validate_entry-ensure_sidecar spec e,
    validate_entries-ensure_sidecar spec (e.name ∷ seen) es,
  )

  ensure_sidecar-ensure_sidecar :
      (spec : PodSpec)
      → ensure_sidecar (ensure_sidecar spec entries image) entries image
        ≡ ensure_sidecar spec entries image
  unfolding ensure_sidecar
  ensure_sidecar-ensure_sidecar spec =
      ap (λ cs. record spec { containers = cs ++ canonical_sidecar entries image ∷ [] })
        (rw (keep-append, keep-keep) (dropped (keep is_app spec.containers)))
    where
      dropped :
          (cs : List Container) → cs ++ keep is_app (canonical_sidecar entries image ∷ []) ≡ cs
      dropped cs = unfold keep canonical_sidecar text_eq in append-nil cs

module _ (json : Json) where
  parse_entries-ensure_sidecar :
      (spec : PodSpec) (raw image : Text) (entries : List RootfsRwLayerEntry)
      → parse_entries json spec raw ≡ ok entries
      → parse_entries json (ensure_sidecar spec entries image) raw ≡ ok entries
  unfolding parse_entries
  parse_entries-ensure_sidecar spec raw image entries h =
      ground (arith, validate_entries-ensure_sidecar entries image spec [] entries)

  -- What the annotation asks for is read again from the rewritten pod.
  parse_rootfs_annotation-ensure_sidecar :
      (annotations : Option StringMap) (spec : PodSpec) (image : Text)
      (entries : List RootfsRwLayerEntry)
      → parse_rootfs_annotation json annotations spec ≡ ok (some entries)
      → parse_rootfs_annotation json annotations (ensure_sidecar spec entries image)
        ≡ ok (some entries)
  unfolding parse_rootfs_annotation
  parse_rootfs_annotation-ensure_sidecar annotations spec image entries h =
      go (lookup_map annotation_rootfs_rw_layer annotations) refl
    where
      go :
          (found : Option Text)
          → lookup_map annotation_rootfs_rw_layer annotations ≡ found
          → parse_rootfs_annotation json annotations (ensure_sidecar spec entries image)
            ≡ ok (some entries)
      go none e = absurd (ground arith)
      go (some raw) e = ground (arith, parse_entries-ensure_sidecar spec raw image entries)

unfoldable pub strip : Pod → Pod
strip pod = record pod { annotations = delete_map annotation_volume_init pod.annotations }

module _ (json : Json) (context_error : Option Error) (image : Text) where
  pub mutate_managed-parts :
      (pod pod' : Pod)
      → mutate_managed json context_error image pod ≡ ok pod'
      → (parsed : Option (List RootfsRwLayerEntry)) × (parse_rootfs_annotation json
            (strip pod).annotations
            pod.spec
          ≡ ok parsed)
        × (check_context context_error ≡ ok tt)
        × (pod' ≡ with_sidecar (strip pod) image parsed)
  unfolding mutate_managed strip
  mutate_managed-parts pod pod' h =
      let (parsed, e, rest) = >>=-eq-ok _ _ h in
      let (_, c, last) = >>=-eq-ok (check_context context_error) _ rest in
      (parsed, e, ground arith, ground arith)

  mutate_managed-eq :
      (pod : Pod) (parsed : Option (List RootfsRwLayerEntry))
      → parse_rootfs_annotation json (strip pod).annotations pod.spec ≡ ok parsed
      → check_context context_error ≡ ok tt
      → mutate_managed json context_error image pod ≡ ok (with_sidecar (strip pod) image parsed)
  unfolding mutate_managed strip
  mutate_managed-eq pod parsed e c = rw (e, c)

  with_sidecar-with_sidecar :
      (pod : Pod) (parsed : Option (List RootfsRwLayerEntry))
      → with_sidecar (strip (with_sidecar (strip pod) image parsed)) image parsed
        ≡ with_sidecar (strip pod) image parsed
  unfolding with_sidecar strip
  with_sidecar-with_sidecar pod none =
      ap (λ a. record pod { annotations = a }) (delete_map-delete_map _ pod.annotations)
  with_sidecar-with_sidecar pod (some entries) =
      ap₂ (λ a s. record pod { annotations = a; spec = s })
        (delete_map-delete_map _ pod.annotations)
        (ensure_sidecar-ensure_sidecar entries image pod.spec)

  parse-with_sidecar :
      (pod : Pod) (parsed : Option (List RootfsRwLayerEntry))
      → parse_rootfs_annotation json (strip pod).annotations pod.spec ≡ ok parsed
      → let pod' = with_sidecar (strip pod) image parsed in
        parse_rootfs_annotation json (strip pod').annotations pod'.spec ≡ ok parsed
  unfolding with_sidecar strip
  parse-with_sidecar pod none e = rw delete_map-delete_map e
  parse-with_sidecar pod (some entries) e =
      rw delete_map-delete_map
        (parse_rootfs_annotation-ensure_sidecar json _ pod.spec image entries e)

  mutate_managed-mutate_managed :
      (pod pod' : Pod)
      → mutate_managed json context_error image pod ≡ ok pod'
      → mutate_managed json context_error image pod' ≡ ok pod'
  mutate_managed-mutate_managed pod pod' h =
      let (parsed, e, c, q) = mutate_managed-parts pod pod' h in
      rw q (
        mutate_managed-eq _ parsed (parse-with_sidecar pod parsed e) c
        ∙ ap ok (with_sidecar-with_sidecar pod parsed))

  runtime-with_sidecar :
      (pod : Pod) (parsed : Option (List RootfsRwLayerEntry))
      → (with_sidecar (strip pod) image parsed).spec.runtime_class_name
        ≡ pod.spec.runtime_class_name
  unfolding with_sidecar strip ensure_sidecar
  runtime-with_sidecar pod none = refl
  runtime-with_sidecar pod (some entries) = refl

  managed-mutate_managed :
      (pod pod' : Pod)
      → mutate_managed json context_error image pod ≡ ok pod'
      → managed pod'.spec.runtime_class_name ≡ managed pod.spec.runtime_class_name
  managed-mutate_managed pod pod' h =
      let (parsed, e, c, q) = mutate_managed-parts pod pod' h in
      ap managed (rw q (runtime-with_sidecar pod parsed))

  -- A pod that the webhook returned is returned unchanged when the webhook is called on it again,
  -- with the same context and sandbox image.
  pub mutate-mutate :
      (pod pod' : Pod)
      → mutate json context_error image pod ≡ ok pod'
      → mutate json context_error image pod' ≡ ok pod'
  unfolding mutate
  mutate-mutate pod pod' h =
      ground (arith, mutate_managed-mutate_managed pod pod', managed-mutate_managed pod pod')
