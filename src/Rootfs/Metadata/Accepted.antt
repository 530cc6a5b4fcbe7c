-- ===== src/Rootfs/Metadata/Accepted.antt =====
-- The snapshotter reads what the webhook accepted.
use sysbox.Prelude.{
  ◌≡◌, true, false, Option, List, [], ◌∷◌, ◌++◌, arith, any, any-append, All, Result, ok, is_ok,
}
use sysbox.Go.Strings.{text_eq, text_eq_iff, blank}
use sysbox.Admission.Pod.{PodSpec, RootfsRwLayerEntry}
use sysbox.Admission.Validate.{Json, parse_entries}
use sysbox.Admission.Validate.Accepted.{
  IsAccepted, AreDistinct, parse_entries-IsAccepted, parse_entries-blank,
}
use sysbox.Rootfs.Path.{safe_layer_path}
use sysbox.Rootfs.Types.{OciSpec, RootfsRwLayerRequest, RootfsRwLayerSpec, sidecar_container_name}
use sysbox.Rootfs.Metadata.{
  Unmarshal, intent_entry, intent_entries, parse_pod_annotation_intent, spec_of_entry, find_entry,
  resolve_rootfs_rw_layer,
}

-- The layer that an entry asks for, with the specification of the sidecar.
abbrev pub layer_of : RootfsRwLayerEntry → Option OciSpec → RootfsRwLayerSpec
layer_of entry sidecar_spec = record {
  volume_name = entry.volume_name;
  path = entry.path;
  persistent_special_mounts = entry.persistent_special_mounts;
  special_path = entry.special_path;
  sidecar = false;
  sidecar_spec = sidecar_spec;
}

module _ (load : RootfsRwLayerRequest → Result (Option OciSpec)) (request : RootfsRwLayerRequest)
    {sidecar_spec : Option OciSpec} (loaded : load request ≡ ok sidecar_spec) where
  spec_of_entry-accepted :
      (entry : RootfsRwLayerEntry)
      → is_ok (safe_layer_path entry.path) ≡ true
      → spec_of_entry load request (intent_entry entry) ≡ ok (layer_of entry sidecar_spec)
  unfolding spec_of_entry intent_entry
  spec_of_entry-accepted entry safe = ground (arith, safe, loaded)

  -- Among entries with distinct names, the search finds the one of the container's name.
  find_entry-accepted :
      (before after : List RootfsRwLayerEntry) (entry : RootfsRwLayerEntry)
      → AreDistinct (before ++ entry ∷ after)
      → text_eq entry.name request.container_name ≡ true
      → is_ok (safe_layer_path entry.path) ≡ true
      → find_entry load request (intent_entries (before ++ entry ∷ after))
        ≡ ok (layer_of entry sidecar_spec)
  unfolding find_entry intent_entries intent_entry
  find_entry-accepted [] after entry d n safe = rw n (spec_of_entry-accepted entry safe)
  find_entry-accepted (e ∷ before) after entry (_, alone, d) n safe =
      rw other (find_entry-accepted before after entry d n safe)
    where
      other : text_eq e.name request.container_name ≡ false
      other =
          unfold any in
          ground (
            arith,
            alone,
            any-append (λ (x : RootfsRwLayerEntry). text_eq x.name e.name) before (entry ∷ after),
            text_eq_iff e.name request.container_name,
            text_eq_iff entry.name request.container_name,
            text_eq_iff entry.name e.name,
          )

All-middle {ℓ} : {A : Type ℓ} (P : A → Type 0) (xs ys : List A) (x : A) → All P (xs ++ x ∷ ys) → P x
All-middle P [] ys x (h, _) = h
All-middle P (_ ∷ xs) ys x (_, h) = All-middle P xs ys x h

-- What the webhook accepts, the snapshotter finds: if both decoders read the same entries from an
-- annotation that the webhook accepted, then for a container that one of the entries names, and that is
-- not the sidecar, the snapshotter gives the layer of that entry, where the sidecar's specification is
-- found.
pub resolve_rootfs_rw_layer-accepted :
    (json : Json) (spec : PodSpec) (unmarshal : Unmarshal)
    (load : RootfsRwLayerRequest → Result (Option OciSpec)) (request : RootfsRwLayerRequest)
    (before after : List RootfsRwLayerEntry) (entry : RootfsRwLayerEntry)
    {sidecar_spec : Option OciSpec}
    → parse_entries json spec request.annotation ≡ ok (before ++ entry ∷ after)
    → unmarshal request.annotation ≡ ok (before ++ entry ∷ after)
    → text_eq entry.name request.container_name ≡ true
    → text_eq request.container_name sidecar_container_name ≡ false
    → load request ≡ ok sidecar_spec
    → resolve_rootfs_rw_layer load request unmarshal ≡ ok (layer_of entry sidecar_spec)
unfolding resolve_rootfs_rw_layer parse_pod_annotation_intent
resolve_rootfs_rw_layer-accepted json spec unmarshal load request before after entry h u n s
      loaded =
    let (_, distinct, all) = parse_entries-IsAccepted json spec request.annotation h in
    let accepted = All-middle (IsAccepted spec) before after entry all in
    rw (named distinct, parse_entries-blank json spec request.annotation h, u, s)
      (find_entry-accepted load request loaded before after entry distinct n accepted.safe)
  where
    all_named :
        (xs ys : List RootfsRwLayerEntry) (x : RootfsRwLayerEntry)
        → AreDistinct (xs ++ x ∷ ys)
        → blank x.name ≡ false
    all_named [] ys x (h, _, _) = h
    all_named (_ ∷ xs) ys x (_, _, h) = all_named xs ys x h

    named : AreDistinct (before ++ entry ∷ after) → blank request.container_name ≡ false
    named d =
        ground
          (arith, all_named before after entry d, text_eq_iff entry.name request.container_name)
