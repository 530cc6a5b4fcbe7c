-- ===== src/Lite/Special/Handover.antt =====
-- The runtime reads the handoff that the snapshotter wrote.
use sysbox.Prelude.{◌≡◌, refl, true, Option, some, [], arith, all, Result, ok, err, Error}
use sysbox.Go.Json.{JsonObjects, JsonLaws, AreValid, is_ascii, names_field}
use sysbox.Go.Strings.{Text, codes, text_eq, text_eq_refl}
use sysbox.Admission.Pod.{RootfsRwLayerEntry}
use sysbox.Rootfs.Os.{Os}
use sysbox.Rootfs.Types.{PersistentSpecialHandoff}
use sysbox.Rootfs.Handoff.{
  persistent_special_handoff_dir, handoff_fields, handoff_path, write_handoff,
}
use sysbox.Snapshotter.Hooks.{handoff_store_of}
use sysbox.Rootfs.Handoff.Written.{FileLaws, content-write_handoff}
use sysbox.Lite.Dirs.{LiteOs}
use sysbox.Lite.Special.{
  LiteHandoff, set_fields, decode_handoff, handoff_matches, load_lite_handoff,
}

-- The fields that the runtime decodes.
unfoldable pub lite_of : PersistentSpecialHandoff → LiteHandoff
lite_of h = record {
  snapshot_key = h.snapshot_key;
  pod_uid = h.pod_uid;
  container_name = h.container_name;
  volume_name = h.volume_name;
  pvc_mount_path = h.pvc_mount_path;
}

module _ {W : Type 0} (os : Os W) (lite : LiteOs W) (content : Text → W → Option Text)
    (Apart : Text → Text → W → Type 0) (laws : FileLaws os content Apart)
    (reads : (p : Text) (w : W) (t : Text) → content p w ≡ some t → (lite.open_read p w).0 ≡ ok t)
    (digest : Text → Text) (json : JsonObjects) (reads_json : JsonLaws json) where
  -- The texts of the handoff are valid.
  pub record IsEncodable (h : PersistentSpecialHandoff) : Type 0 where
    pub snapshot_key : json.valid h.snapshot_key ≡ true
    pub pod_uid : json.valid h.pod_uid ≡ true
    pub container_name : json.valid h.container_name ≡ true
    pub volume_name : json.valid h.volume_name ≡ true
    pub pvc_mount_path : json.valid h.pvc_mount_path ≡ true

  AreValid-handoff_fields :
      (h : PersistentSpecialHandoff) → IsEncodable h → AreValid json (handoff_fields h)
  unfolding handoff_fields is_ascii all
  AreValid-handoff_fields h v = (
    (refl, tt),
    (
      (refl, v.snapshot_key),
      (
        (refl, v.pod_uid),
        ((refl, v.container_name), ((refl, v.volume_name), ((refl, v.pvc_mount_path), tt))),
      ),
    ),
  )

  set_fields-handoff_fields :
      (h : PersistentSpecialHandoff)
      → set_fields (handoff_fields h) (record {
        snapshot_key = [];
        pod_uid = [];
        container_name = [];
        volume_name = [];
        pvc_mount_path = [];
      })
        ≡ ok (lite_of h)
  unfolding set_fields handoff_fields lite_of names_field text_eq
  set_fields-handoff_fields h = refl

  decode_handoff-lem :
      (h : PersistentSpecialHandoff) (t : Text)
      → IsEncodable h
      → json.encode (handoff_fields h) ≡ ok t
      → decode_handoff json t ≡ ok (lite_of h)
  unfolding decode_handoff
  decode_handoff-lem h t v e =
      rw
        (
          decode_handoff,
          reads_json.parse-encode (handoff_fields h) {t = t} (AreValid-handoff_fields h v) e,
        )
        (set_fields-handoff_fields h)

  load_lite_handoff-content :
      (h : PersistentSpecialHandoff) (w : W) {t : Text}
      → IsEncodable h
      → json.encode (handoff_fields h) ≡ ok t
      → content (handoff_path os digest persistent_special_handoff_dir h.snapshot_key) w ≡ some t
      → (load_lite_handoff lite digest (decode_handoff json) h.snapshot_key w).0 ≡ ok (lite_of h)
  unfolding load_lite_handoff handoff_path
  load_lite_handoff-content h w {t} v m c = ground (
    arith,
    reads (handoff_path os digest persistent_special_handoff_dir h.snapshot_key) w t c,
    decode_handoff-lem h t v m,
  )

  handoff_matches-lite_of :
      (h : PersistentSpecialHandoff) (entry : RootfsRwLayerEntry)
      → entry.volume_name ≡ h.volume_name
      → handoff_matches (lite_of h) entry h.container_name h.snapshot_key ≡ true
  unfolding handoff_matches lite_of
  handoff_matches-lite_of h entry e =
      rw (e, text_eq_refl h.container_name, text_eq_refl h.volume_name, text_eq_refl h.snapshot_key)
        refl

  -- Behind a write of the store that the snapshotter's command sets up, if the write succeeds, the runtime
  -- loads the handoff of that snapshot, with the fields that were written, and accepts it for the container
  -- and for an entry of the same volume. The files and the JSON library behave as documented, the texts of
  -- the handoff are valid UTF-8, and the temporary file is apart from the one of the key.
  pub load_lite_handoff-write_handoff :
      (context_error : Option Error) (h : PersistentSpecialHandoff) (entry : RootfsRwLayerEntry)
      (w : W)
      → ((v : W) (tmp : Text)
          → (os.create_temp persistent_special_handoff_dir (codes ".handoff-") v).0 ≡ ok tmp
          → Apart tmp
              (handoff_path os digest persistent_special_handoff_dir h.snapshot_key)
              (os.create_temp persistent_special_handoff_dir (codes ".handoff-") v).1)
      → IsEncodable h
      → ((handoff_store_of os digest json context_error).write h w).0 ≡ ok tt
      → entry.volume_name ≡ h.volume_name
      → ((load_lite_handoff lite digest
            (decode_handoff json)
            h.snapshot_key
            ((handoff_store_of os digest json context_error).write h w).1).0
          ≡ ok (lite_of h))
        × (handoff_matches (lite_of h) entry h.container_name h.snapshot_key ≡ true)
  unfolding handoff_store_of
  load_lite_handoff-write_handoff context_error h entry w apart valid written e =
      (go (marshal h) refl, handoff_matches-lite_of h entry e)
    where
      marshal : PersistentSpecialHandoff → Result Text
      marshal handoff = json.encode (handoff_fields handoff)

      dir : Text
      dir = persistent_special_handoff_dir

      after : W
      after = (write_handoff os digest dir context_error marshal h w).1

      go :
          (encoded : Result Text)
          → marshal h ≡ encoded
          → (load_lite_handoff lite digest (decode_handoff json) h.snapshot_key after).0
            ≡ ok (lite_of h)
      go (ok t) q = load_lite_handoff-content h after valid q (
          content-write_handoff os content Apart laws digest dir context_error marshal h w apart q
            written)
      go (err e) q = absurd (unfold write_handoff in ground (arith, q))
