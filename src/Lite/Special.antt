-- ===== src/Lite/Special.antt =====
-- sysbox-runc-lite/lite.go: the special directories that are kept on the volume.
pub mod Placement
pub mod Handover
use sysbox.Prelude.{
  ℕ, Bool, true, false, not, ◌&&◌, ◌||◌, Option, none, some, List, [], ◌∷◌, ◌++◌, if◌then◌else◌,
  Result, ok, err, errorf, wrap, Error, is_error, os_not_exist,
}
use sysbox.Go.Strings.{Text, codes, text_eq, blank, trim_prefix}
use sysbox.Go.Json.{JsonValue, json_number, json_text, JsonObjects, names_field}
use sysbox.Go.Filepath.{slash, clean, join_path}
use sysbox.Action.{Action, pure, fail, in_context, ◌>>=◌, ◌>>◌}
use sysbox.Admission.Pod.{RootfsRwLayerEntry}
use sysbox.Rootfs.Types.{OciMount, PersistentSpecialHandoff}
use sysbox.Lite.Dirs.{LiteOs, dir_empty, copy_dir}
use sysbox.Lite.Detect.{lite_kubelet_pods_dir}
use sysbox.Lite.Volumes.{LiteSpec, init_lite_volumes_at}

abbrev pub lite_handoff_dir : Text
lite_handoff_dir = codes "/run/sysbox/rootfs-pvc-handoff"

abbrev pub lite_special_paths : List Text
lite_special_paths =
    codes "/var/lib/docker"
    ∷ codes "/var/lib/kubelet"
    ∷ codes "/var/lib/rancher/k3s"
    ∷ codes "/var/lib/rancher/rke2"
    ∷ codes "/var/lib/buildkit"
    ∷ codes "/var/lib/containerd/io.containerd.snapshotter.v1.overlayfs"
    ∷ []

-- The fields of a handoff that the runtime decodes.
pub record LiteHandoff : Type 0 where
  pub snapshot_key : Text
  pub pod_uid : Text
  pub container_name : Text
  pub volume_name : Text
  pub pvc_mount_path : Text

-- One field of the object: a key sets the struct's field of that name, which has no tag and takes a
-- text; other keys are skipped.
set_text : JsonValue → (Text → LiteHandoff) → Result LiteHandoff
set_text (json_number n) set =
    err (errorf "json: cannot unmarshal number into a field of type string")
set_text (json_text t) set = ok (set t)

unfoldable pub set_field : Text → JsonValue → LiteHandoff → Result LiteHandoff
unfolding set_text
set_field key v h =
    if names_field key (codes "SnapshotKey")
    then set_text v (λ t. record h { snapshot_key = t })
    else if names_field key (codes "PodUID")
    then set_text v (λ t. record h { pod_uid = t })
    else if names_field key (codes "ContainerName")
    then set_text v (λ t. record h { container_name = t })
    else if names_field key (codes "VolumeName")
    then set_text v (λ t. record h { volume_name = t })
    else if names_field key (codes "PVCMountPath")
    then set_text v (λ t. record h { pvc_mount_path = t })
    else ok h

unfoldable pub set_fields : List (Text × JsonValue) → LiteHandoff → Result LiteHandoff
unfolding set_field
set_fields [] h = ok h
set_fields ((key, v) ∷ fields) h = elim (set_field key v h) [
  | ok next ↦ set_fields fields next
  | err e ↦ err e
]

-- `json.NewDecoder(f).Decode(&h)`
unfoldable pub decode_handoff : JsonObjects → Text → Result LiteHandoff
unfolding set_fields
decode_handoff json t = elim (json.parse t) [
  | ok fields ↦ set_fields fields (record {
    snapshot_key = [];
    pod_uid = [];
    container_name = [];
    volume_name = [];
    pvc_mount_path = [];
  })
  | err e ↦ err e
]

unfoldable pub special_mount : Text → Text → OciMount
special_mount src dest = record {
  destination = dest;
  kind = codes "bind";
  source = src;
  options = codes "rbind" ∷ codes "rprivate" ∷ [];
}

-- Where a special directory lies on the volume.
unfoldable pub special_source : Text → Text → Text
special_source root dest = join_path (root ∷ trim_prefix (clean dest) (slash ∷ []) ∷ [])

unfoldable pub handoff_matches : LiteHandoff → RootfsRwLayerEntry → Text → Text → Bool
handoff_matches h entry name id =
    text_eq h.container_name name
    && (text_eq h.volume_name entry.volume_name && text_eq h.snapshot_key id)

unfoldable pub special_root : LiteHandoff → RootfsRwLayerEntry → Text
special_root h entry = join_path (h.pvc_mount_path ∷ clean entry.path ∷ codes "special" ∷ [])

-- `decode` reads a handoff from the text of a file, `unmarshal` the entries from the annotation.
module _ {W : Type 0} (os : LiteOs W) (digest : Text → Text)
    (decode : Text → Result LiteHandoff) where
  unfoldable pub load_lite_handoff : Text → Action W LiteHandoff
  load_lite_handoff id = do
    contents ←
        in_context "open persistent special handoff"
          (os.open_read (join_path (lite_handoff_dir ∷ (digest id ++ codes ".json") ∷ [])))
    (λ w. (decode contents, w))

  or_missing : Result (Unit {0}) → Action W (Unit {0})
  or_missing (ok u) w = pure tt w
  or_missing (err e) w =
      if is_error e os_not_exist then pure tt w else fail (wrap "initialize special mount %s" e) w

  -- Where the root is nil, a copy that is needed ends the process with a panic, which is an error here.
  unfoldable pub fill_special : Option Text → Text → Text → Bool → Action W (Unit {0})
  unfolding or_missing
  fill_special rootfs dest src false w = pure tt w
  fill_special none dest src true w =
      fail (errorf "panic: invalid memory address or nil pointer dereference") w
  fill_special (some rootfs) dest src true w =
      let (r, v) = copy_dir os (join_path (rootfs ∷ clean dest ∷ [])) src w in or_missing r v

  -- The loop over the special paths, behind the mounts so far.
  unfoldable pub add_special_paths :
      Option Text → Text → List Text → List OciMount → Action W (List OciMount)
  unfolding fill_special special_source special_mount
  add_special_paths rootfs root [] mounts = pure mounts
  add_special_paths rootfs root (dest ∷ dests) mounts = do
    os.mkdir_all (special_source root dest) 0o755
    empty ← dir_empty os (special_source root dest)
    fill_special rootfs dest (special_source root dest) empty
    add_special_paths rootfs root dests
        (mounts ++ special_mount (special_source root dest) dest ∷ [])

  unfoldable pub add_entry :
      Option Text → Text → Text → RootfsRwLayerEntry → List OciMount → Action W (List OciMount)
  unfolding special_root handoff_matches
  add_entry rootfs name id entry mounts =
      if not (text_eq entry.name name) || not entry.persistent_special_mounts
      then pure mounts
      else do
        handoff ← load_lite_handoff id
        (λ w. (
          if handoff_matches handoff entry name id
              then ok tt
              else err (errorf "persistent special handoff does not match container"),
          w,
        ))
        add_special_paths rootfs (special_root handoff entry)
            (lite_special_paths ++ entry.special_path) mounts

  add_entries :
      Option Text → Text → Text → List RootfsRwLayerEntry → List OciMount → Action W (List OciMount)
  unfolding add_entry
  add_entries rootfs name id [] mounts = pure mounts
  add_entries rootfs name id (entry ∷ entries) mounts = do
    more ← add_entry rootfs name id entry mounts
    add_entries rootfs name id entries more

  -- The mounts of the specification that comes out.
  unfoldable pub add_lite_special_mounts :
      (Text → Result (List RootfsRwLayerEntry)) → LiteSpec → Text → Action W LiteSpec
  unfolding add_entries
  add_lite_special_mounts unmarshal spec id = if blank spec.rootfs_annotation then pure spec else do
    entries ← in_context "decode %s" (λ w. (unmarshal spec.rootfs_annotation, w))
    mounts ← add_entries spec.root_path spec.container_name id entries spec.mounts
    pure (record spec { mounts = mounts })

  unfoldable pub prepare_lite_spec :
      (Text → W → Bool)
      → Result Text
      → (Text → Result (List RootfsRwLayerEntry))
      → LiteSpec
      → Text
      → Action W LiteSpec
  prepare_lite_spec exists cwd unmarshal spec id = do
    init_lite_volumes_at os exists cwd spec lite_kubelet_pods_dir
    add_lite_special_mounts unmarshal spec id
