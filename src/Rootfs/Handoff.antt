-- ===== src/Rootfs/Handoff.antt =====
-- sysbox-snapshotter/rootfs/persistent_special_handoff.go: the file by which the snapshotter tells
-- the runtime where a container's volume lies.
pub mod Written
use sysbox.Prelude.{
  ℕ, Bool, not, ◌||◌, Option, none, some, List, [], ◌∷◌, ◌++◌, if◌then◌else◌, ◌==◌, Result, ok, err,
  errorf, wrap, Error, is_error, os_not_exist, check_context,
}
use sysbox.Go.Strings.{Text, codes, blank}
use sysbox.Go.Json.{JsonValue, json_number, json_text}
use sysbox.Go.Filepath.{join_path}
use sysbox.Action.{Action, pure, fail, in_context, ◌>>=◌, ◌>>◌}
use sysbox.Rootfs.Types.{PersistentSpecialHandoff}
use sysbox.Rootfs.Os.{Os}

abbrev pub persistent_special_handoff_version : ℕ
persistent_special_handoff_version = 1

abbrev pub persistent_special_handoff_dir : Text
persistent_special_handoff_dir = codes "/run/sysbox/rootfs-pvc-handoff"

-- The struct's fields under the names of their tags, as `json.Marshal` writes them.
unfoldable pub handoff_fields : PersistentSpecialHandoff → List (Text × JsonValue)
handoff_fields h =
    (codes "version", json_number h.version)
    ∷ (codes "snapshotKey", json_text h.snapshot_key)
    ∷ (codes "podUID", json_text h.pod_uid)
    ∷ (codes "containerName", json_text h.container_name)
    ∷ (codes "volumeName", json_text h.volume_name)
    ∷ (codes "pvcMountPath", json_text h.pvc_mount_path)
    ∷ []

unfoldable pub is_incomplete : PersistentSpecialHandoff → Bool
is_incomplete h =
    not (h.version == persistent_special_handoff_version)
    || (blank h.snapshot_key
        || (blank h.pod_uid
            || (blank h.container_name || (blank h.volume_name || blank h.pvc_mount_path))))

-- `digest` is the hexadecimal SHA-256 of a text, and `marshal` is `json.Marshal`.
module _ {W : Type 0} (os : Os W) (digest : Text → Text) (root : Text) where
  unfoldable pub handoff_path : Text → Text
  handoff_path snapshot_key = join_path (root ∷ (digest snapshot_key ++ codes ".json") ∷ [])

  -- The file is closed on an error too; the error of that is dropped.
  or_close : Text → Result (Unit {0}) → Action W (Unit {0})
  or_close tmp (ok u) w = pure tt w
  or_close tmp (err e) w = let (r, v) = os.close tmp w in fail e v

  fill : Text → Text → Text → Action W (Unit {0})
  unfolding or_close
  fill tmp contents path = do
    (λ w.
        let (r, v) = in_context "chmod persistent special handoff" (os.chmod tmp 0o600) w in
        or_close tmp r v)
    (λ w.
        let (r, v) = in_context "write persistent special handoff" (os.write tmp contents) w in
        or_close tmp r v)
    in_context "close persistent special handoff" (os.close tmp)
    in_context "commit persistent special handoff" (os.rename tmp path)

  -- `defer os.Remove(tmpName)`
  and_remove : Text → Action W (Unit {0}) → Action W (Unit {0})
  and_remove tmp act w = let (r, v) = act w in let (_, u) = os.remove tmp v in (r, u)

  unfoldable pub write_handoff :
      Option Error
      → (PersistentSpecialHandoff → Result Text)
      → PersistentSpecialHandoff
      → Action W (Unit {0})
  unfolding fill and_remove
  write_handoff context_error marshal handoff = do
    (λ w. (check_context context_error, w))
    (λ w. (
      if is_incomplete handoff
          then err (errorf "persistent special handoff is incomplete")
          else ok tt,
      w,
    ))
    in_context "create persistent special handoff directory" (os.mkdir_all root 0o700)
    in_context "chmod persistent special handoff directory" (os.chmod root 0o700)
    contents ← in_context "encode persistent special handoff" (λ w. (marshal handoff, w))
    tmp ← in_context "create persistent special handoff" (os.create_temp root (codes ".handoff-"))
    and_remove tmp (fill tmp contents (handoff_path handoff.snapshot_key))

  after_remove : Result (Unit {0}) → Action W (Unit {0})
  after_remove (ok u) w = pure tt w
  after_remove (err e) w =
      if is_error e os_not_exist
      then pure tt w
      else fail (wrap "remove persistent special handoff" e) w

  unfoldable pub remove_handoff : Option Error → Text → Action W (Unit {0})
  unfolding after_remove
  remove_handoff none snapshot_key w =
      if blank snapshot_key
      then pure tt w
      else (let (r, v) = os.remove (handoff_path snapshot_key) w in after_remove r v)
  remove_handoff (some e) snapshot_key w = fail e w
