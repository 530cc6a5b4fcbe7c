-- ===== src/Snapshotter/Hooks.antt =====
-- sysbox-snapshotter/fuseoverlayfs.go: the hook that moves a writable layer to its volume. A hook
-- that is nil is `none`.
pub mod Prepared
pub mod Kept
use sysbox.Prelude.{
  Option, none, some, List, if◌then◌else◌, Result, ok, err, errorf, Error, is_error,
  container_identity_unavailable, rootfs_rw_layer_not_configured,
}
use sysbox.Go.Strings.{Text}
use sysbox.Action.{Action, pure, fail, ◌>>=◌, ◌>>◌}
use sysbox.Rootfs.Types.{
  RootfsRwLayerRequest, RootfsRwLayerSpec, PrepareRootfsRequest, PreparedRootfs,
  PersistentSpecialHandoff,
}
use sysbox.Go.Json.{JsonObjects}
use sysbox.Rootfs.Os.{Os}
use sysbox.Rootfs.Handoff.{
  persistent_special_handoff_version, persistent_special_handoff_dir, handoff_fields, write_handoff,
  remove_handoff,
}
use sysbox.Snapshotter.Mount.{Mount, rewrite_fuse_overlay_mounts}

pub record HandoffStore (W : Type 0) : Type 0 where
  pub write : PersistentSpecialHandoff → Action W (Unit {0})
  pub remove : Text → Action W (Unit {0})

-- The store that the command gives to the hooks; `digest` is the hexadecimal SHA-256 of a text.
unfoldable pub handoff_store_of :
    {W : Type 0} → Os W → (Text → Text) → JsonObjects → Option Error → HandoffStore W
handoff_store_of os digest json context_error = record {
  write =
      write_handoff os digest persistent_special_handoff_dir context_error
        (λ h. json.encode (handoff_fields h));
  remove = remove_handoff os digest persistent_special_handoff_dir context_error;
}

pub record RootfsHooks (W : Type 0) : Type 0 where
  pub identity_resolver : Option (Text → Action W RootfsRwLayerRequest)
  pub metadata_resolver : Option (RootfsRwLayerRequest → Action W RootfsRwLayerSpec)
  pub pvc_resolver : Option (RootfsRwLayerRequest → RootfsRwLayerSpec → Action W Text)
  pub preparer : Option (PrepareRootfsRequest → Action W PreparedRootfs)
  pub handoff_store : Option (HandoffStore W)

-- The hooks that the rewriting needs, all of them.
pub record Resolvers (W : Type 0) : Type 0 where
  pub identity : Text → Action W RootfsRwLayerRequest
  pub metadata : RootfsRwLayerRequest → Action W RootfsRwLayerSpec
  pub pvc : RootfsRwLayerRequest → RootfsRwLayerSpec → Action W Text
  pub prepare : PrepareRootfsRequest → Action W PreparedRootfs

unfoldable pub handoff_of :
    RootfsRwLayerRequest → RootfsRwLayerSpec → Text → PersistentSpecialHandoff
handoff_of request spec pvc_mount_path = record {
  version = persistent_special_handoff_version;
  snapshot_key = request.snapshot_key;
  pod_uid = request.pod_uid;
  container_name = request.container_name;
  volume_name = spec.volume_name;
  pvc_mount_path = pvc_mount_path;
}

unfoldable pub prepare_request_of :
    RootfsRwLayerRequest → RootfsRwLayerSpec → Text → PrepareRootfsRequest
prepare_request_of request spec pvc_mount_path = record {
  snapshot_key = request.snapshot_key;
  pod_uid = request.pod_uid;
  container_name = request.container_name;
  path = spec.path;
  pvc_mount_path = pvc_mount_path;
}

module _ {W : Type 0} where
  -- `none` where one of the four is nil.
  resolvers : RootfsHooks W → Option (Resolvers W)
  resolvers hooks =
      with_all hooks.identity_resolver hooks.metadata_resolver hooks.pvc_resolver hooks.preparer
    where
      with_all :
          Option (Text → Action W RootfsRwLayerRequest)
          → Option (RootfsRwLayerRequest → Action W RootfsRwLayerSpec)
          → Option (RootfsRwLayerRequest → RootfsRwLayerSpec → Action W Text)
          → Option (PrepareRootfsRequest → Action W PreparedRootfs)
          → Option (Resolvers W)
      with_all (some i) (some m) (some p) (some r) =
          some (record { identity = i; metadata = m; pvc = p; prepare = r })
      with_all _ _ _ _ = none

  unfoldable pub write_special :
      Option (HandoffStore W)
      → RootfsRwLayerRequest
      → RootfsRwLayerSpec
      → Text
      → Action W (Unit {0})
  unfolding handoff_of
  write_special store request spec pvc_mount_path =
      if spec.persistent_special_mounts
      then elim store [
        | none ↦ fail (errorf "persistent special handoff store is not configured")
        | some s ↦ s.write (handoff_of request spec pvc_mount_path)
      ]
      else pure tt

  -- A container with a layer of its own: the layer is prepared, and the mounts are led to it.
  unfoldable pub use_layer :
      Resolvers W
      → Option (HandoffStore W)
      → List Mount
      → RootfsRwLayerRequest
      → RootfsRwLayerSpec
      → Action W (List Mount)
  unfolding write_special prepare_request_of
  use_layer hooks store mounts request spec = do
    pvc_mount_path ← hooks.pvc request spec
    prepared ← hooks.prepare (prepare_request_of request spec pvc_mount_path)
    write_special store request spec pvc_mount_path
    pure (rewrite_fuse_overlay_mounts mounts prepared.upper_dir prepared.work_dir)

  after_metadata :
      Resolvers W
      → Option (HandoffStore W)
      → List Mount
      → RootfsRwLayerRequest
      → Result RootfsRwLayerSpec
      → Action W (List Mount)
  unfolding use_layer
  after_metadata hooks store mounts request (err e) =
      if is_error e rootfs_rw_layer_not_configured then pure mounts else fail e
  after_metadata hooks store mounts request (ok spec) =
      if spec.sidecar then pure mounts else use_layer hooks store mounts request spec

  after_identity :
      Resolvers W
      → Option (HandoffStore W)
      → List Mount
      → Result RootfsRwLayerRequest
      → Action W (List Mount)
  unfolding after_metadata
  after_identity hooks store mounts (err e) w =
      if is_error e container_identity_unavailable then pure mounts w else fail e w
  after_identity hooks store mounts (ok request) w =
      let (r, v) = hooks.metadata request w in after_metadata hooks store mounts request r v

  run_hook :
      Option (Resolvers W) → Option (HandoffStore W) → Text → List Mount → Action W (List Mount)
  unfolding after_identity
  run_hook none store key mounts w = pure mounts w
  run_hook (some hooks) store key mounts w =
      let (r, v) = hooks.identity key w in after_identity hooks store mounts r v

  unfoldable pub apply_rootfs_hook : RootfsHooks W → Text → List Mount → Action W (List Mount)
  unfolding run_hook resolvers
  apply_rootfs_hook hooks key mounts = run_hook (resolvers hooks) hooks.handoff_store key mounts
