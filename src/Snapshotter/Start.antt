-- ===== src/Snapshotter/Start.antt =====
-- The making of a snapshotter in sysbox-snapshotter/fuseoverlayfs.go, and the two programs that make
-- one: plugin/plugin.go and cmd/sysbox-snapshotter/main.go.
use sysbox.Prelude.{
  Bool, true, false, not, ◌&&◌, Option, none, some, List, [], ◌∷◌, if◌then◌else◌, Result, ok, err,
  errorf, Error,
}
use sysbox.Go.Strings.{Text, codes, blank}
use sysbox.Go.Filepath.{join_path}
use sysbox.Action.{Action, pure, fail, ◌>>=◌, ◌>>◌}
use sysbox.Snapshotter.Hooks.{RootfsHooks}
use sysbox.Snapshotter.Support.{System, supported}

pub record SnapshotterConfig (W : Type 0) : Type 0 where
  pub async_remove : Bool
  pub rootfs_hooks : RootfsHooks W

abbrev pub Opt : Type 0 → Type 0
Opt W = SnapshotterConfig W → Result (SnapshotterConfig W)

-- `M` is the metadata store of containerd.
pub record Snapshotter (M W : Type 0) : Type 0 where
  pub root : Text
  pub ms : M
  pub async_remove : Bool
  pub rootfs_hooks : RootfsHooks W

module _ {W : Type 0} where
  unfoldable pub asynchronous_remove : Opt W
  asynchronous_remove config = ok (record config { async_remove = true })

  unfoldable pub with_rootfs_hooks : RootfsHooks W → Opt W
  with_rootfs_hooks hooks config = ok (record config { rootfs_hooks = hooks })

  unfoldable pub no_hooks : RootfsHooks W
  no_hooks = record {
    identity_resolver = none;
    metadata_resolver = none;
    pvc_resolver = none;
    preparer = none;
    handoff_store = none;
  }

  apply_opts : List (Opt W) → SnapshotterConfig W → Result (SnapshotterConfig W)
  apply_opts [] config = ok config
  apply_opts (opt ∷ opts) config = elim (opt config) [ err e ↦ err e | ok c ↦ apply_opts opts c ]

  module _ {M : Type 0} (system : System W) (new_meta_store : Text → Action W M)
      (exists : Error → Bool) where
    -- A directory that is there already is no error; `exists` is `os.IsExist`.
    unless_exists : Result (Unit {0}) → Action W (Unit {0})
    unless_exists (ok u) = pure tt
    unless_exists (err e) = if exists e then pure tt else fail e

    unfoldable pub new_snapshotter : Text → List (Opt W) → Action W (Snapshotter M W)
    unfolding apply_opts unless_exists no_hooks
    new_snapshotter root opts = do
      config ←
          (λ w. (apply_opts opts (record { async_remove = false; rootfs_hooks = no_hooks }), w))
      system.mkdir_all root 0o700
      ms ← new_meta_store (join_path (root ∷ codes "metadata.db" ∷ []))
      (λ w.
          let (r, v) = system.mkdir (join_path (root ∷ codes "snapshots" ∷ [])) 0o700 w in
          unless_exists r v)
      pure (record {
        root = root;
        ms = ms;
        async_remove = config.async_remove;
        rootfs_hooks = config.rootfs_hooks;
      })

    -- `InitFn` of the plugin: `none` is a configuration of another type. The directory of the properties
    -- is used unless the configuration has one.
    unfoldable pub init_plugin : Option Text → Text → Action W (Snapshotter M W)
    unfolding new_snapshotter
    init_plugin none property_root = fail (errorf "invalid sysbox snapshotter configuration")
    init_plugin (some root_path) property_root =
        new_snapshotter (if not (blank root_path) then root_path else property_root) []

    -- `parse` is `FlagSet.Parse` for the address, the root and the socket of containerd.
    unfoldable pub parse_args :
        (List Text → Result (Text × Text × Text)) → List Text → (Text × Text × Text) × Bool
    parse_args parse args = elim (parse args) [
      | err e ↦ (([], [], []), false)
      | ok (address, root, socket) ↦
          ((address, root, socket), not (blank address) && (not (blank root) && not (blank socket)))
    ]

    -- `dir` is `filepath.Dir`, and `listen_and_serve` the rest behind the making of the snapshotter:
    -- its registration at a server, the socket and the answers to the calls.
    unfoldable pub serve :
        (Text → Text)
        → RootfsHooks W
        → (Text → Snapshotter M W → Action W (Unit {0}))
        → Text
        → Text
        → Action W (Unit {0})
    unfolding new_snapshotter with_rootfs_hooks
    serve dir hooks listen_and_serve address root = do
      system.mkdir_all (dir address) 0o700
      system.remove_all address
      supported system root
      sn ← new_snapshotter root (with_rootfs_hooks hooks ∷ [])
      listen_and_serve address sn
