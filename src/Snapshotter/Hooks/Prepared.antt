-- ===== src/Snapshotter/Hooks/Prepared.antt =====
-- What the hook gives: its mounts, or the mounts rewritten to a prepared layer.
use sysbox.Prelude.{
  ◌≡◌, refl, sym, ap, ◌∙◌, ◌⊎◌, inl, inr, true, false, Option, none, some, List, arith, Bool-cases,
  Result, ok, err, Error, is_error, container_identity_unavailable, rootfs_rw_layer_not_configured,
}
use sysbox.Go.Strings.{Text}
use sysbox.Action.{>>=-run_ok}
use sysbox.Rootfs.Types.{RootfsRwLayerRequest, RootfsRwLayerSpec, PreparedRootfs}
use sysbox.Snapshotter.Mount.{Mount, rewrite_fuse_overlay_mounts}
use sysbox.Snapshotter.Hooks.{
  HandoffStore, RootfsHooks, Resolvers, use_layer, after_metadata, after_identity, run_hook,
  resolvers, apply_rootfs_hook, prepare_request_of, write_special,
}

-- The mounts, led to a layer or left as they are.
unfoldable pub led : Option PreparedRootfs → List Mount → List Mount
led none mounts = mounts
led (some prepared) mounts = rewrite_fuse_overlay_mounts mounts prepared.upper_dir prepared.work_dir

module _ {W : Type 0} where
  -- The four hooks that are set, and one that is nil.
  pub record AreHooks (hooks : RootfsHooks W) (all : Resolvers W) : Type 0 where
    pub identity : hooks.identity_resolver ≡ some all.identity
    pub metadata : hooks.metadata_resolver ≡ some all.metadata
    pub pvc : hooks.pvc_resolver ≡ some all.pvc
    pub prepare : hooks.preparer ≡ some all.prepare

  abbrev IsMissing : RootfsHooks W → Type 0
  IsMissing hooks =
      (hooks.identity_resolver ≡ none)
      ⊎ ((hooks.metadata_resolver ≡ none) ⊎ ((hooks.pvc_resolver ≡ none) ⊎ (hooks.preparer ≡ none)))

  -- Where the answers to the identity, the metadata, the claim and the layer, asked for in this order,
  -- lead a container: to no layer, where it has no identity or none is configured for it or it is the
  -- sidecar, or to the layer that the preparer gives for its path on its claim.
  pub data Leads (hooks : RootfsHooks W) (key : Text) (w : W) : Option PreparedRootfs → Type 0 where
    without_hook : IsMissing hooks → Leads hooks key w none
    unidentified :
        (all : Resolvers W) (e : Error)
        → AreHooks hooks all
        → (all.identity key w).0 ≡ err e
        → is_error e container_identity_unavailable ≡ true
        → Leads hooks key w none
    unconfigured :
        (all : Resolvers W) (request : RootfsRwLayerRequest) (e : Error)
        → AreHooks hooks all
        → (all.identity key w).0 ≡ ok request
        → (all.metadata request (all.identity key w).1).0 ≡ err e
        → is_error e rootfs_rw_layer_not_configured ≡ true
        → Leads hooks key w none
    sidecar :
        (all : Resolvers W) (request : RootfsRwLayerRequest) (spec : RootfsRwLayerSpec)
        → AreHooks hooks all
        → (all.identity key w).0 ≡ ok request
        → (all.metadata request (all.identity key w).1).0 ≡ ok spec
        → spec.sidecar ≡ true
        → Leads hooks key w none
    layer :
        (all : Resolvers W) (request : RootfsRwLayerRequest) (spec : RootfsRwLayerSpec)
        (path : Text) (v : W) (prepared : PreparedRootfs)
        → AreHooks hooks all
        → (all.identity key w).0 ≡ ok request
        → all.metadata request (all.identity key w).1 ≡ (ok spec, v)
        → spec.sidecar ≡ false
        → (all.pvc request spec v).0 ≡ ok path
        → (all.prepare
            (record {
              snapshot_key = request.snapshot_key;
              pod_uid = request.pod_uid;
              container_name = request.container_name;
              path = spec.path;
              pvc_mount_path = path;
            })
            (all.pvc request spec v).1).0
          ≡ ok prepared
        → Leads hooks key w (some prepared)

  -- What the hook gives where it succeeds: the container is led somewhere, and its mounts with it.
  abbrev IsLed : RootfsHooks W → Text → W → List Mount → List Mount → Type 0
  IsLed hooks key w mounts result =
      (o : Option PreparedRootfs) × Leads hooks key w o × (result ≡ led o mounts)

  module _ (hooks : RootfsHooks W) (all : Resolvers W) (are : AreHooks hooks all) (key : Text)
      (w : W) (store : Option (HandoffStore W)) (mounts : List Mount) {result : List Mount} where
    module _ (request : RootfsRwLayerRequest) (known : (all.identity key w).0 ≡ ok request) where
      IsLed-use_layer :
          (spec : RootfsRwLayerSpec) (v : W)
          → all.metadata request (all.identity key w).1 ≡ (ok spec, v)
          → spec.sidecar ≡ false
          → (use_layer all store mounts request spec v).0 ≡ ok result
          → IsLed hooks key w mounts result
      unfolding use_layer prepare_request_of led
      IsLed-use_layer spec v found app h =
          let (path, claim, same) = >>=-run_ok (all.pvc request spec) _ v h in
          let h1 = sym (ap (λ x. x.0) same) ∙ h in
          let (prepared, made, same1) =
            >>=-run_ok (all.prepare (prepare_request_of request spec path)) _ _ h1 in
          let h2 = sym (ap (λ x. x.0) same1) ∙ h1 in
          let (_, _, same2) = >>=-run_ok (write_special store request spec path) _ _ h2 in
          let last = sym (ap (λ x. x.0) same2) ∙ h2 in
          (
            some prepared,
            layer all request spec path v prepared are known found app claim made,
            ground (arith, last),
          )

      IsLed-after_metadata :
          (r : Result RootfsRwLayerSpec) (v : W)
          → all.metadata request (all.identity key w).1 ≡ (r, v)
          → (after_metadata all store mounts request r v).0 ≡ ok result
          → IsLed hooks key w mounts result
      unfolding after_metadata led
      IsLed-after_metadata (err e) v q h =
          elim (Bool-cases (is_error e rootfs_rw_layer_not_configured)) [
            | inl y ↦
                (none, unconfigured all request e are known (ap (λ x. x.0) q) y, ground (arith, y))
            | inr n ↦ absurd (ground (arith, n))
          ]
      IsLed-after_metadata (ok spec) v q h = elim (Bool-cases spec.sidecar) [
        | inl y ↦ (none, sidecar all request spec are known (ap (λ x. x.0) q) y, ground (arith, y))
        | inr n ↦ IsLed-use_layer spec v q n (ground (arith, n))
      ]

    IsLed-after_identity :
        (r : Result RootfsRwLayerRequest)
        → (all.identity key w).0 ≡ r
        → (after_identity all store mounts r (all.identity key w).1).0 ≡ ok result
        → IsLed hooks key w mounts result
    unfolding after_identity led
    IsLed-after_identity (err e) q h =
        elim (Bool-cases (is_error e container_identity_unavailable)) [
          | inl y ↦ (none, unidentified all e are q y, ground (arith, y))
          | inr n ↦ absurd (ground (arith, n))
        ]
    IsLed-after_identity (ok request) q h = IsLed-after_metadata request q _ _ refl h

  resolvers-none : (hooks : RootfsHooks W) → resolvers hooks ≡ none → IsMissing hooks
  unfolding resolvers
  resolvers-none hooks h = ground arith

  resolvers-some :
      (hooks : RootfsHooks W) {all : Resolvers W} → resolvers hooks ≡ some all → AreHooks hooks all
  unfolding resolvers
  resolvers-some hooks h = record {
    identity = ground arith;
    metadata = ground arith;
    pvc = ground arith;
    prepare = ground arith;
  }

  -- Where the hook succeeds, it gives the mounts as they are, where the answers lead to no layer, and
  -- rewritten to the layer that they lead to otherwise.
  pub apply_rootfs_hook-cases :
      (hooks : RootfsHooks W) (key : Text) (mounts : List Mount) (w : W) {result : List Mount}
      → (apply_rootfs_hook hooks key mounts w).0 ≡ ok result
      → (o : Option PreparedRootfs) × Leads hooks key w o × (result ≡ led o mounts)
  unfolding apply_rootfs_hook run_hook led
  apply_rootfs_hook-cases hooks key mounts w {result} h = go (resolvers hooks) refl h
    where
      go :
          (r : Option (Resolvers W))
          → resolvers hooks ≡ r
          → (run_hook r hooks.handoff_store key mounts w).0 ≡ ok result
          → (o : Option PreparedRootfs) × Leads hooks key w o × (result ≡ led o mounts)
      go none q k = (none, without_hook (resolvers-none hooks q), ground arith)
      go (some all) q k =
          IsLed-after_identity hooks all (resolvers-some hooks {all = all} q) key w
            hooks.handoff_store mounts _ refl k
