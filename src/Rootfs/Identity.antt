-- ===== src/Rootfs/Identity.antt =====
-- sysbox-snapshotter/rootfs/containerd_identity.go: which container a snapshot belongs to. The
-- client of containerd is a parameter.
use sysbox.Prelude.{
  Option, none, some, List, [], ◌∷◌, if◌then◌else◌, Result, ok, err, wrap, sentinel, is_error,
  containerd_not_found, container_identity_unavailable, container_identity_incomplete, fail_if,
  context, ◌>>=◌, ◌>>◌,
}
use sysbox.Go.Strings.{Text, codes, text_eq, blank}
use sysbox.Go.Filepath.{base}
use sysbox.Admission.Pod.{StringMap, lookup, annotation_rootfs_rw_layer}
use sysbox.Rootfs.Types.{OciSpec, RootfsRwLayerRequest}

-- What reading the labels and the specification of a loaded container gives.
pub record LoadedContainer : Type 0 where
  pub labels : Result StringMap
  pub spec : Result (Option OciSpec)

pub record Containerd : Type 0 where
  pub connect : Result (Unit {0})
  pub load_container : Text → Result LoadedContainer

-- A key that is missing reads as the empty text.
unfoldable pub value_at : Text → StringMap → Text
unfolding lookup
value_at k m = elim (lookup k m) [ none ↦ [] | some v ↦ v ]

unfoldable pub request_from_labels : Text → StringMap → Result RootfsRwLayerRequest
request_from_labels snapshot_key labels =
    let pod_uid = value_at (codes "io.kubernetes.pod.uid") labels in
    let container_name = value_at (codes "io.kubernetes.container.name") labels in
    do
      fail_if (blank pod_uid)
          (wrap "missing io.kubernetes.pod.uid label" (sentinel container_identity_incomplete))
      fail_if (blank container_name) (
          wrap "missing io.kubernetes.container.name label"
            (sentinel container_identity_unavailable))
      ok (record {
        snapshot_key = snapshot_key;
        pod_uid = pod_uid;
        container_name = container_name;
        annotation = [];
      })

-- The key itself, and its last element where that is another text.
unfoldable pub lookup_keys : Text → List Text
lookup_keys key = if text_eq (base key) key then key ∷ [] else key ∷ base key ∷ []

annotation_of : Option OciSpec → Text
annotation_of none = []
annotation_of (some spec) = elim spec.annotations [
  | none ↦ []
  | some m ↦ value_at annotation_rootfs_rw_layer m
]

module _ (client : Containerd) where
  -- The first key under which a container is known, with that container.
  unfoldable pub load_first : List Text → Result (Text × LoadedContainer)
  load_first [] =
      err (
        wrap "container %q not found for identity lookup" (sentinel container_identity_unavailable))
  load_first (key ∷ keys) =
      let rest = load_first keys in
      elim (client.load_container key) [
        | ok c ↦ ok (key, c)
        | err e ↦
            (if is_error e containerd_not_found
              then rest
              else err (wrap "load container %q for identity lookup" e))
      ]

  unfoldable pub resolve_identity : Text → Result RootfsRwLayerRequest
  unfolding load_first lookup_keys annotation_of
  resolve_identity snapshot_key = do
    context "connect containerd for identity lookup" client.connect
    found ← load_first (lookup_keys snapshot_key)
    labels ← context "read container labels for identity lookup" found.1.labels
    spec ← context "read container spec for identity lookup" found.1.spec
    request ← request_from_labels found.0 labels
    ok (record request { annotation = annotation_of spec })
