-- ===== src/Lib.antt =====
-- Sysbox on Kubernetes: the admission webhook, the snapshotter and the lite runtime.
--
-- A pod of a Sysbox runtime class may ask, in an annotation, that the root directory of a container
-- is kept on a claim. Three programs work together on that. The webhook (sysbox-admission) checks the
-- annotation and adds a sidecar that mounts the volumes. The snapshotter (sysbox-snapshotter), a
-- plugin of containerd, makes the snapshots of containers; its hook finds the claim's mount by the
-- specification of the sidecar and puts the writable layer there. The runtime (sysbox-runc-lite)
-- fills empty volumes from the image and mounts the special directories, which it finds by a file
-- that the snapshotter hands over.
--
-- Files and the code that they are about:
--   * Prelude, Prelude/*: names of the library, results with Go's wrapped errors, lemmas on lists.
--   * Action: functions of the state of the outside world that may return an error.
--   * Go/Strings, Go/Strings/Split, Go/Filepath: what the code uses of Go's packages strings and
--     path/filepath. A string is the list of its bytes. Go/Filepath/* are lemmas on clean paths.
--     Go/Json: objects of encoding/json, whose encoder and parser are parameters.
--   * Admission/Pod, Validate, Sidecar, Mutate: admission/mutate.go and sidecar.go (Mutate, mutatePod,
--     parseRootfsAnnotation, validateEntry, ensureSidecar, ...) in sysbox-admission/.
--   * Admission/Patch: admission/patch.go (patchForPod). Admission/Server: admission/server.go
--     (ServeHTTP, mutate, patch).
--   * Admission/Certs, Health: admission/certs.go and cert_health.go (GenerateCertificateBundle,
--     GenerateTLSCertificate, EvaluateCertificateHealth).
--   * Admission/Api, Resources: admission/certificate_resources.go (ensureCertificateResources, ...).
--   * Admission/Lifecycle, Webhook: admission/lifecycle.go and webhook.go (Ensure, ensureLease,
--     ensureWebhook, BuildMutatingWebhookConfiguration).
--   * Admission/Reload: admission/tls_reload.go and rotation.go (the loops that replace the
--     certificate that is served, which is a value there). Admission/Clone: the copies in
--     admission/tls_reload.go (cloneCertificate, ...), on a heap.
--   * Admission/Leader, Command: admission/leader.go and cmd/sysbox-admission/main.go (the election,
--     and the command from its flags to where it serves).
--   * Rootfs/*: the files of sysbox-snapshotter/rootfs: Path (path.go), Types (types.go), Identity
--     (containerd_identity.go), SidecarSpec (containerd_sidecar_spec.go), Metadata
--     (sidecar_metadata.go), Pvc (pvc_mountpath_resolver.go), Os and Preparer (local_preparer.go),
--     Handoff (persistent_special_handoff.go).
--   * Snapshotter/*: sysbox-snapshotter/fuseoverlayfs.go: Store (the state), Create (createSnapshot),
--     Operations (the other operations), Mount and Mounts (mounts and their options), Materialize
--     (materializeActiveSnapshot), Hooks (applyRootfsHook), Start (NewSnapshotter, with plugin/plugin.go
--     and cmd/sysbox-snapshotter/main.go); Support: check.go (Supported). History: sequences of calls.
--   * Lite/*: sysbox-runc-lite/lite.go: Detect (detectLitePVCSourceAt), Dirs (dirEmpty, copyDir),
--     Volumes (initLiteVolumesAt), Special (addLiteSpecialMounts).
--   * Tests/*: concrete runs.
-- A file below one of these, such as Admission/Mutate/Idempotent, holds proofs about it. What the proofs
-- assume of outside code stands there in records: PkiLaws (Admission/Certs/Laws), SecretsLaws
-- (Admission/Resources/Written), ClusterLaws (Admission/Lifecycle/Registered), FileLaws
-- (Rootfs/Handoff/Written), JsonLaws (Go/Json) and StorageLaws (Snapshotter/History). Tests/* have values that meet them.
--
-- Parameters of the model, since their code is not in the repository: the Kubernetes API and
-- client-go, containerd and its metadata store, the codecs of JSON and of Kubernetes types, the
-- packages for certificates, and the calls of the operating system. Random numbers and the readings of
-- the clock, one for each check and each generation, are arguments. The text of an error is its format string; what `errors.Is` finds in it is modelled.
--
-- Bounds: the lookup of the sidecar's specification makes at most 20 attempts, as in the code. The
-- loops that wait are functions of the list of what they meet at their rounds, up to the end of
-- their context; so every function ends, and no other fuel is used. Numbers are unbounded, but
-- for the host id in Materialize, which must fit in 32 bits as in the code; the rest are times and
-- lengths, and in the model the count of open transactions.
--
-- Not modelled: the parsing of flags, a negative window of renewal, and the timeouts of the HTTP server; the registration of the plugin
-- and of the gRPC service; Close, which only closes containerd's store; log messages other than those of
-- the leader's loop; and the rest of sysbox-runc-lite, a copy of runc.
pub mod Prelude
pub mod Action
pub mod Go
pub mod Rootfs
pub mod Admission
pub mod Snapshotter
pub mod Lite
pub mod Tests
