-- ===== src/Rootfs/SidecarSpec.antt =====
-- sysbox-snapshotter/rootfs/containerd_sidecar_spec.go: the specification of the sidecar.
pub mod Attempts
use sysbox.Prelude.{
  ℕ, zero, suc, Bool, true, false, Option, none, some, List, [], ◌∷◌, ◌++◌, if◌then◌else◌, Result,
  ok, err, wrap, sentinel, Error, is_error, sidecar_spec_unavailable, sidecar_spec_ambiguous,
  sidecar_spec_malformed, context, ◌>>=◌,
}
use sysbox.Go.Strings.{Text, codes, blank}
use sysbox.Rootfs.Types.{OciSpec, RootfsRwLayerRequest, sidecar_container_name}

unfoldable pub unique_sidecar_spec : List OciSpec → Result OciSpec
unique_sidecar_spec [] = err (sentinel sidecar_spec_unavailable)
unique_sidecar_spec (spec ∷ []) = ok spec
unique_sidecar_spec (spec ∷ other ∷ specs) = err (sentinel sidecar_spec_ambiguous)

unfoldable pub sidecar_container_filters : RootfsRwLayerRequest → List Text
sidecar_container_filters request =
    if blank request.pod_uid
    then []
    else (codes "labels.\"io.kubernetes.pod.uid\"=="
        ++ request.pod_uid
        ++ codes ",labels.\"io.kubernetes.container.name\"=="
        ++ sidecar_container_name)
      ∷ []

-- The specifications of the containers that one listing gives, each with its error.
unfoldable pub collect_specs : List (Result (Option OciSpec)) → Result (List OciSpec)
collect_specs [] = ok []
collect_specs (answer ∷ answers) = do
  spec ← context "read sidecar oci spec" answer
  collect_spec spec (collect_specs answers)
  where
    collect_spec : Option OciSpec → Result (List OciSpec) → Result (List OciSpec)
    collect_spec none rest = err (sentinel sidecar_spec_malformed)
    collect_spec (some spec) rest = do specs ← rest; ok (spec ∷ specs)

-- One listing of the containers that pass the filters.
abbrev pub Listing : Type 0
Listing = List Text → Result (List (Result (Option OciSpec)))

unfoldable pub load_once : Listing → RootfsRwLayerRequest → Result OciSpec
unfolding unique_sidecar_spec collect_specs sidecar_container_filters
load_once listing request = do
  answers ←
      context "list containerd containers for sidecar spec lookup"
        (listing (sidecar_container_filters request))
  specs ← collect_specs answers
  unique_sidecar_spec specs

-- One attempt: the listing at its time, and the error of the context if it is done by the end of
-- the wait behind it.
abbrev pub Round : Type 0
Round = Listing × Option Error

-- The attempts that are left, at most one for each round.
unfoldable pub load_attempts : ℕ → List Round → RootfsRwLayerRequest → Result OciSpec
unfolding load_once
load_attempts zero rounds request = err (sentinel sidecar_spec_unavailable)
load_attempts (suc n) [] request = err (sentinel sidecar_spec_unavailable)
load_attempts (suc n) ((listing, done) ∷ rounds) request =
    let more = load_attempts n rounds request in
    elim (load_once listing request) [
      | ok spec ↦ ok spec
      | err e ↦
          (if is_error e sidecar_spec_unavailable
            then elim done [ none ↦ more | some e' ↦ err e' ]
            else err e)
    ]

abbrev pub max_attempts : ℕ
max_attempts = 20

unfoldable pub load_sidecar_spec :
    Result (Unit {0}) → List Round → RootfsRwLayerRequest → Result OciSpec
load_sidecar_spec connect rounds request =
    if blank request.pod_uid then err (sentinel sidecar_spec_unavailable) else (do
      connected ← context "connect containerd for sidecar spec lookup" connect
      load_attempts max_attempts rounds request)
