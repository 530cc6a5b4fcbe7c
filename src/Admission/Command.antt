-- ===== src/Admission/Command.antt =====
-- sysbox-admission/cmd/sysbox-admission/main.go: the command of the webhook, up to where it serves.
pub mod Secure
use sysbox.Prelude.{
  ℕ, Bool, true, false, not, ◌&&◌, ◌||◌, Option, none, some, List, [], ◌∷◌, ◌++◌, if◌then◌else◌,
  Result, ok, err, errorf, sentinel, Error, ◌>>=◌,
}
use sysbox.Go.Strings.{Text, codes, blank}
use sysbox.Admission.Api.{Secret}
use sysbox.Admission.Resources.{LifecycleConfig}
use sysbox.Admission.Leader.{
  LeaseLock, ElectorConfig, LeaderCallbacks, new_lease_lock, default_leader_election_config,
  run_leader_election,
}
use sysbox.Admission.Reload.{
  Reloader, new_empty_certificate_reloader, run_rotation_loop, wait_for_tls_certificate_from_secret,
}

pub record ServeConfig : Type 0 where
  pub bootstrap_webhook : Bool
  pub tls_cert : Text
  pub tls_key : Text
  pub allow_insecure_http : Bool

unfoldable pub validate_serve_config : ServeConfig → Option Error
validate_serve_config config =
    if (blank config.tls_cert && not (blank config.tls_key))
      || (not (blank config.tls_cert) && blank config.tls_key)
    then some (errorf "tls-cert and tls-key must be configured together")
    else if config.bootstrap_webhook || (not (blank config.tls_cert) || config.allow_insecure_http)
    then none
    else some (errorf "plaintext HTTP requires --allow-insecure-http")

unfoldable pub default_namespace : Text → Text
default_namespace pod_namespace =
    if not (blank pod_namespace) then pod_namespace else codes "sysbox-system"

-- `detect` and `detect_in` are the functions of containerdUtils.
unfoldable pub sandbox_image_from_config : Result Text → (Text → Result Text) → Text → Result Text
sandbox_image_from_config detect detect_in containerd_config_dir =
    if blank containerd_config_dir then detect else detect_in containerd_config_dir

unfoldable pub leader_identity : Result Text → Text → Result Text
leader_identity hostname override = if not (blank override) then ok override else hostname

-- The flags, parsed; the port is below 2³¹, so that the conversion to int32 keeps it. Durations are not
-- negative here: the loops refuse a negative interval as they refuse zero, and a negative window of
-- renewal is not modelled.
pub record Flags : Type 0 where
  pub show_version : Bool
  pub serving : ServeConfig
  pub containerd_config_dir : Text
  pub namespace : Text
  pub service_name : Text
  pub service_port : ℕ
  pub webhook_name : Text
  pub ca_secret_name : Text
  pub tls_secret_name : Text
  pub lease_name : Text
  pub leader_identity : Text
  pub rotation_interval : ℕ
  pub renewal_window : ℕ
  pub secret_refresh_interval : ℕ

unfoldable pub lifecycle_config_of : Flags → LifecycleConfig
lifecycle_config_of flags = record {
  namespace = flags.namespace;
  service_name = flags.service_name;
  service_port = flags.service_port;
  ca_secret_name = flags.ca_secret_name;
  tls_secret_name = flags.tls_secret_name;
  lease_name = flags.lease_name;
  webhook_name = flags.webhook_name;
  renewal_window = flags.renewal_window;
}

-- The certificate that is served, and the errors that the process has logged.
pub record Process (K : Type 0) : Type 0 where
  pub reloader : Reloader K
  pub log : List Error

-- The clients of client-go: for a configuration `C`, those of the three groups of the API.
pub record ClientSet (C A B R : Type 0) : Type 0 where
  pub in_cluster_config : Result C
  pub new_core : C → Result A
  pub new_coordination : C → Result B
  pub new_registration : C → Result R

pub record LifecycleClients (A B R : Type 0) : Type 0 where
  pub secrets : A
  pub leases : B
  pub registrations : R
  pub namespace : Text

unfoldable pub in_cluster_lifecycle_clients :
    {C A B R : Type 0} → ClientSet C A B R → Text → Result (LifecycleClients A B R)
in_cluster_lifecycle_clients clients namespace = do
  config ← clients.in_cluster_config
  core ← clients.new_core config
  coordination ← clients.new_coordination config
  registration ← clients.new_registration config
  ok (record {
    secrets = core;
    leases = coordination;
    registrations = registration;
    namespace = namespace;
  })

-- What the command meets: the clients, the name of the host, the elector, the runs of the manager that
-- the leader's loop makes, and the rounds of the wait for the certificate.
pub record Environment (C A B R K : Type 0) : Type 0 where
  pub sandbox_image : Result Text
  pub sandbox_image_in : Text → Result Text
  pub clients : ClientSet C A B R
  pub hostname : Result Text
  pub new_leader_elector :
      LifecycleClients A B R → ElectorConfig (Process K) → Result (Process K → Process K)
  pub describe : LeaseLock → Text
  pub first_run : LifecycleClients A B R → Result K
  pub runs : LifecycleClients A B R → List (Result K)
  pub rounds : LifecycleClients A B R → List (Result Secret × Option Error)
  pub key_pair : Text → Text → Result K

-- How the server listens: with the certificate of a reloader, with files, or without TLS.
pub data Listening (K : Type 0) : Type 0 where
  dynamic_tls : Reloader K → Listening K
  tls_files : Text → Text → Listening K
  plaintext : Listening K

-- The end of `main` in the model: the server listens with the sandbox image of its mutator.
pub data Outcome (K : Type 0) : Type 0 where
  printed_version : Outcome K
  fatal : Error → Outcome K
  waits : Outcome K
  serves : Listening K → Text → Outcome K

module _ {C A B R K : Type 0} (env : Environment C A B R K) (flags : Flags) where
  logged : Result (Unit {0}) → Process K → Process K
  logged (ok u) p = p
  logged (err e) p = record p { log = p.log ++ e ∷ [] }

  -- The callback of a leader: the loop of the rotation, and its error in the log.
  lead : LifecycleClients A B R → Process K → Process K
  unfolding logged
  lead clients p =
      let (r, reloader) =
        run_rotation_loop flags.rotation_interval (env.first_run clients) (env.runs clients)
          p.reloader in
      logged r (record p { reloader = reloader })

  unfoldable pub start_certificate_rotation_leader_election :
      LifecycleClients A B R → Text → Process K → Process K
  unfolding lead logged
  start_certificate_rotation_leader_election clients identity p =
      let (r, q) =
        run_leader_election (env.new_leader_elector clients) env.describe
          (new_lease_lock (lifecycle_config_of flags) identity) default_leader_election_config
          (record { on_started_leading = lead clients; on_stopped_leading = none }) p in
      logged r q

  after_wait : Text → Option (Result (Unit {0})) × Reloader K → Outcome K
  after_wait image (none, r) = waits
  after_wait image (some (err e), r) = fatal e
  after_wait image (some (ok u), r) = serves (dynamic_tls r) image

  -- The goroutine of the leader runs beside the rest; what it did by then is done before the wait.
  serve_bootstrapped : Text → LifecycleClients A B R → Text → Outcome K
  unfolding start_certificate_rotation_leader_election after_wait
  serve_bootstrapped image clients identity =
      let p =
        start_certificate_rotation_leader_election clients identity
          (record { reloader = new_empty_certificate_reloader; log = [] }) in
      after_wait image (
        wait_for_tls_certificate_from_secret env.key_pair flags.secret_refresh_interval
          (env.rounds clients) p.reloader)

  -- The clients, and the name of the replica in the election.
  bootstrapped : Result (LifecycleClients A B R × Text)
  bootstrapped = do
    clients ← in_cluster_lifecycle_clients env.clients flags.namespace
    identity ← leader_identity env.hostname flags.leader_identity
    ok (clients, identity)

  unfoldable pub serve_webhook : Text → Outcome K
  unfolding serve_bootstrapped bootstrapped
  serve_webhook image = elim bootstrapped [
    | err e ↦ fatal e
    | ok (clients, identity) ↦ serve_bootstrapped image clients identity
  ]

  unfoldable pub serve : Text → Outcome K
  unfolding serve_webhook
  serve image =
      if flags.serving.bootstrap_webhook
      then serve_webhook image
      else if not (blank flags.serving.tls_cert) && not (blank flags.serving.tls_key)
      then serves (tls_files flags.serving.tls_cert flags.serving.tls_key) image
      else serves plaintext image

  unfoldable pub main : Outcome K
  unfolding serve
  main =
      if flags.show_version
      then printed_version
      else elim (sandbox_image_from_config env.sandbox_image env.sandbox_image_in
          flags.containerd_config_dir) [
            | err e ↦ fatal e
            | ok image ↦ elim (validate_serve_config flags.serving) [
              | some e ↦ fatal e
              | none ↦ serve image
            ]
          ]
