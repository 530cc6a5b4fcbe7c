-- ===== src/Tests/Commands.antt =====
-- The command with a Secret that is there at the first round, and an elector that leads once.
use sysbox.Prelude.{◌≡◌, refl, true, false, none, some, [], ◌∷◌, Result, ok, err, sentinel, io_eof}
use sysbox.Go.Strings.{Text, codes, blank}
use sysbox.Admission.Api.{Secret}
use sysbox.Admission.Reload.{Reloader}
use sysbox.Admission.Command.{Flags, Environment, main, serves, dynamic_tls}
use sysbox.Admission.Command.Secure.{IsSecure, main-IsSecure}

abbrev flags : Flags
flags = record {
  show_version = false;
  serving = record {
    bootstrap_webhook = true;
    tls_cert = [];
    tls_key = [];
    allow_insecure_http = false;
  };
  containerd_config_dir = [];
  namespace = codes "ns";
  service_name = codes "svc";
  service_port = 443;
  webhook_name = codes "hook";
  ca_secret_name = codes "ca";
  tls_secret_name = codes "tls";
  lease_name = codes "lease";
  leader_identity = [];
  rotation_interval = 1;
  renewal_window = 1;
  secret_refresh_interval = 1;
}

abbrev secret : Secret
secret = record {
  name = codes "tls";
  namespace = codes "ns";
  kind = codes "kubernetes.io/tls";
  data_map = (codes "tls.crt", codes "c") ∷ (codes "tls.key", codes "k") ∷ [];
  other = [];
}

abbrev Pair : Type 0
Pair = Text × Text

abbrev env : Environment (Unit {0}) (Unit {0}) (Unit {0}) (Unit {0}) Pair
env = record {
  sandbox_image = ok (codes "pause");
  sandbox_image_in = λ dir. err (sentinel io_eof);
  clients = record {
    in_cluster_config = ok tt;
    new_core = λ c. ok tt;
    new_coordination = λ c. ok tt;
    new_registration = λ c. ok tt;
  };
  hostname = ok (codes "host");
  new_leader_elector = λ clients config. ok config.callbacks.on_started_leading;
  describe = λ lock. lock.name;
  first_run = λ clients. err (sentinel io_eof);
  runs = λ clients. ok (codes "old", codes "old") ∷ [];
  rounds = λ clients. (ok secret, none) ∷ [];
  key_pair = λ cert key. ok (cert, key);
}

abbrev served : Reloader Pair
served = record {
  certificate = some (codes "c", codes "k");
  reported = sysbox.Prelude.wrap "ensure admission certificate lifecycle" (sentinel io_eof) ∷ [];
}

command_serves : main env flags ≡ serves (dynamic_tls served) (codes "pause")
unfolding main sysbox.Admission.Command.sandbox_image_from_config
    sysbox.Admission.Command.validate_serve_config
    sysbox.Admission.Command.in_cluster_lifecycle_clients sysbox.Admission.Command.leader_identity
    sysbox.Admission.Reload.wait_for_tls_certificate_from_secret
    sysbox.Admission.Reload.load_tls_certificate_from_secret sysbox.Admission.Api.data_at
    sysbox.Admission.Leader.run_leader_election sysbox.Go.Strings.text_eq
    sysbox.Admission.Reload.run_rotation_loop sysbox.Admission.Reload.new_empty_certificate_reloader
command_serves = refl

main-IsSecure_example : IsSecure flags (dynamic_tls served)
main-IsSecure_example = main-IsSecure flags env (dynamic_tls served) (codes "pause") command_serves
