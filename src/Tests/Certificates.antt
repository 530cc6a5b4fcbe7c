-- ===== src/Tests/Certificates.antt =====
-- Certificates of a public-key library that reads every PEM block but the empty one.
use sysbox.Prelude.{◌++◌}
use sysbox.Admission.Reload.{run_rotation_loop}
use sysbox.Admission.Reload.Serving.{failures, rotation_loop_lem}
use sysbox.Prelude.{is_ok, Error}
use sysbox.Admission.Reload.{wait_for_tls_certificate_from_secret, get_certificate}
use sysbox.Admission.Reload.Serving.{certificate-wait}
use sysbox.Prelude.{
  ℕ, zero, ◌≡◌, ◌≢◌, refl, Bool, true, false, Option, none, some, List, [], ◌∷◌, Result, ok, err,
  arith, sentinel, io_eof, ltb,
}
use sysbox.Go.Strings.{Text, codes}
use sysbox.Admission.Certs.{Certificate, Pki, cert_sign, service_dns_names}
use sysbox.Admission.Health.{
  certificate_healthy, rotate_leaf_certificate, evaluate_certificate_health,
}
use sysbox.Admission.Health.Sound.{IsHealthy, evaluate_certificate_health-IsHealthy}
use sysbox.Admission.Api.{Secret}
use sysbox.Admission.Reload.{Reloader, run_tls_certificate_refresh_loop}
use sysbox.Admission.Reload.Serving.{last_ok, last_carried, certificate-refresh_loop}

abbrev cert : Certificate
cert = record {
  common_name = codes "ca";
  serial = 1;
  not_before = 10;
  not_after = 100;
  basic_constraints_valid = true;
  is_ca = true;
  key_usage = cert_sign ∷ [];
  server_auth = true;
  dns_names = service_dns_names (codes "svc") (codes "ns");
  public_key = some 7;
  constraints = [];
  raw = [];
}

abbrev block_of : Text → Option Text
block_of [] = none
block_of (c ∷ s) = some (c ∷ s)

abbrev pki : Pki
pki = record {
  pem_decode = block_of;
  pem_certificate = λ t. t;
  pem_key = λ t. t;
  parse_certificate_der = λ t. ok cert;
  parse_pkcs1 = λ t. ok 7;
  marshal_pkcs1 = λ k. k ∷ [];
  public = λ k. k;
  create = λ t p k s. ok (1 ∷ []);
  verify = λ leaf ca name now. ltb now leaf.not_after;
}

is_healthy :
    evaluate_certificate_health pki
      (codes "svc")
      (codes "ns")
      20
      50
      (codes "c")
      (codes "k")
      (codes "d")
      (codes "l")
    ≡ certificate_healthy
unfolding evaluate_certificate_health sysbox.Admission.Health.parse_certificate
    sysbox.Admission.Health.parse_rsa_key sysbox.Admission.Health.cert_time_healthy
    sysbox.Admission.Health.can_sign sysbox.Admission.Health.leaf_verifies_against_ca
    sysbox.Prelude.all service_dns_names
is_healthy = refl

evaluate_certificate_health-IsHealthy_example :
    IsHealthy pki (codes "svc") (codes "ns") 20 50 (codes "c") (codes "k") (codes "d") (codes "l")
evaluate_certificate_health-IsHealthy_example =
    evaluate_certificate_health-IsHealthy pki (codes "svc") (codes "ns") 20 50 (codes "c")
      (codes "k") (codes "d") (codes "l") is_healthy

abbrev key_pair : Text → Text → Result ℕ
key_pair (c ∷ cs) (zero ∷ ks) = ok c
key_pair _ _ = err (sentinel io_eof)

abbrev secret : Secret
secret = record {
  name = codes "tls";
  namespace = codes "ns";
  kind = [];
  data_map = (codes "tls.key", 0 ∷ []) ∷ (codes "tls.crt", 5 ∷ []) ∷ [];
  other = [];
}

abbrev answers : List (Result Secret)
answers = ok secret ∷ err (sentinel io_eof) ∷ []

abbrev reloader : Reloader ℕ
reloader = record { certificate = none; reported = [] }

one_is_positive : ◌≢◌ {A = ℕ} 1 0
one_is_positive = omega arith

certificate-refresh_loop_example :
    (run_tls_certificate_refresh_loop key_pair 1 answers reloader).1.certificate
    ≡ last_carried key_pair none answers
certificate-refresh_loop_example =
    certificate-refresh_loop key_pair 1 answers reloader one_is_positive

abbrev wait_answers : List (Result Secret × Option Error)
wait_answers = (err (sentinel io_eof), none) ∷ (ok secret, none) ∷ []

wait_ends : (wait_for_tls_certificate_from_secret key_pair 1 wait_answers reloader).0 ≡ some (ok tt)
unfolding wait_for_tls_certificate_from_secret
    sysbox.Admission.Reload.load_tls_certificate_from_secret sysbox.Admission.Api.data_at
    sysbox.Go.Strings.text_eq
wait_ends = refl

certificate-wait_example :
    is_ok
      (get_certificate (wait_for_tls_certificate_from_secret key_pair 1 wait_answers reloader).1)
    ≡ true
certificate-wait_example = certificate-wait key_pair 1 wait_answers reloader wait_ends

rotation_loop_lem_example :
    ((run_rotation_loop 1 (ok 4) (err (sentinel io_eof) ∷ []) reloader).1.certificate
      ≡ last_ok {K = ℕ} none (ok 4 ∷ err (sentinel io_eof) ∷ []))
    × ((run_rotation_loop 1 (ok 4) (err (sentinel io_eof) ∷ []) reloader).1.reported
        ≡ [] ++ failures {K = ℕ} (ok 4 ∷ err (sentinel io_eof) ∷ []))
rotation_loop_lem_example =
    rotation_loop_lem 1 (ok 4) (err (sentinel io_eof) ∷ []) reloader one_is_positive
