-- ===== src/Tests/Renewal.antt =====
-- A run of the manager on a cluster without Secrets, with a small stand-in for the libraries: an encoded
-- certificate is its kind, its times and its key.
use sysbox.Prelude.{
  zero, suc, ◌-◌, ℕ, ◌+◌, ◌≤◌, ◌≡◌, refl, sym, ap, ◌∙◌, Bool, true, false, ◌&&◌, Option, none, some,
  List, [], ◌∷◌, arith, Result, ok, err, sentinel, io_eof, api_not_found, ltb, find,
}
use sysbox.Go.Strings.{Text, codes, text_eq, contains}
use sysbox.Admission.Certs.{
  Certificate, Pki, Draw, second, minute, ca_template, leaf_template, ca_validity, leaf_validity,
  service_dns_names,
}
use sysbox.Admission.Certs.Laws.{PkiLaws, IsIssued}
use sysbox.Admission.Health.{certificate_healthy, parse_certificate}
use sysbox.Admission.Api.{Attempt, Secret, Secrets}
use sysbox.Admission.Resources.{
  CertificateResources, LifecycleConfig, Draws, health, read_certificate_resources,
  ensure_certificate_resources,
}
use sysbox.Admission.Resources.Written.{SecretsLaws}
use sysbox.Admission.Resources.Healthy.{ArePrompt, ensure_certificate_resources-IsHealthy}

abbrev svc : Text
svc = codes "svc"

abbrev ns : Text
ns = codes "ns"

abbrev decode_pem : Text → Option Text
decode_pem [] = none
decode_pem (c ∷ s) = some s

abbrev parse_der : Text → Result Certificate
parse_der (suc zero ∷ from ∷ to ∷ key ∷ []) =
    ok (record (ca_template 0 0) { not_before = from; not_after = to; public_key = some key })
parse_der (zero ∷ from ∷ to ∷ key ∷ []) =
    ok (record (leaf_template 0 0 svc ns) {
      not_before = from;
      not_after = to;
      public_key = some key;
    })
parse_der _ = err (sentinel io_eof)

abbrev kind_of : Bool → ℕ
kind_of true = 1
kind_of false = 0

abbrev parse_key : Text → Result ℕ
parse_key (k ∷ []) = ok k
parse_key _ = err (sentinel io_eof)

abbrev pub pki : Pki
pki = record {
  pem_decode = decode_pem;
  pem_certificate = λ der. 1 ∷ der;
  pem_key = λ block. 2 ∷ block;
  parse_certificate_der = parse_der;
  parse_pkcs1 = parse_key;
  marshal_pkcs1 = λ k. k ∷ [];
  public = λ k. k;
  create = λ t p key signer. ok (kind_of t.is_ca ∷ t.not_before ∷ t.not_after ∷ key ∷ []);
  verify = λ leaf ca name now. contains leaf.dns_names name && ltb now leaf.not_after;
}

ok-inj {ℓ} : {A : Type ℓ} {a b : A} → ok a ≡ ok b → a ≡ b
ok-inj e = ground arith

issues_ca_lem :
    (serial at key : ℕ) (der : Text)
    → pki.create (ca_template serial at) (ca_template serial at) key key ≡ ok der
    → (cert : Certificate) × (parse_der der ≡ ok cert) × IsIssued (ca_template serial at) key cert
unfolding ca_template
issues_ca_lem serial at key der h = (
  record (ca_template 0 0) {
    not_before = at - minute;
    not_after = at + ca_validity;
    public_key = some key;
  },
  rw (← ok-inj h) refl,
  record {
    not_before = omega arith;
    not_after = omega arith;
    basic_constraints_valid = refl;
    is_ca = refl;
    key_usage = refl;
    constraints = refl;
    same_key = refl;
  },
)

abbrev leaf_of : ℕ → ℕ → Certificate
leaf_of at key = record (leaf_template 0 0 svc ns) {
  not_before = at - minute;
  not_after = at + leaf_validity;
  public_key = some key;
}

parse_leaf :
    (serial at key signer : ℕ) (ca : Certificate) (der : Text)
    → pki.create (leaf_template serial at svc ns) ca key signer ≡ ok der
    → parse_der der ≡ ok (leaf_of at key)
unfolding leaf_template
parse_leaf serial at key signer ca der h = rw (← ok-inj h) refl

issues_leaf_lem :
    (serial at key signer : ℕ) (ca : Certificate) (der : Text)
    → pki.create (leaf_template serial at svc ns) ca key signer ≡ ok der
    → (cert : Certificate) × (parse_der der ≡ ok cert)
      × IsIssued (leaf_template serial at svc ns) key cert
unfolding leaf_template
issues_leaf_lem serial at key signer ca der h = (
  leaf_of at key,
  parse_leaf serial at key signer ca der h,
  record {
    not_before = omega arith;
    not_after = omega arith;
    basic_constraints_valid = refl;
    is_ca = refl;
    key_usage = refl;
    constraints = refl;
    same_key = refl;
  },
)

verifies_lem :
    (serial at key signer now : ℕ) (ca leaf : Certificate) (der name : Text)
    → pki.create (leaf_template serial at svc ns) ca key signer ≡ ok der
    → parse_der der ≡ ok leaf
    → contains (service_dns_names svc ns) name ≡ true
    → ltb now leaf.not_after ≡ true
    → (contains leaf.dns_names name && ltb now leaf.not_after) ≡ true
verifies_lem serial at key signer now ca leaf der name c p held valid =
    let parsed = parse_leaf serial at key signer ca der c in
    let names : leaf.dns_names ≡ service_dns_names svc ns =
      unfold leaf_template in ap (λ (x : Certificate). x.dns_names) (ok-inj (sym p ∙ parsed)) in
    rw (names, held, valid) refl

pub pki_laws : PkiLaws pki svc ns
pki_laws = record {
  decode-certificate = λ der. refl;
  decode-key = λ block. refl;
  parse-marshal = λ key. refl;
  issues_ca = issues_ca_lem;
  issues_leaf = issues_leaf_lem;
  verifies =
      λ serial at key signer now ca leaf der name us vs c p k b i u f ca_valid leaf_valid held n.
        verifies_lem serial at key signer now ca leaf der name c p held leaf_valid.1;
}

-- The Secrets of the cluster, newest first.
abbrev pub get_secret : Text → List Secret → Result Secret × List Secret
get_secret name s = (
  elim (find (λ (c : Secret). text_eq c.name name) s) [
    | none ↦ err (sentinel api_not_found)
    | some c ↦ ok c
  ],
  s,
)

abbrev secrets : Secrets (List Secret)
secrets = record {
  get = get_secret;
  create = λ c s. (ok c, c ∷ s);
  update = λ c s. (ok c, c ∷ s);
  retry_on_conflict = λ attempt current s. attempt current s;
}

secrets_laws : SecretsLaws secrets
secrets_laws = record {
  created = λ c s h. ground arith;
  updated = λ c s h. ground arith;
  retried = λ attempt current s h. (current, s, h);
}

abbrev pub config : LifecycleConfig
config = record {
  namespace = ns;
  service_name = svc;
  service_port = 443;
  ca_secret_name = codes "ca";
  tls_secret_name = codes "tls";
  lease_name = codes "lease";
  webhook_name = codes "hook";
  renewal_window = second;
}

abbrev pub draws : Draws
draws = record {
  checked_at = minute;
  ca = record { now = minute; key = ok 5; serials = ok 0 ∷ ok 9 ∷ [] };
  bundle_leaf = record { now = minute; key = ok 6; serials = ok 9 ∷ [] };
  leaf = record { now = minute; key = ok 7; serials = ok 9 ∷ [] };
}

abbrev pub certificates : CertificateResources
certificates = record {
  ca_cert_pem = 1 ∷ 1 ∷ 0 ∷ (minute + ca_validity) ∷ 5 ∷ [];
  ca_key_pem = 2 ∷ 5 ∷ [];
  tls_cert_pem = 1 ∷ 0 ∷ 0 ∷ (minute + leaf_validity) ∷ 7 ∷ [];
  tls_key_pem = 2 ∷ 7 ∷ [];
}

pub prompt : ArePrompt draws
prompt = record {
  ca = (omega arith, omega arith);
  bundle_leaf = (omega arith, omega arith);
  leaf = (omega arith, omega arith);
}

pub window_is_short : config.renewal_window + second ≤ leaf_validity
window_is_short = omega arith

run_succeeds : (ensure_certificate_resources secrets config pki draws []).0 ≡ ok certificates
unfolding ensure_certificate_resources read_certificate_resources find
    sysbox.Admission.Resources.rotate_bundle sysbox.Admission.Certs.generate_certificate_bundle
    sysbox.Admission.Certs.generate_tls_certificate sysbox.Admission.Resources.apply_ca_secret
    sysbox.Admission.Resources.apply_secret sysbox.Admission.Api.data_at text_eq
    sysbox.Admission.Resources.apply_tls_secret
run_succeeds = refl

no_authority :
    (c : CertificateResources) (ca : Certificate)
    → (read_certificate_resources secrets config []).0 ≡ ok (some c)
    → parse_certificate pki c.ca_cert_pem ≡ ok ca
    → ca.constraints ≡ []
unfolding read_certificate_resources find
no_authority c ca h p = absurd (ground arith)

ensure_certificate_resources-IsHealthy_example :
    health secrets config pki draws certificates ≡ certificate_healthy
ensure_certificate_resources-IsHealthy_example =
    ensure_certificate_resources-IsHealthy secrets secrets_laws config pki pki_laws draws
      window_is_short prompt [] no_authority run_succeeds
