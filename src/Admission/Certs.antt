-- ===== src/Admission/Certs.antt =====
-- sysbox-admission/admission/certs.go: the webhook's certificates. The packages `crypto/x509`,
-- `crypto/rsa` and `encoding/pem` are the record `Pki`; times are nanoseconds since Go's zero time,
-- and what the random source gives is an argument.
pub mod Laws
pub mod Serial
use sysbox.Prelude.{
  ℕ, ◌+◌, ◌-◌, ◌*◌, Bool, true, false, Option, none, some, List, [], ◌∷◌, ◌++◌, if◌then◌else◌, ltb,
  Result, ok, err, errorf, sentinel, io_eof, Error, fail_if, context, ◌>>=◌, ◌>>◌,
}
use sysbox.Go.Strings.{Text, codes, blank}

abbrev pub second : ℕ
second = 1000000000

abbrev pub minute : ℕ
minute = 60 * second

abbrev pub ca_validity : ℕ
ca_validity = 10 * 365 * 24 * 60 * minute

abbrev pub leaf_validity : ℕ
leaf_validity = 365 * 24 * 60 * minute

pub data KeyUsage : Type 0 where
  cert_sign crl_sign digital_signature key_encipherment : KeyUsage

-- The fields of `x509.Certificate` in use. `public_key` is an RSA key, or none of another kind;
-- `server_auth` is whether the extended key usages hold it, and `constraints` are the extensions that
-- limit what the certificate may sign. `raw` is the encoded certificate, with its signature.
pub record Certificate : Type 0 where
  pub common_name : Text
  pub serial : ℕ
  pub not_before : ℕ
  pub not_after : ℕ
  pub basic_constraints_valid : Bool
  pub is_ca : Bool
  pub key_usage : List KeyUsage
  pub server_auth : Bool
  pub dns_names : List Text
  pub public_key : Option ℕ
  pub constraints : List Text
  pub raw : Text

-- A private key is known by a number, and `public` gives the number of its public key.
-- `create` takes the template, the parent, the subject's public key and the signer's private key;
-- `verify` takes the leaf, the one root, the DNS name and the current time.
pub record Pki : Type 0 where
  pub pem_decode : Text → Option Text
  pub pem_certificate : Text → Text
  pub pem_key : Text → Text
  pub parse_certificate_der : Text → Result Certificate
  pub parse_pkcs1 : Text → Result ℕ
  pub marshal_pkcs1 : ℕ → Text
  pub public : ℕ → ℕ
  pub create : Certificate → Certificate → ℕ → ℕ → Result Text
  pub verify : Certificate → Certificate → Text → ℕ → Bool

-- What one generation reads and draws: the time, a key, and the numbers that `rand.Int` gives in turn.
pub record Draw : Type 0 where
  pub now : ℕ
  pub key : Result ℕ
  pub serials : List (Result ℕ)

pub record CertificateBundle : Type 0 where
  pub ca_cert_pem : Text
  pub ca_key_pem : Text
  pub tls_cert_pem : Text
  pub tls_key_pem : Text

unfoldable pub service_dns_names : Text → Text → List Text
service_dns_names service_name namespace =
    service_name
    ∷ (service_name ++ codes "." ++ namespace)
    ∷ (service_name ++ codes "." ++ namespace ++ codes ".svc")
    ∷ (service_name ++ codes "." ++ namespace ++ codes ".svc.cluster.local")
    ∷ []

-- The loop draws until a number is positive. A source at its end gives an error.
unfoldable pub random_serial_number : List (Result ℕ) → Result ℕ
random_serial_number [] = err (sentinel io_eof)
random_serial_number (err e ∷ draws) = err e
random_serial_number (ok n ∷ draws) =
    let again = random_serial_number draws in if ltb 0 n then ok n else again

-- `if block == nil { return fmt.Errorf(…) }`
unfoldable pub decoded : Option Text → Error → Result Text
decoded none e = err e
decoded (some block) e = ok block

unfoldable pub ca_template : ℕ → ℕ → Certificate
ca_template serial issued_at = record {
  common_name = codes "sysbox-admission-webhook-ca";
  serial = serial;
  not_before = issued_at - minute;
  not_after = issued_at + ca_validity;
  basic_constraints_valid = true;
  is_ca = true;
  key_usage = cert_sign ∷ crl_sign ∷ [];
  server_auth = false;
  dns_names = [];
  public_key = none;
  constraints = [];
  raw = [];
}

unfoldable pub leaf_template : ℕ → ℕ → Text → Text → Certificate
leaf_template serial issued_at service_name namespace = record {
  common_name = service_name;
  serial = serial;
  not_before = issued_at - minute;
  not_after = issued_at + leaf_validity;
  basic_constraints_valid = false;
  is_ca = false;
  key_usage = digital_signature ∷ key_encipherment ∷ [];
  server_auth = true;
  dns_names = service_dns_names service_name namespace;
  public_key = none;
  constraints = [];
  raw = [];
}

module _ (pki : Pki) where
  -- The certificate and the key in PEM form.
  unfoldable pub generate_tls_certificate : Text → Text → Text → Text → Draw → Result (Text × Text)
  unfolding decoded random_serial_number leaf_template
  generate_tls_certificate service_name namespace ca_cert_pem ca_key_pem draw = do
    fail_if (blank service_name) (errorf "service name is required")
    fail_if (blank namespace) (errorf "namespace is required")
    ca_block ← decoded (pki.pem_decode ca_cert_pem) (errorf "decode ca certificate")
    ca_cert ← context "parse ca certificate" (pki.parse_certificate_der ca_block)
    ca_key_block ← decoded (pki.pem_decode ca_key_pem) (errorf "decode ca key")
    ca_key ← context "parse ca key" (pki.parse_pkcs1 ca_key_block)
    leaf_key ← context "generate leaf key" draw.key
    leaf_serial ← context "generate leaf serial number" (random_serial_number draw.serials)
    leaf_der ← context "create leaf certificate" (
        pki.create (leaf_template leaf_serial draw.now service_name namespace) ca_cert
          (pki.public leaf_key) ca_key)
    ok (pki.pem_certificate leaf_der, pki.pem_key (pki.marshal_pkcs1 leaf_key))

  unfoldable pub generate_certificate_bundle : Text → Text → Draw → Draw → Result CertificateBundle
  unfolding random_serial_number ca_template
  generate_certificate_bundle service_name namespace ca_draw leaf_draw = do
    fail_if (blank service_name) (errorf "service name is required")
    fail_if (blank namespace) (errorf "namespace is required")
    ca_key ← context "generate ca key" ca_draw.key
    ca_serial ← context "generate ca serial number" (random_serial_number ca_draw.serials)
    ca_der ← context "create ca certificate" (
        pki.create (ca_template ca_serial ca_draw.now) (ca_template ca_serial ca_draw.now)
          (pki.public ca_key) ca_key)
    tls ←
        generate_tls_certificate service_name namespace (pki.pem_certificate ca_der)
          (pki.pem_key (pki.marshal_pkcs1 ca_key)) leaf_draw
    ok (record {
      ca_cert_pem = pki.pem_certificate ca_der;
      ca_key_pem = pki.pem_key (pki.marshal_pkcs1 ca_key);
      tls_cert_pem = tls.0;
      tls_key_pem = tls.1;
    })
