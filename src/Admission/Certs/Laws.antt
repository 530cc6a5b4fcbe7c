-- ===== src/Admission/Certs/Laws.antt =====
-- What the code relies on of `crypto/x509`, `crypto/rsa` and `encoding/pem`, for the certificates that
-- it asks for.
use sysbox.Prelude.{List, ◌++◌, ◌∷◌, ℕ, ◌+◌, ◌≤◌, ◌<◌, ◌≡◌, true, false, some, [], ok, leb, ltb}
use sysbox.Go.Strings.{Text, blank, contains}
use sysbox.Admission.Certs.{
  Certificate, KeyUsage, cert_sign, Pki, second, ca_template, leaf_template, service_dns_names,
}

-- A certificate made from a template for a public key. Encoded times have whole seconds.
pub record IsIssued (template : Certificate) (public_key : ℕ) (cert : Certificate) : Type 0 where
  pub not_before : cert.not_before ≤ template.not_before
  pub not_after : template.not_after < cert.not_after + second
  pub basic_constraints_valid : cert.basic_constraints_valid ≡ template.basic_constraints_valid
  pub is_ca : cert.is_ca ≡ template.is_ca
  pub key_usage : cert.key_usage ≡ template.key_usage
  pub constraints : cert.constraints ≡ template.constraints
  pub same_key : cert.public_key ≡ some public_key

pub record PkiLaws (pki : Pki) (service_name namespace : Text) : Type 0 where
  pub decode-certificate : (der : Text) → pki.pem_decode (pki.pem_certificate der) ≡ some der
  pub decode-key : (block : Text) → pki.pem_decode (pki.pem_key block) ≡ some block
  pub parse-marshal : (key : ℕ) → pki.parse_pkcs1 (pki.marshal_pkcs1 key) ≡ ok key
  -- A certificate that is made, parses.
  pub issues_ca :
      (serial at key : ℕ) (der : Text)
      → pki.create (ca_template serial at) (ca_template serial at) (pki.public key) key ≡ ok der
      → (cert : Certificate) × (pki.parse_certificate_der der ≡ ok cert)
        × IsIssued (ca_template serial at) (pki.public key) cert
  pub issues_leaf :
      (serial at public_key ca_key : ℕ) (ca : Certificate) (der : Text)
      → pki.create (leaf_template serial at service_name namespace) ca public_key ca_key ≡ ok der
      → (cert : Certificate) × (pki.parse_certificate_der der ≡ ok cert)
        × IsIssued (leaf_template serial at service_name namespace) public_key cert
  -- A leaf verifies for a name that it holds, while it and its authority are valid, if the authority
  -- owns the key that signed it, may sign certificates and does not limit them.
  pub verifies :
      (serial at public_key ca_key now : ℕ) (ca leaf : Certificate) (der name : Text)
      (usages_before usages_after : List KeyUsage)
      → pki.create (leaf_template serial at service_name namespace) ca public_key ca_key ≡ ok der
      → pki.parse_certificate_der der ≡ ok leaf
      → ca.public_key ≡ some (pki.public ca_key)
      → ca.basic_constraints_valid ≡ true
      → ca.is_ca ≡ true
      → ca.key_usage ≡ usages_before ++ cert_sign ∷ usages_after
      → ca.constraints ≡ []
      → (leb ca.not_before now ≡ true) × (ltb now ca.not_after ≡ true)
      → (leb leaf.not_before now ≡ true) × (ltb now leaf.not_after ≡ true)
      → contains (service_dns_names service_name namespace) name ≡ true
      → blank name ≡ false
      → pki.verify leaf ca name now ≡ true
