-- ===== src/Admission/Health.antt =====
-- sysbox-admission/admission/cert_health.go: what is to be renewed.
pub mod Sound
pub mod Generated
use sysbox.Prelude.{
  ℕ, ◌+◌, Bool, true, false, not, ◌&&◌, ◌||◌, Option, none, some, List, [], ◌∷◌, if◌then◌else◌, ltb,
  leb, ◌==◌, all, any, Result, ok, err, errorf, context, ◌>>=◌, is_ok,
}
use sysbox.Go.Strings.{Text}
use sysbox.Admission.Certs.{
  Certificate, Pki, KeyUsage, cert_sign, crl_sign, digital_signature, key_encipherment, decoded,
  service_dns_names,
}

pub data CertificateHealthAction : Type 0 where
  certificate_healthy : CertificateHealthAction
  rotate_leaf_certificate : CertificateHealthAction
  rotate_certificate_bundle : CertificateHealthAction

unfoldable pub cert_time_healthy : Certificate → ℕ → ℕ → Bool
cert_time_healthy cert now renewal_window =
    leb cert.not_before now && (ltb now cert.not_after && ltb (now + renewal_window) cert.not_after)

is_cert_sign : KeyUsage → Bool
is_cert_sign cert_sign = true
is_cert_sign crl_sign = false
is_cert_sign digital_signature = false
is_cert_sign key_encipherment = false

-- Whether the certificate's key is RSA and belongs to the private key.
unfoldable pub owns_key : Option ℕ → ℕ → Bool
owns_key none key = false
owns_key (some public_key) key = public_key == key

unfoldable pub can_sign : Certificate → Bool
unfolding any is_cert_sign
can_sign cert = cert.basic_constraints_valid && (cert.is_ca && any is_cert_sign cert.key_usage)

module _ (pki : Pki) where
  unfoldable pub parse_certificate : Text → Result Certificate
  unfolding decoded
  parse_certificate pem = do
    block ← decoded (pki.pem_decode pem) (errorf "decode certificate")
    context "parse certificate" (pki.parse_certificate_der block)

  unfoldable pub parse_rsa_key : Text → Result ℕ
  unfolding decoded
  parse_rsa_key pem = do
    block ← decoded (pki.pem_decode pem) (errorf "decode rsa private key")
    context "parse rsa private key" (pki.parse_pkcs1 block)

  unfoldable pub leaf_verifies_against_ca : Certificate → Certificate → Text → Text → ℕ → Bool
  leaf_verifies_against_ca leaf ca service_name namespace now =
      all (λ name. pki.verify leaf ca name now) (service_dns_names service_name namespace)

  module _ (service_name namespace : Text) (renewal_window now : ℕ) where
    -- The checks of the leaf, below a sound authority.
    unfoldable pub check_leaf :
        Certificate → Result Certificate → Result ℕ → CertificateHealthAction
    unfolding owns_key
    check_leaf ca (err e) key = rotate_leaf_certificate
    check_leaf ca (ok leaf) (err e) = rotate_leaf_certificate
    check_leaf ca (ok leaf) (ok key) =
        if not (cert_time_healthy leaf now renewal_window)
        then rotate_leaf_certificate
        else if not (owns_key leaf.public_key (pki.public key))
        then rotate_leaf_certificate
        else if not (leaf_verifies_against_ca leaf ca service_name namespace now)
        then rotate_leaf_certificate
        else certificate_healthy

    unfoldable pub check_ca :
        Result Certificate → Result ℕ → Result Certificate → Result ℕ → CertificateHealthAction
    unfolding check_leaf
    check_ca (err e) ca_key leaf leaf_key = rotate_certificate_bundle
    check_ca (ok ca) (err e) leaf leaf_key = rotate_certificate_bundle
    check_ca (ok ca) (ok key) leaf leaf_key =
        if not (cert_time_healthy ca now renewal_window) || not (can_sign ca)
        then rotate_certificate_bundle
        else if not (owns_key ca.public_key (pki.public key))
        then rotate_certificate_bundle
        else check_leaf ca leaf leaf_key

    unfoldable pub evaluate_certificate_health : Text → Text → Text → Text → CertificateHealthAction
    unfolding check_ca
    evaluate_certificate_health ca_cert_pem ca_key_pem tls_cert_pem tls_key_pem =
        check_ca (parse_certificate ca_cert_pem) (parse_rsa_key ca_key_pem)
          (parse_certificate tls_cert_pem) (parse_rsa_key tls_key_pem)
