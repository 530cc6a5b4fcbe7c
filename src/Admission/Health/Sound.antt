-- ===== src/Admission/Health/Sound.antt =====
-- What the verdict on the certificates says of them.
use sysbox.Prelude.{
  ap, any, List, [], ◌∷◌, ◌++◌, ℕ, ◌+◌, ◌≡◌, refl, ◌⊎◌, inl, inr, true, Option, some, arith, all,
  Result, ok, err, leb, ltb,
}
use sysbox.Go.Strings.{Text}
use sysbox.Admission.Certs.{
  Certificate, KeyUsage, cert_sign, crl_sign, digital_signature, key_encipherment, Pki,
  service_dns_names,
}
use sysbox.Admission.Health.{
  CertificateHealthAction, certificate_healthy, rotate_leaf_certificate, cert_time_healthy,
  is_cert_sign, owns_key, can_sign, parse_certificate, parse_rsa_key, leaf_verifies_against_ca,
  check_leaf, check_ca, evaluate_certificate_health,
}

-- An authority whose constraints are valid and whose key usages hold that of signing certificates.
pub record MaySign (cert : Certificate) : Type 0 where
  pub basic : cert.basic_constraints_valid ≡ true
  pub authority : cert.is_ca ≡ true
  pub usages_before : List KeyUsage
  pub usages_after : List KeyUsage
  pub usages : cert.key_usage ≡ usages_before ++ cert_sign ∷ usages_after

holds_cert_sign :
    (usages : List KeyUsage)
    → any is_cert_sign usages ≡ true
    → (before : List KeyUsage) × (after : List KeyUsage) × (usages ≡ before ++ cert_sign ∷ after)
unfolding any is_cert_sign
holds_cert_sign [] h = absurd (ground arith)
holds_cert_sign (cert_sign ∷ usages) h = ([], usages, refl)
holds_cert_sign (crl_sign ∷ usages) h =
    let (before, after, e) = holds_cert_sign usages h in
    (crl_sign ∷ before, after, ap (λ us. crl_sign ∷ us) e)
holds_cert_sign (digital_signature ∷ usages) h =
    let (before, after, e) = holds_cert_sign usages h in
    (digital_signature ∷ before, after, ap (λ us. digital_signature ∷ us) e)
holds_cert_sign (key_encipherment ∷ usages) h =
    let (before, after, e) = holds_cert_sign usages h in
    (key_encipherment ∷ before, after, ap (λ us. key_encipherment ∷ us) e)

any-cert_sign :
    (before after : List KeyUsage) → any is_cert_sign (before ++ cert_sign ∷ after) ≡ true
unfolding any is_cert_sign
any-cert_sign [] after = refl
any-cert_sign (u ∷ before) after = ground (arith, any-cert_sign before after)

can_sign-MaySign : (cert : Certificate) → can_sign cert ≡ true → MaySign cert
unfolding can_sign
can_sign-MaySign cert h =
    let (before, after, e) = holds_cert_sign cert.key_usage (ground arith) in
    record {
      basic = ground arith;
      authority = ground arith;
      usages_before = before;
      usages_after = after;
      usages = e;
    }

MaySign-can_sign : {cert : Certificate} → MaySign cert → can_sign cert ≡ true
unfolding can_sign
MaySign-can_sign m =
    rw (m.basic, m.authority, m.usages, any-cert_sign m.usages_before m.usages_after) refl

module _ (pki : Pki) (service_name namespace : Text) (renewal_window now : ℕ) where
  -- A certificate and its key: the certificate is valid, stays so for longer than the window of
  -- renewal, and belongs to the key.
  pub record IsCurrent (cert_pem key_pem : Text) (cert : Certificate) : Type 0 where
    pub key : ℕ
    pub parses : parse_certificate pki cert_pem ≡ ok cert
    pub parses_key : parse_rsa_key pki key_pem ≡ ok key
    pub begun : leb cert.not_before now ≡ true
    pub not_over : ltb now cert.not_after ≡ true
    pub far_from_over : ltb (now + renewal_window) cert.not_after ≡ true
    pub same_key : cert.public_key ≡ some (pki.public key)

  pub record IsCurrentCa (cert_pem key_pem : Text) (cert : Certificate) : Type 0 where
    pub current : IsCurrent cert_pem key_pem cert
    pub signs : MaySign cert

  -- The leaf that goes with a sound authority and verifies for every name of the service.
  pub record IsHealthy (ca_cert_pem ca_key_pem tls_cert_pem tls_key_pem : Text) : Type 0 where
    pub ca : Certificate
    pub leaf : Certificate
    pub ca_current : IsCurrentCa ca_cert_pem ca_key_pem ca
    pub leaf_current : IsCurrent tls_cert_pem tls_key_pem leaf
    pub verifies :
        all (λ name. pki.verify leaf ca name now) (service_dns_names service_name namespace) ≡ true

  current :
      (cert_pem key_pem : Text) (cert : Certificate) (key : ℕ)
      → parse_certificate pki cert_pem ≡ ok cert
      → parse_rsa_key pki key_pem ≡ ok key
      → cert_time_healthy cert now renewal_window ≡ true
      → owns_key cert.public_key (pki.public key) ≡ true
      → IsCurrent cert_pem key_pem cert
  unfolding cert_time_healthy
  current cert_pem key_pem cert key p q t o = record {
    key = key;
    parses = p;
    parses_key = q;
    begun = ground arith;
    not_over = ground arith;
    far_from_over = ground arith;
    same_key = own cert.public_key (pki.public key) o;
  }
    where
      own : (c : Option ℕ) (k : ℕ) → owns_key c k ≡ true → c ≡ some k
      own c k h = unfold owns_key in ground arith

  check_leaf-healthy :
      (ca : Certificate) (leaf : Result Certificate) (leaf_key : Result ℕ)
      → check_leaf pki service_name namespace renewal_window now ca leaf leaf_key
        ≡ certificate_healthy
      → (l : Certificate) × (k : ℕ) × (leaf ≡ ok l)
        × (leaf_key ≡ ok k)
        × (cert_time_healthy l now renewal_window ≡ true)
        × (owns_key l.public_key (pki.public k) ≡ true)
        × (leaf_verifies_against_ca pki l ca service_name namespace now ≡ true)
  unfolding check_leaf
  check_leaf-healthy ca (err e) key h = absurd (ground arith)
  check_leaf-healthy ca (ok l) (err e) h = absurd (ground arith)
  check_leaf-healthy ca (ok l) (ok k) h =
      (l, k, refl, refl, ground arith, ground arith, ground arith)

  -- If the authority is not renewed, it is sound, and the leaf is checked against it.
  check_ca-keeps :
      (ca : Result Certificate) (ca_key : Result ℕ) (leaf : Result Certificate)
      (leaf_key : Result ℕ) (action : CertificateHealthAction)
      → (action ≡ certificate_healthy) ⊎ (action ≡ rotate_leaf_certificate)
      → check_ca pki service_name namespace renewal_window now ca ca_key leaf leaf_key ≡ action
      → (c : Certificate) × (k : ℕ) × (ca ≡ ok c)
        × (ca_key ≡ ok k)
        × (cert_time_healthy c now renewal_window ≡ true)
        × (can_sign c ≡ true)
        × (owns_key c.public_key (pki.public k) ≡ true)
        × (check_leaf pki service_name namespace renewal_window now c leaf leaf_key ≡ action)
  unfolding check_ca
  check_ca-keeps (err e) ca_key leaf leaf_key action a h = absurd (ground arith)
  check_ca-keeps (ok c) (err e) leaf leaf_key action a h = absurd (ground arith)
  check_ca-keeps (ok c) (ok k) leaf leaf_key action a h =
      (c, k, refl, refl, ground arith, ground arith, ground arith, ground arith)

  module _ (ca_cert_pem ca_key_pem tls_cert_pem tls_key_pem : Text) where
    -- Certificates that are left as they are are sound: both are valid for longer than the window of
    -- renewal and belong to their keys, the authority may sign certificates, and the leaf verifies
    -- against it for each of the four names of the service.
    pub evaluate_certificate_health-IsHealthy :
        evaluate_certificate_health pki service_name namespace renewal_window now ca_cert_pem
            ca_key_pem tls_cert_pem tls_key_pem
          ≡ certificate_healthy
        → IsHealthy ca_cert_pem ca_key_pem tls_cert_pem tls_key_pem
    unfolding evaluate_certificate_health leaf_verifies_against_ca
    evaluate_certificate_health-IsHealthy h =
        let (ca, k, p, q, t, s, o, below) =
          check_ca-keeps _ _ _ _ certificate_healthy (inl refl) h in
        let (leaf, l, p', q', t', o', v) = check_leaf-healthy ca _ _ below in
        record {
          ca = ca;
          leaf = leaf;
          ca_current = record {
            current = current ca_cert_pem ca_key_pem ca k p q t o;
            signs = can_sign-MaySign ca s;
          };
          leaf_current = current tls_cert_pem tls_key_pem leaf l p' q' t' o';
          verifies = v;
        }

    -- Where only the leaf is renewed, the authority is sound: it is valid for longer than the window
    -- of renewal, belongs to its key, which parses, and may sign certificates.
    pub evaluate_certificate_health-keeps_ca :
        evaluate_certificate_health pki service_name namespace renewal_window now ca_cert_pem
            ca_key_pem tls_cert_pem tls_key_pem
          ≡ rotate_leaf_certificate
        → (ca : Certificate) × IsCurrentCa ca_cert_pem ca_key_pem ca
    unfolding evaluate_certificate_health
    evaluate_certificate_health-keeps_ca h =
        let (ca, k, p, q, t, s, o, _) =
          check_ca-keeps _ _ _ _ rotate_leaf_certificate (inr refl) h in
        (
          ca,
          record {
            current = current ca_cert_pem ca_key_pem ca k p q t o;
            signs = can_sign-MaySign ca s;
          },
        )

  IsCurrent-cert_time_healthy :
      {cert_pem key_pem : Text} {cert : Certificate}
      → IsCurrent cert_pem key_pem cert
      → cert_time_healthy cert now renewal_window ≡ true
  unfolding cert_time_healthy
  IsCurrent-cert_time_healthy c = rw (c.begun, c.not_over, c.far_from_over) refl

  IsCurrent-owns_key :
      {cert_pem key_pem : Text} {cert : Certificate}
      → (c : IsCurrent cert_pem key_pem cert) → owns_key cert.public_key (pki.public c.key) ≡ true
  unfolding owns_key
  IsCurrent-owns_key c = rw c.same_key (ground arith)

  -- Sound certificates are left as they are.
  pub certificate_healthy-IsHealthy :
      {ca_cert_pem ca_key_pem tls_cert_pem tls_key_pem : Text}
      → IsHealthy ca_cert_pem ca_key_pem tls_cert_pem tls_key_pem
      → evaluate_certificate_health pki service_name namespace renewal_window now ca_cert_pem
          ca_key_pem tls_cert_pem tls_key_pem
        ≡ certificate_healthy
  unfolding evaluate_certificate_health leaf_verifies_against_ca check_ca check_leaf
  certificate_healthy-IsHealthy h =
      rw
        (
          h.ca_current.current.parses,
          h.ca_current.current.parses_key,
          h.leaf_current.parses,
          h.leaf_current.parses_key,
          check_ca,
          IsCurrent-cert_time_healthy h.ca_current.current,
          MaySign-can_sign h.ca_current.signs,
          IsCurrent-owns_key h.ca_current.current,
          IsCurrent-cert_time_healthy h.leaf_current,
          IsCurrent-owns_key h.leaf_current,
          h.verifies,
        )
        refl
