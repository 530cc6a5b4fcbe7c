-- ===== src/Admission/Resources/Healthy.antt =====
-- What a run of the manager leaves in the Secrets.
use sysbox.Prelude.{
  subst, ◌+◌, ◌≤◌, ◌≡◌, refl, ap, ◌∙◌, Bool-cases, inl, inr, Option, none, some, [], ◌∷◌, arith,
  Result, ok, err, is_ok, String, context,
}
use sysbox.Go.Strings.{Text, text_eq}
use sysbox.Action.{>>=-eq-ok}
use sysbox.Admission.Pod.{lookup}
use sysbox.Admission.Certs.{
  Certificate, Pki, second, leaf_validity, generate_tls_certificate, generate_certificate_bundle,
}
use sysbox.Admission.Certs.Laws.{PkiLaws}
use sysbox.Admission.Health.{
  CertificateHealthAction, certificate_healthy, rotate_leaf_certificate, rotate_certificate_bundle,
  parse_certificate, parse_rsa_key,
}
use sysbox.Admission.Health.Sound.{IsCurrentCa, evaluate_certificate_health-keeps_ca}
use sysbox.Admission.Health.Generated.{
  IsPrompt, generate_tls_certificate-healthy, generate_certificate_bundle-IsFresh,
}
use sysbox.Admission.Api.{Secret, Secrets, data_at, in_context}
use sysbox.Admission.Resources.{
  CertificateResources, LifecycleConfig, Draws, ca_secret_cert_key, ca_secret_key_key, tls_cert_key,
  tls_private_key_key, apply_ca_secret, apply_tls_secret, read_certificate_resources, rotate_bundle,
  rotate_leaf, health, act_on, renew, ensure_certificate_resources,
}
use sysbox.Admission.Resources.Written.{SecretsLaws, data_map-apply_secret}

-- The readings of the clock for the generations are not before the one for the check, and a minute later
-- at most.
pub record ArePrompt (draws : Draws) : Type 0 where
  pub ca : IsPrompt draws.checked_at draws.ca.now
  pub bundle_leaf : IsPrompt draws.checked_at draws.bundle_leaf.now
  pub leaf : IsPrompt draws.checked_at draws.leaf.now

module _ {S : Type 0} (secrets : Secrets S) (stores : SecretsLaws secrets)
    (config : LifecycleConfig) (pki : Pki) (laws : PkiLaws pki config.service_name config.namespace)
    (draws : Draws) (wide : config.renewal_window + second ≤ leaf_validity)
    (prompt : ArePrompt draws) where
  abbrev IsHealthy : CertificateResources → Type 0
  IsHealthy r = health secrets config pki draws r ≡ certificate_healthy

  -- The authority, sound and with no limit on what it signs.
  abbrev IsUsable : Text → Text → Type 0
  IsUsable ca_cert_pem ca_key_pem =
      (ca : Certificate) × IsCurrentCa pki config.service_name config.namespace
        config.renewal_window draws.checked_at ca_cert_pem ca_key_pem ca
      × (ca.constraints ≡ [])

  unwrap {ℓ} : {A : Type ℓ} (m : String) (r : Result A) {a : A} → context m r ≡ ok a → r ≡ ok a
  unwrap m (err e) h = absurd (ground arith)
  unwrap m (ok a) h = h

  IsHealthy-same :
      {a b c d a' b' c' d' : Text}
      → a' ≡ a
      → b' ≡ b
      → c' ≡ c
      → d' ≡ d
      → IsHealthy (record { ca_cert_pem = a; ca_key_pem = b; tls_cert_pem = c; tls_key_pem = d })
      → IsHealthy
          (record { ca_cert_pem = a'; ca_key_pem = b'; tls_cert_pem = c'; tls_key_pem = d' })
  IsHealthy-same p q r s h = rw (p, q, r, s) h

  IsUsable-same : {a b a' b' : Text} → a' ≡ a → b' ≡ b → IsUsable a b → IsUsable a' b'
  IsUsable-same p q h = rw (p, q) h

  data_at-tls :
      (cert key : Text) (s : S) {stored : Secret}
      → (apply_tls_secret secrets config cert key s).0 ≡ ok stored
      → (data_at tls_cert_key stored.data_map ≡ cert)
        × (data_at tls_private_key_key stored.data_map ≡ key)
  unfolding apply_tls_secret data_at lookup text_eq
  data_at-tls cert key s {stored} h =
      let held =
        data_map-apply_secret secrets stores
          ((tls_cert_key, cert) ∷ (tls_private_key_key, key) ∷ []) _ (λ secret. refl) _ s
          {stored = stored} refl h in
      (ap (data_at tls_cert_key) held, ap (data_at tls_private_key_key) held)

  data_at-ca :
      (cert key : Text) (s : S) {stored : Secret}
      → (apply_ca_secret secrets config cert key s).0 ≡ ok stored
      → (data_at ca_secret_cert_key stored.data_map ≡ cert)
        × (data_at ca_secret_key_key stored.data_map ≡ key)
  unfolding apply_ca_secret data_at lookup text_eq
  data_at-ca cert key s {stored} h =
      let held =
        data_map-apply_secret secrets stores
          ((ca_secret_cert_key, cert) ∷ (ca_secret_key_key, key) ∷ []) _ (λ secret. refl) _ s
          {stored = stored} refl h in
      (ap (data_at ca_secret_cert_key) held, ap (data_at ca_secret_key_key) held)

  IsHealthy-rotate_leaf :
      (ca_cert_pem ca_key_pem : Text) (s : S) {r : CertificateResources}
      → IsUsable ca_cert_pem ca_key_pem
      → (rotate_leaf secrets config pki draws ca_cert_pem ca_key_pem s).0 ≡ ok r
      → IsHealthy r
  unfolding rotate_leaf
  IsHealthy-rotate_leaf ca_cert_pem ca_key_pem s {r} (ca, sound, free) h =
      let (leaf, t, q, h1) =
        >>=-eq-ok {S = S}
          (in_context "generate tls secret" (λ u. (
            generate_tls_certificate pki config.service_name config.namespace ca_cert_pem ca_key_pem
                draws.leaf,
            u,
          )))
          _ s h in
      let (tls, u, written, last) =
        >>=-eq-ok (apply_tls_secret secrets config leaf.0 leaf.1) _ t h1 in
      let (cert, key) = data_at-tls leaf.0 leaf.1 t {stored = tls} written in
      let made =
        unwrap "generate tls secret"
          (generate_tls_certificate pki config.service_name config.namespace ca_cert_pem ca_key_pem
            draws.leaf)
          q in
      subst IsHealthy (ok-inj last) (
        IsHealthy-same refl refl cert key (
          generate_tls_certificate-healthy pki config.service_name config.namespace draws.checked_at
            laws config.renewal_window ca_cert_pem ca_key_pem draws.leaf ca wide sound free
            prompt.leaf made))
    where
      ok-inj : {a b : CertificateResources} → ok a ≡ ok b → a ≡ b
      ok-inj e = ground arith

  IsHealthy-rotate_bundle :
      (s : S) {r : CertificateResources}
      → (rotate_bundle secrets config pki draws s).0 ≡ ok r
      → IsHealthy r
  unfolding rotate_bundle
  IsHealthy-rotate_bundle s {r} h =
      let (bundle, t, q, h1) =
        >>=-eq-ok {S = S}
          (in_context "generate webhook certificate bundle" (λ u. (
            generate_certificate_bundle pki config.service_name config.namespace draws.ca
                draws.bundle_leaf,
            u,
          )))
          _ s h in
      let (ca, t1, ca_written, h2) =
        >>=-eq-ok (apply_ca_secret secrets config bundle.ca_cert_pem bundle.ca_key_pem) _ t h1 in
      let (ca_cert, ca_key) =
        data_at-ca bundle.ca_cert_pem bundle.ca_key_pem t {stored = ca} ca_written in
      let (leaf, t2, q2, h3) =
        >>=-eq-ok {S = S}
          (in_context "generate tls secret" (λ u. (
            generate_tls_certificate pki config.service_name config.namespace
                (data_at ca_secret_cert_key ca.data_map) (data_at ca_secret_key_key ca.data_map)
                draws.leaf,
            u,
          )))
          _ t1 h2 in
      let (tls, t3, written, last) =
        >>=-eq-ok (apply_tls_secret secrets config leaf.0 leaf.1) _ t2 h3 in
      let (cert, key) = data_at-tls leaf.0 leaf.1 t2 {stored = tls} written in
      let fresh =
        generate_certificate_bundle-IsFresh pki config.service_name config.namespace
          draws.checked_at laws config.renewal_window draws.ca draws.bundle_leaf wide prompt.ca
          prompt.bundle_leaf
          (unwrap "generate webhook certificate bundle"
            (generate_certificate_bundle pki config.service_name config.namespace draws.ca
              draws.bundle_leaf)
            q) in
      let (authority, sound, free) = IsUsable-same ca_cert ca_key fresh.0 in
      subst IsHealthy (ok-inj last) (
        IsHealthy-same refl refl cert key (
          generate_tls_certificate-healthy pki config.service_name config.namespace draws.checked_at
            laws config.renewal_window _ _ draws.leaf authority wide sound free prompt.leaf
            (unwrap "generate tls secret" _ q2)))
    where
      ok-inj : {a b : CertificateResources} → ok a ≡ ok b → a ≡ b
      ok-inj e = ground arith

  module _ (current : CertificateResources)
      (free : (ca : Certificate)
        → parse_certificate pki current.ca_cert_pem ≡ ok ca
        → ca.constraints ≡ []) where
    IsHealthy-act_on :
        (action : CertificateHealthAction) (s : S) {r : CertificateResources}
        → health secrets config pki draws current ≡ action
        → (act_on secrets config pki draws action current s).0 ≡ ok r
        → IsHealthy r
    unfolding act_on
    IsHealthy-act_on certificate_healthy s {r} e h = subst IsHealthy (ok-inj h) e
      where
        ok-inj : {a b : CertificateResources} → ok a ≡ ok b → a ≡ b
        ok-inj q = ground arith
    IsHealthy-act_on rotate_leaf_certificate s e h =
        elim (Bool-cases (is_ok (parse_rsa_key pki current.ca_key_pem))) [
          | inl y ↦
              let (ca, sound) =
                evaluate_certificate_health-keeps_ca pki config.service_name config.namespace
                  config.renewal_window draws.checked_at current.ca_cert_pem current.ca_key_pem
                  current.tls_cert_pem current.tls_key_pem e in
              IsHealthy-rotate_leaf current.ca_cert_pem current.ca_key_pem s
                (ca, sound, free ca sound.current.parses) (rw y at h)
          | inr n ↦ IsHealthy-rotate_bundle s (rw n at h)
        ]
    IsHealthy-act_on rotate_certificate_bundle s e h = IsHealthy-rotate_bundle s h

  IsHealthy-renew :
      (current : Option CertificateResources) (s : S) {r : CertificateResources}
      → ((c : CertificateResources) (ca : Certificate)
          → current ≡ some c
          → parse_certificate pki c.ca_cert_pem ≡ ok ca
          → ca.constraints ≡ [])
      → (renew secrets config pki draws current s).0 ≡ ok r
      → IsHealthy r
  unfolding renew
  IsHealthy-renew none s free h = IsHealthy-rotate_bundle s h
  IsHealthy-renew (some c) s free h = IsHealthy-act_on c (λ ca. free c ca refl) _ s refl h

  -- The certificates that a run of the manager ends with are healthy at the time that it read for its
  -- check, whichever of them it renewed and whatever the other replicas did meanwhile: if the run
  -- succeeds, the times that it reads for new certificates are not before that one and a minute later at
  -- most, the window of renewal is shorter than the life of a leaf by a second at least, the libraries
  -- behave as documented, and the authority that is stored, if there is one, has no constraints.
  pub ensure_certificate_resources-IsHealthy :
      (s : S) {r : CertificateResources}
      → ((c : CertificateResources) (ca : Certificate)
          → (read_certificate_resources secrets config s).0 ≡ ok (some c)
          → parse_certificate pki c.ca_cert_pem ≡ ok ca
          → ca.constraints ≡ [])
      → (ensure_certificate_resources secrets config pki draws s).0 ≡ ok r
      → health secrets config pki draws r ≡ certificate_healthy
  unfolding ensure_certificate_resources
  ensure_certificate_resources-IsHealthy s free h =
      let (current, t, q, rest) = >>=-eq-ok (read_certificate_resources secrets config) _ s h in
      IsHealthy-renew current t (λ c ca e. free c ca (q ∙ ap ok e)) rest
