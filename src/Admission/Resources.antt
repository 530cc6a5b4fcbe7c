-- ===== src/Admission/Resources.antt =====
-- sysbox-admission/admission/certificate_resources.go: the certificates in the Secrets of the
-- cluster, and their renewal.
pub mod Written
pub mod Healthy
use sysbox.Prelude.{
  ℕ, Option, none, some, [], ◌∷◌, if◌then◌else◌, Result, ok, err, wrap, is_error, api_not_found,
  api_already_exists, api_conflict, is_ok,
}
use sysbox.Go.Strings.{Text, codes}
use sysbox.Admission.Certs.{Pki, Draw, generate_tls_certificate, generate_certificate_bundle}
use sysbox.Admission.Health.{
  CertificateHealthAction, certificate_healthy, rotate_leaf_certificate, rotate_certificate_bundle,
  evaluate_certificate_health, parse_rsa_key,
}
use sysbox.Admission.Api.{Api, Attempt, Secret, Secrets, data_at, pure, fail, in_context, ◌>>=◌}

abbrev pub ca_secret_cert_key : Text
ca_secret_cert_key = codes "ca.crt"

abbrev pub ca_secret_key_key : Text
ca_secret_key_key = codes "ca.key"

-- `corev1.TLSCertKey`, `corev1.TLSPrivateKeyKey` and `corev1.SecretTypeTLS`
abbrev pub tls_cert_key : Text
tls_cert_key = codes "tls.crt"

abbrev pub tls_private_key_key : Text
tls_private_key_key = codes "tls.key"

abbrev pub secret_type_tls : Text
secret_type_tls = codes "kubernetes.io/tls"

pub record CertificateResources : Type 0 where
  pub ca_cert_pem : Text
  pub ca_key_pem : Text
  pub tls_cert_pem : Text
  pub tls_key_pem : Text

-- What the manager is configured with.
pub record LifecycleConfig : Type 0 where
  pub namespace : Text
  pub service_name : Text
  pub service_port : ℕ
  pub ca_secret_name : Text
  pub tls_secret_name : Text
  pub lease_name : Text
  pub webhook_name : Text
  pub renewal_window : ℕ

-- What one run reads of the clock for the check of the certificates that are stored, and the draws of
-- its generations: the authority's, the leaf's that its bundle holds, and the leaf's that is stored.
pub record Draws : Type 0 where
  pub checked_at : ℕ
  pub ca : Draw
  pub bundle_leaf : Draw
  pub leaf : Draw

module _ {S : Type 0} (secrets : Secrets S) where
  after_update : Result Secret → Secret → Text → Attempt S Secret Secret
  after_update (ok updated) unused name current s = (ok updated, current, s)
  after_update (err e) unused name current s =
      if is_error e api_conflict then after_get (secrets.get name s) else (err e, current, s)
    where
      after_get : Result Secret × S → Result Secret × Secret × S
      after_get (ok fresh, t) = (err e, fresh, t)
      after_get (err e', t) = (err (wrap "get secret after update conflict" e'), current, t)

  -- One attempt to write: on a conflict the Secret is read again, for the next attempt.
  update_once : Text → (Secret → Secret) → Attempt S Secret Secret
  unfolding after_update
  update_once name change current s =
      let (r, t) = secrets.update (change current) s in after_update r current name current t

  update_secret : Text → (Secret → Secret) → Secret → Api S Secret
  unfolding update_once
  update_secret name change current s =
      let (r, _, t) = secrets.retry_on_conflict (update_once name change) current s in
      in_context "update secret" (λ u. (r, u)) t

  after_create : Text → (Secret → Secret) → Result Secret → Api S Secret
  unfolding update_secret
  after_create name change (ok created) s = (ok created, s)
  after_create name change (err e) s =
      if is_error e api_already_exists
      then (do
        current ← in_context "get secret after create conflict" (secrets.get name)
        update_secret name change current)
          s
      else (err (wrap "create secret" e), s)

  after_get : Secret → (Secret → Secret) → Result Secret → Api S Secret
  unfolding after_create
  after_get secret change (ok current) s = update_secret secret.name change current s
  after_get secret change (err e) s =
      if is_error e api_not_found
      then (let (r, t) = secrets.create secret s in after_create secret.name change r t)
      else (err (wrap "get secret" e), s)

  -- Create the Secret, or change the one that is there.
  unfoldable pub apply_secret : Secret → (Secret → Secret) → Api S Secret
  unfolding after_get
  apply_secret secret change s =
      let (r, t) = secrets.get secret.name s in after_get secret change r t

  module _ (config : LifecycleConfig) where
    unfoldable pub apply_ca_secret : Text → Text → Api S Secret
    apply_ca_secret ca_cert_pem ca_key_pem =
        let contents = (ca_secret_cert_key, ca_cert_pem) ∷ (ca_secret_key_key, ca_key_pem) ∷ [] in
        apply_secret
          (record {
            name = config.ca_secret_name;
            namespace = config.namespace;
            kind = [];
            data_map = contents;
            other = [];
          })
          (λ current. record current { data_map = contents })

    unfoldable pub apply_tls_secret : Text → Text → Api S Secret
    apply_tls_secret tls_cert_pem tls_key_pem =
        let contents = (tls_cert_key, tls_cert_pem) ∷ (tls_private_key_key, tls_key_pem) ∷ [] in
        apply_secret
          (record {
            name = config.tls_secret_name;
            namespace = config.namespace;
            kind = secret_type_tls;
            data_map = contents;
            other = [];
          })
          (λ current. record current { kind = secret_type_tls; data_map = contents })

    read_tls : Secret → Result Secret → Api S (Option CertificateResources)
    read_tls ca (err e) s =
        if is_error e api_not_found
        then pure
            (some (record {
              ca_cert_pem = data_at ca_secret_cert_key ca.data_map;
              ca_key_pem = data_at ca_secret_key_key ca.data_map;
              tls_cert_pem = [];
              tls_key_pem = [];
            }))
            s
        else fail (wrap "get tls secret" e) s
    read_tls ca (ok tls) s =
        pure
          (some (record {
            ca_cert_pem = data_at ca_secret_cert_key ca.data_map;
            ca_key_pem = data_at ca_secret_key_key ca.data_map;
            tls_cert_pem = data_at tls_cert_key tls.data_map;
            tls_key_pem = data_at tls_private_key_key tls.data_map;
          }))
          s

    read_ca : Result Secret → Api S (Option CertificateResources)
    unfolding read_tls
    read_ca (err e) s =
        if is_error e api_not_found then pure none s else fail (wrap "get ca secret" e) s
    read_ca (ok ca) s = let (r, t) = secrets.get config.tls_secret_name s in read_tls ca r t

    -- `none` where there is no authority yet; the nil slices of a missing TLS Secret are no bytes.
    unfoldable pub read_certificate_resources : Api S (Option CertificateResources)
    unfolding read_ca
    read_certificate_resources s = let (r, t) = secrets.get config.ca_secret_name s in read_ca r t

    module _ (pki : Pki) (draws : Draws) where
      unfoldable pub rotate_bundle : Api S CertificateResources
      rotate_bundle = do
        bundle ← in_context "generate webhook certificate bundle" (λ s. (
          generate_certificate_bundle pki config.service_name config.namespace draws.ca
              draws.bundle_leaf,
          s,
        ))
        ca ← apply_ca_secret bundle.ca_cert_pem bundle.ca_key_pem
        leaf ← in_context "generate tls secret" (λ s. (
          generate_tls_certificate pki config.service_name config.namespace
              (data_at ca_secret_cert_key ca.data_map) (data_at ca_secret_key_key ca.data_map)
              draws.leaf,
          s,
        ))
        tls ← apply_tls_secret leaf.0 leaf.1
        pure (record {
          ca_cert_pem = data_at ca_secret_cert_key ca.data_map;
          ca_key_pem = data_at ca_secret_key_key ca.data_map;
          tls_cert_pem = data_at tls_cert_key tls.data_map;
          tls_key_pem = data_at tls_private_key_key tls.data_map;
        })

      unfoldable pub rotate_leaf : Text → Text → Api S CertificateResources
      rotate_leaf ca_cert_pem ca_key_pem = do
        leaf ← in_context "generate tls secret" (λ s. (
          generate_tls_certificate pki config.service_name config.namespace ca_cert_pem ca_key_pem
              draws.leaf,
          s,
        ))
        tls ← apply_tls_secret leaf.0 leaf.1
        pure (record {
          ca_cert_pem = ca_cert_pem;
          ca_key_pem = ca_key_pem;
          tls_cert_pem = data_at tls_cert_key tls.data_map;
          tls_key_pem = data_at tls_private_key_key tls.data_map;
        })

      abbrev pub health : CertificateResources → CertificateHealthAction
      health r =
          evaluate_certificate_health pki config.service_name config.namespace config.renewal_window
            draws.checked_at r.ca_cert_pem r.ca_key_pem r.tls_cert_pem r.tls_key_pem

      unfoldable pub act_on :
          CertificateHealthAction → CertificateResources → Api S CertificateResources
      act_on certificate_healthy current = pure current
      act_on rotate_leaf_certificate current =
          if is_ok (parse_rsa_key pki current.ca_key_pem)
          then rotate_leaf current.ca_cert_pem current.ca_key_pem
          else rotate_bundle
      act_on rotate_certificate_bundle current = rotate_bundle

      renew : Option CertificateResources → Api S CertificateResources
      renew none = rotate_bundle
      renew (some current) = act_on (health current) current

      unfoldable pub ensure_certificate_resources : Api S CertificateResources
      unfolding act_on renew
      ensure_certificate_resources = do current ← read_certificate_resources; renew current
