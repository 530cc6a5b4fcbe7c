-- ===== src/Admission/Lifecycle.antt =====
-- sysbox-admission/admission/lifecycle.go: one run of the manager, which brings the lease, the
-- certificates and the webhook's registration in order.
pub mod Registered
use sysbox.Prelude.{
  if◌then◌else◌, Result, ok, err, wrap, is_error, api_not_found, api_already_exists, api_conflict,
}
use sysbox.Go.Strings.{Text}
use sysbox.Admission.Certs.{Pki}
use sysbox.Admission.Api.{Api, Attempt, Secrets, pure, fail, in_context, ◌>>=◌, ◌>>◌}
use sysbox.Admission.Resources.{LifecycleConfig, Draws, ensure_certificate_resources}
use sysbox.Admission.Webhook.{MutatingWebhookConfiguration, build_mutating_webhook_configuration}

-- The calls on the leases and on the webhook configurations. A lease is known by its name and
-- namespace, which is all that the code gives it.
pub record Cluster (S : Type 0) : Type 0 where
  pub secrets : Secrets S
  pub get_lease : Text → Api S (Text × Text)
  pub create_lease : Text × Text → Api S (Text × Text)
  pub get_webhook : Text → Api S MutatingWebhookConfiguration
  pub create_webhook : MutatingWebhookConfiguration → Api S MutatingWebhookConfiguration
  pub update_webhook : MutatingWebhookConfiguration → Api S MutatingWebhookConfiguration
  pub retry_on_conflict :
      Attempt S MutatingWebhookConfiguration (Unit {0})
      → Attempt S MutatingWebhookConfiguration (Unit {0})

module _ {S : Type 0} (cluster : Cluster S) (config : LifecycleConfig) where
  after_create_lease : Result (Text × Text) → Api S (Unit {0})
  after_create_lease (ok l) s = pure tt s
  after_create_lease (err e) s =
      if is_error e api_already_exists then pure tt s else fail (wrap "create lifecycle lease" e) s

  after_get_lease : Result (Text × Text) → Api S (Unit {0})
  unfolding after_create_lease
  after_get_lease (ok l) s = pure tt s
  after_get_lease (err e) s =
      if is_error e api_not_found
      then (let (r, t) = cluster.create_lease (config.lease_name, config.namespace) s in
          after_create_lease r t)
      else fail (wrap "get lifecycle lease" e) s

  unfoldable pub ensure_lease : Api S (Unit {0})
  unfolding after_get_lease
  ensure_lease s = let (r, t) = cluster.get_lease config.lease_name s in after_get_lease r t

  after_update :
      Result MutatingWebhookConfiguration → Attempt S MutatingWebhookConfiguration (Unit {0})
  after_update (ok updated) current s = (ok tt, current, s)
  after_update (err e) current s =
      if is_error e api_conflict
      then after_get (cluster.get_webhook config.webhook_name s)
      else (err e, current, s)
    where
      after_get :
          Result MutatingWebhookConfiguration × S
          → Result (Unit {0}) × MutatingWebhookConfiguration × S
      after_get (ok fresh, t) = (err e, fresh, t)
      after_get (err e', t) =
          (err (wrap "get mutating webhook configuration after update conflict" e'), current, t)

  update_once : MutatingWebhookConfiguration → Attempt S MutatingWebhookConfiguration (Unit {0})
  unfolding after_update
  update_once wanted current s =
      let (r, t) = cluster.update_webhook (record current { webhooks = wanted.webhooks }) s in
      after_update r current t

  update_webhook : MutatingWebhookConfiguration → MutatingWebhookConfiguration → Api S (Unit {0})
  unfolding update_once
  update_webhook wanted current s =
      let (r, _, t) = cluster.retry_on_conflict (update_once wanted) current s in
      in_context "update mutating webhook configuration" (λ u. (r, u)) t

  after_create_webhook :
      MutatingWebhookConfiguration → Result MutatingWebhookConfiguration → Api S (Unit {0})
  unfolding update_webhook
  after_create_webhook wanted (ok created) s = pure tt s
  after_create_webhook wanted (err e) s =
      if is_error e api_already_exists
      then (do
        current ←
            in_context "get mutating webhook configuration after create conflict"
              (cluster.get_webhook config.webhook_name)
        update_webhook wanted current)
          s
      else fail (wrap "create mutating webhook configuration" e) s

  after_get_webhook :
      MutatingWebhookConfiguration → Result MutatingWebhookConfiguration → Api S (Unit {0})
  unfolding after_create_webhook
  after_get_webhook wanted (ok current) s = update_webhook wanted current s
  after_get_webhook wanted (err e) s =
      if is_error e api_not_found
      then (let (r, t) = cluster.create_webhook wanted s in after_create_webhook wanted r t)
      else fail (wrap "get mutating webhook configuration" e) s

  unfoldable pub ensure_webhook : Text → Api S (Unit {0})
  unfolding after_get_webhook
  ensure_webhook ca_bundle = do
    wanted ← in_context "build mutating webhook configuration" (λ s. (
      build_mutating_webhook_configuration (record {
        name = config.webhook_name;
        service_name = config.service_name;
        namespace = config.namespace;
        service_port = config.service_port;
        ca_bundle = ca_bundle;
      }),
      s,
    ))
    (λ s. let (r, t) = cluster.get_webhook config.webhook_name s in after_get_webhook wanted r t)

  -- `key_pair` is `tls.X509KeyPair`, into any type of certificates.
  module _ {K : Type 0} (key_pair : Text → Text → Result K) (pki : Pki) (draws : Draws) where
    unfoldable pub ensure : Api S K
    ensure = do
      ensure_lease
      certificates ← ensure_certificate_resources cluster.secrets config pki draws
      ensure_webhook certificates.ca_cert_pem
      in_context "load tls secret key pair"
          (λ s. (key_pair certificates.tls_cert_pem certificates.tls_key_pem, s))
