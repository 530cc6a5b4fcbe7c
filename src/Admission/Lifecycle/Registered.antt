-- ===== src/Admission/Lifecycle/Registered.antt =====
-- What a run of the manager leaves in the cluster and serves.
use sysbox.Prelude.{◌≡◌, Option, some, List, [], ◌∷◌, ok}
use sysbox.Go.Strings.{Text, codes}
use sysbox.Admission.Api.{Attempt}
use sysbox.Admission.Resources.{LifecycleConfig}
use sysbox.Admission.Webhook.{fail, WebhookConfig, MutatingWebhookConfiguration, MutatingWebhook}
use sysbox.Admission.Lifecycle.{Cluster, update_webhook}

-- The webhooks that are registered in a state of the cluster under the name of a configuration, and
-- how the calls read and change them.
pub record ClusterLaws {S : Type 0} (cluster : Cluster S)
    (registered : S → Text → Option (List MutatingWebhook)) : Type 1 where
  pub got :
      (name : Text) (s : S) {c : MutatingWebhookConfiguration}
      → (cluster.get_webhook name s).0 ≡ ok c
      → c.name ≡ name
  pub created :
      (c : MutatingWebhookConfiguration) (s : S) {stored : MutatingWebhookConfiguration}
      → (cluster.create_webhook c s).0 ≡ ok stored
      → registered (cluster.create_webhook c s).1 c.name ≡ some c.webhooks
  pub updated :
      (c : MutatingWebhookConfiguration) (s : S) {stored : MutatingWebhookConfiguration}
      → (cluster.update_webhook c s).0 ≡ ok stored
      → registered (cluster.update_webhook c s).1 c.name ≡ some c.webhooks
  -- A retry that ends well ends with an attempt that does, on a configuration with the properties that
  -- the first one has and the attempts keep.
  pub retried :
      (attempt : Attempt S MutatingWebhookConfiguration (Unit {0}))
      (p : MutatingWebhookConfiguration → Type 0) (c : MutatingWebhookConfiguration) (s : S)
      → ((d : MutatingWebhookConfiguration) (t : S) → p d → p (attempt d t).1)
      → p c
      → (cluster.retry_on_conflict attempt c s).0 ≡ ok tt
      → (last : MutatingWebhookConfiguration) × (t : S) × p last
        × ((attempt last t).0 ≡ ok tt)
        × ((cluster.retry_on_conflict attempt c s).2 ≡ (attempt last t).2)

module _ {S : Type 0} (cluster : Cluster S) (config : LifecycleConfig)
    (registered : S → Text → Option (List MutatingWebhook)) (laws : ClusterLaws cluster registered)
    (wanted : MutatingWebhookConfiguration) (named : wanted.name ≡ config.webhook_name) where
  -- What the state holds once the configuration is written.
  abbrev IsWritten : S → Type 0
  IsWritten s = registered s config.webhook_name ≡ some wanted.webhooks

abbrev webhook_config : LifecycleConfig → Text → WebhookConfig
webhook_config config ca_bundle = record {
  name = config.webhook_name;
  service_name = config.service_name;
  namespace = config.namespace;
  service_port = config.service_port;
  ca_bundle = ca_bundle;
}

module _ {S : Type 0} (cluster : Cluster S) (config : LifecycleConfig)
    (registered : S → Text → Option (List MutatingWebhook))
    (laws : ClusterLaws cluster registered) where
  -- One webhook is registered under the configured name: it sends the Pods that are created to
  -- "/mutate" of the configured service and port, trusts the given authority for that, and refuses a
  -- Pod where the service fails.
  pub record IsRegistered (ca_bundle : Text) (s : S) : Type 0 where
    pub webhook : MutatingWebhook
    pub only : registered s config.webhook_name ≡ some (webhook ∷ [])
    pub authority : webhook.ca_bundle ≡ ca_bundle
    pub service : webhook.service.name ≡ config.service_name
    pub namespace : webhook.service.namespace ≡ config.namespace
    pub port : webhook.service.port ≡ config.service_port
    pub path : webhook.service.path ≡ codes "/mutate"
    pub fails_closed : webhook.failure_policy ≡ fail
    pub rules :
        webhook.rules
        ≡ record {
          operations = codes "CREATE" ∷ [];
          api_groups = [] ∷ [];
          api_versions = codes "v1" ∷ [];
          resources = codes "pods" ∷ [];
        }
          ∷ []
