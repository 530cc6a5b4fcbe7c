-- ===== src/Admission/Webhook.antt =====
-- sysbox-admission/admission/webhook.go: the webhook's registration at the API server.
use sysbox.Prelude.{ℕ, List, [], ◌∷◌, Result, ok, errorf, fail_if, String, ◌>>◌}
use sysbox.Go.Strings.{Text, codes, blank}

pub data FailurePolicy : Type 0 where
  ignore fail : FailurePolicy

pub data ReinvocationPolicy : Type 0 where
  never if_needed : ReinvocationPolicy

pub data SideEffectClass : Type 0 where
  unknown none_at_all some_effects none_on_dry_run : SideEffectClass

pub record ServiceReference : Type 0 where
  pub namespace : Text
  pub name : Text
  pub path : Text
  pub port : ℕ

pub record Rule : Type 0 where
  pub operations : List Text
  pub api_groups : List Text
  pub api_versions : List Text
  pub resources : List Text

pub record MatchCondition : Type 0 where
  pub name : Text
  pub expression : String

pub record MutatingWebhook : Type 0 where
  pub name : Text
  pub admission_review_versions : List Text
  pub service : ServiceReference
  pub ca_bundle : Text
  pub rules : List Rule
  pub failure_policy : FailurePolicy
  pub reinvocation_policy : ReinvocationPolicy
  pub side_effects : SideEffectClass
  pub timeout_seconds : ℕ
  pub match_conditions : List MatchCondition

-- `other` stands for the metadata that the code only copies.
pub record MutatingWebhookConfiguration : Type 0 where
  pub name : Text
  pub webhooks : List MutatingWebhook
  pub other : Text

pub record WebhookConfig : Type 0 where
  pub name : Text
  pub service_name : Text
  pub namespace : Text
  pub service_port : ℕ
  pub ca_bundle : Text

abbrev pub sysbox_pod_match_condition_expression : String
sysbox_pod_match_condition_expression =
    "(has(object.metadata.annotations) && \"sysbox/rootfs-rw-layer\" in object.metadata.annotations) || (has(object.spec.runtimeClassName) && (object.spec.runtimeClassName == \"sysbox-runc\" || object.spec.runtimeClassName == \"sysbox-runc-lite\"))"

unfoldable pub pod_webhook : WebhookConfig → MutatingWebhook
pod_webhook config = record {
  name = codes "pod.sysbox.nestybox.com";
  admission_review_versions = codes "v1" ∷ [];
  service = record {
    namespace = config.namespace;
    name = config.service_name;
    path = codes "/mutate";
    port = config.service_port;
  };
  ca_bundle = config.ca_bundle;
  rules =
      record {
        operations = codes "CREATE" ∷ [];
        api_groups = [] ∷ [];
        api_versions = codes "v1" ∷ [];
        resources = codes "pods" ∷ [];
      }
      ∷ [];
  failure_policy = fail;
  reinvocation_policy = if_needed;
  side_effects = none_at_all;
  timeout_seconds = 10;
  match_conditions =
      record {
        name = codes "uses-sysbox-runtime-or-rootfs";
        expression = sysbox_pod_match_condition_expression;
      }
      ∷ [];
}

unfoldable pub build_mutating_webhook_configuration :
    WebhookConfig → Result MutatingWebhookConfiguration
unfolding pod_webhook
build_mutating_webhook_configuration config = do
  fail_if (blank config.name) (errorf "webhook name is required")
  fail_if (blank config.service_name) (errorf "service name is required")
  fail_if (blank config.namespace) (errorf "namespace is required")
  ok (record { name = config.name; webhooks = pod_webhook config ∷ []; other = [] })
