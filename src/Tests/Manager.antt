-- ===== src/Tests/Manager.antt =====
-- A run of the manager on a cluster that has neither the Secrets nor the webhook.
use sysbox.Prelude.{
  Option, none, some, List, ◌∷◌, Result, ok, err, sentinel, api_not_found, if◌then◌else◌,
}
use sysbox.Go.Strings.{Text, codes, text_eq}
use sysbox.Admission.Api.{Secret, Secrets}
use sysbox.Admission.Webhook.{MutatingWebhook, MutatingWebhookConfiguration}
use sysbox.Admission.Lifecycle.{Cluster}
use sysbox.Tests.Renewal.{get_secret}

abbrev State : Type 0
State = List Secret × Option MutatingWebhookConfiguration

abbrev secrets : Secrets State
secrets = record {
  get = λ name s. ((get_secret name s.0).0, s);
  create = λ c s. (ok c, (c ∷ s.0, s.1));
  update = λ c s. (ok c, (c ∷ s.0, s.1));
  retry_on_conflict = λ attempt current s. attempt current s;
}

abbrev webhooks_at : Option MutatingWebhookConfiguration → Text → Option (List MutatingWebhook)
webhooks_at none name = none
webhooks_at (some c) name = if text_eq c.name name then some c.webhooks else none

abbrev found_at : Text → Option MutatingWebhookConfiguration → Result MutatingWebhookConfiguration
found_at name none = err (sentinel api_not_found)
found_at name (some c) = if text_eq c.name name then ok c else err (sentinel api_not_found)

abbrev cluster : Cluster State
cluster = record {
  secrets = secrets;
  get_lease = λ name s. (err (sentinel api_not_found), s);
  create_lease = λ lease s. (ok lease, s);
  get_webhook = λ name s. (found_at name s.1, s);
  create_webhook = λ c s. (ok c, (s.0, some c));
  update_webhook = λ c s. (ok c, (s.0, some c));
  retry_on_conflict = λ attempt current s. attempt current s;
}

abbrev key_pair : Text → Text → Result (Text × Text)
key_pair cert key = ok (cert, key)
