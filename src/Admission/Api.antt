-- ===== src/Admission/Api.antt =====
-- The Kubernetes API server as the webhook sees it, and client-go's `retry.RetryOnConflict`. Both
-- are parameters: an operation is a function of the state of the cluster, which other replicas may
-- change between two calls.
pub use sysbox.Action.{Action as Api, pure, fail, in_context, ◌>>=◌, ◌>>◌}
use sysbox.Prelude.{none, some, [], Result}
use sysbox.Go.Strings.{Text}
use sysbox.Admission.Pod.{StringMap, lookup}

-- `other` stands for the fields that the code only copies, such as the resource version.
pub record Secret : Type 0 where
  pub name : Text
  pub namespace : Text
  pub kind : Text
  pub data_map : StringMap
  pub other : Text

-- `secret.Data[key]`: a missing key reads as no bytes.
unfoldable pub data_at : Text → StringMap → Text
unfolding lookup
data_at k m = elim (lookup k m) [ none ↦ [] | some v ↦ v ]

-- One attempt over a captured variable `current : C`.
abbrev pub Attempt : Type 0 → Type 0 → Type 0 → Type 0
Attempt S C U = C → S → Result U × C × S

-- The calls on the Secrets of one namespace.
pub record Secrets (S : Type 0) : Type 0 where
  pub get : Text → Api S Secret
  pub create : Secret → Api S Secret
  pub update : Secret → Api S Secret
  pub retry_on_conflict : Attempt S Secret Secret → Attempt S Secret Secret
