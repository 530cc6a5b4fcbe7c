-- ===== src/Admission/Resources/Written.antt =====
-- What a Secret holds after it was written.
use sysbox.Prelude.{
  ◌≡◌, ◌∙◌, arith, Result, ok, err, is_error, Bool-cases, inl, inr, api_already_exists,
  api_not_found,
}
use sysbox.Go.Strings.{Text}
use sysbox.Action.{>>=-eq-ok}
use sysbox.Admission.Pod.{StringMap}
use sysbox.Admission.Api.{Attempt, Secret, Secrets, in_context, ◌>>=◌}
use sysbox.Admission.Resources.{
  after_update, update_once, update_secret, after_create, after_get, apply_secret,
}

-- The API server returns the object that it stored, and a retry ends well only by an attempt that does.
pub record SecretsLaws {S : Type 0} (secrets : Secrets S) : Type 0 where
  pub created :
      (secret : Secret) (s : S) {stored : Secret}
      → (secrets.create secret s).0 ≡ ok stored
      → stored.data_map ≡ secret.data_map
  pub updated :
      (secret : Secret) (s : S) {stored : Secret}
      → (secrets.update secret s).0 ≡ ok stored
      → stored.data_map ≡ secret.data_map
  pub retried :
      (attempt : Attempt S Secret Secret) (current : Secret) (s : S) {stored : Secret}
      → (secrets.retry_on_conflict attempt current s).0 ≡ ok stored
      → (last : Secret) × (t : S) × ((attempt last t).0 ≡ ok stored)

module _ {S : Type 0} (secrets : Secrets S) (laws : SecretsLaws secrets) (contents : StringMap)
    (change : Secret → Secret)
    (puts : (secret : Secret) → (change secret).data_map ≡ contents) where
  data_map-update_once :
      (name : Text) (current : Secret) (s : S) {stored : Secret}
      → (update_once secrets name change current s).0 ≡ ok stored
      → stored.data_map ≡ contents
  unfolding update_once after_update
  data_map-update_once name current s {stored} h =
      laws.updated (change current) s {stored = stored}
        (succeeded (secrets.update (change current) s) h)
      ∙ puts current
    where
      succeeded :
          (answer : Result Secret × S)
          → (after_update secrets answer.0 current name current answer.1).0 ≡ ok stored
          → answer.0 ≡ ok stored
      succeeded (ok u, t) h = h
      succeeded (err e, t) h = absurd (ground arith)

  data_map-update_secret :
      (name : Text) (current : Secret) (s : S) {stored : Secret}
      → (update_secret secrets name change current s).0 ≡ ok stored
      → stored.data_map ≡ contents
  unfolding update_secret
  data_map-update_secret name current s {stored} h =
      let (last, t, q) =
        laws.retried (update_once secrets name change) current s {stored = stored} (ground arith) in
      data_map-update_once name last t q

  data_map-after_create :
      (name : Text) (r : Result Secret) (s : S) {stored : Secret}
      → ((created : Secret) → r ≡ ok created → created.data_map ≡ contents)
      → (after_create secrets name change r s).0 ≡ ok stored
      → stored.data_map ≡ contents
  unfolding after_create
  data_map-after_create name (ok created) s {stored} new h = new stored h
  data_map-after_create name (err e) s {stored} new h =
      elim (Bool-cases (is_error e api_already_exists)) [
        | inl y ↦ refresh (rw y at h)
        | inr n ↦ absurd (ground arith)
      ]
    where
      refresh :
          ((do
            current ← in_context "get secret after create conflict" (secrets.get name)
            update_secret secrets name change current)
              s).0
            ≡ ok stored
          → stored.data_map ≡ contents
      refresh q =
          let (current, t, _, rest) =
            >>=-eq-ok (in_context "get secret after create conflict" (secrets.get name)) _ s q in
          data_map-update_secret name current t rest

  -- A Secret that was written holds what was to be written, whichever way it was.
  pub data_map-apply_secret :
      (secret : Secret) (s : S) {stored : Secret}
      → secret.data_map ≡ contents
      → (apply_secret secrets secret change s).0 ≡ ok stored
      → stored.data_map ≡ contents
  unfolding apply_secret after_get
  data_map-apply_secret secret s {stored} same h = go (secrets.get secret.name s) h
    where
      go :
          (answer : Result Secret × S)
          → (after_get secrets secret change answer.0 answer.1).0 ≡ ok stored
          → stored.data_map ≡ contents
      go (ok current, t) h = data_map-update_secret secret.name current t h
      go (err e, t) h = elim (Bool-cases (is_error e api_not_found)) [
        | inl y ↦
            let (r, u) = secrets.create secret t in
            data_map-after_create secret.name r u
              (λ new q. laws.created secret t {stored = new} q ∙ same) (rw y at h)
        | inr n ↦ absurd (ground arith)
      ]
