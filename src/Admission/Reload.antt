-- ===== src/Admission/Reload.antt =====
-- sysbox-admission/admission/tls_reload.go and rotation.go: the certificate that is served, and the
-- loops that replace it. A loop is a function of what the API server and the manager answer at its
-- successive rounds, up to the cancellation of its context or the end of the observation.
pub mod Serving
use sysbox.Prelude.{
  ℕ, ◌+◌, Bool, true, false, ◌||◌, Option, none, some, List, [], ◌∷◌, ◌++◌, if◌then◌else◌, ◌==◌,
  Result, ok, err, errorf, sentinel, wrap, Error, is_error, context_canceled, deadline_exceeded,
  tls_certificate_not_loaded, context, ◌>>=◌,
}
use sysbox.Go.Strings.{Text}
use sysbox.Admission.Api.{Secret, data_at}
use sysbox.Admission.Resources.{tls_cert_key, tls_private_key_key}

-- A certificate `K` is a value: the clones of the code share nothing that is written later. The
-- errors that the handler was given are kept in order.
pub record Reloader (K : Type 0) : Type 0 where
  pub certificate : Option K
  pub reported : List Error

module _ {K : Type 0} where
  unfoldable pub new_empty_certificate_reloader : Reloader K
  new_empty_certificate_reloader = record { certificate = none; reported = [] }

  unfoldable pub set_certificate : K → Reloader K → Reloader K
  set_certificate k r = record r { certificate = some k }

  unfoldable pub get_certificate : Reloader K → Result K
  get_certificate r = elim r.certificate [
    | none ↦ err (sentinel tls_certificate_not_loaded)
    | some k ↦ ok k
  ]

  unfoldable pub report : Error → Reloader K → Reloader K
  report e r = record r { reported = r.reported ++ e ∷ [] }

  module _ (key_pair : Text → Text → Result K) where
    unfoldable pub load_tls_certificate_from_secret : Result Secret → Result K
    load_tls_certificate_from_secret answer = do
      secret ← context "get tls secret" answer
      context "load tls secret key pair" (
          key_pair (data_at tls_cert_key secret.data_map)
            (data_at tls_private_key_key secret.data_map))

    keep_or_set : Result K → Reloader K → Result (Unit {0}) × Reloader K
    keep_or_set (ok k) r = (ok tt, set_certificate k r)
    keep_or_set (err e) r = (err e, r)

    unfoldable pub refresh_tls_certificate_from_secret :
        Result Secret → Reloader K → Result (Unit {0}) × Reloader K
    unfolding keep_or_set set_certificate
    refresh_tls_certificate_from_secret answer r =
        keep_or_set (load_tls_certificate_from_secret answer) r

    -- One round of either loop: an error of the refresh goes to the handler.
    after_refresh : Result (Unit {0}) × Reloader K → Reloader K
    after_refresh (ok u, r) = r
    after_refresh (err e, r) = report e r

    refresh_round : Result Secret → Reloader K → Reloader K
    unfolding after_refresh refresh_tls_certificate_from_secret report
    refresh_round answer r = after_refresh (refresh_tls_certificate_from_secret answer r)

    -- The loop that waits for the first certificate. Each round has the answer of the API server,
    -- and the error of the context if it is done by then. `none` is a loop that still waits.
    unfoldable pub wait_rounds :
        List (Result Secret × Option Error) → Reloader K → Option (Result (Unit {0})) × Reloader K
    unfolding refresh_round
    wait_rounds [] r = (none, r)
    wait_rounds ((answer, done) ∷ rounds) r =
        let more = wait_rounds rounds (refresh_round answer r) in
        elim (refresh_tls_certificate_from_secret answer r).0 [
          | ok u ↦ (some (ok tt), (refresh_tls_certificate_from_secret answer r).1)
          | err e ↦ elim done [ none ↦ more | some e' ↦ (some (err e'), refresh_round answer r) ]
        ]

    unfoldable pub wait_for_tls_certificate_from_secret :
        ℕ
        → List (Result Secret × Option Error)
        → Reloader K
        → Option (Result (Unit {0})) × Reloader K
    unfolding wait_rounds
    wait_for_tls_certificate_from_secret interval rounds r =
        if interval == 0
        then (some (err (errorf "tls certificate refresh interval must be positive")), r)
        else wait_rounds rounds r

    refresh_rounds : List (Result Secret) → Reloader K → Reloader K
    unfolding refresh_round
    refresh_rounds [] r = r
    refresh_rounds (answer ∷ answers) r = refresh_rounds answers (refresh_round answer r)

    -- The loop of the replicas: one answer for each tick before the context is done.
    unfoldable pub run_tls_certificate_refresh_loop :
        ℕ → List (Result Secret) → Reloader K → Result (Unit {0}) × Reloader K
    unfolding refresh_rounds
    run_tls_certificate_refresh_loop interval answers r =
        if interval == 0
        then (err (errorf "tls certificate refresh interval must be positive"), r)
        else (ok tt, refresh_rounds answers r)

  -- The leader's loop: an end of the context is no error to report.
  unfoldable pub ensure_and_reload : Result K → Reloader K → Reloader K
  unfolding set_certificate report
  ensure_and_reload (ok k) r = set_certificate k r
  ensure_and_reload (err e) r =
      if is_error e context_canceled || is_error e deadline_exceeded
      then r
      else report (wrap "ensure admission certificate lifecycle" e) r

  rotation_rounds : List (Result K) → Reloader K → Reloader K
  unfolding ensure_and_reload
  rotation_rounds [] r = r
  rotation_rounds (result ∷ results) r = rotation_rounds results (ensure_and_reload result r)

  -- The first result is that of the run before the first tick.
  unfoldable pub run_rotation_loop :
      ℕ → Result K → List (Result K) → Reloader K → Result (Unit {0}) × Reloader K
  unfolding rotation_rounds
  run_rotation_loop interval first results r =
      if interval == 0
      then (err (errorf "certificate rotation interval must be positive"), r)
      else (ok tt, rotation_rounds results (ensure_and_reload first r))
