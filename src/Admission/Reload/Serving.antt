-- ===== src/Admission/Reload/Serving.antt =====
-- Which certificate is served.
use sysbox.Prelude.{
  ap, ◌∙◌, none, ◌++◌, append-nil, append_assoc, is_error, context_canceled, deadline_exceeded,
  wrap, ◌||◌, if◌then◌else◌,
}
use sysbox.Admission.Reload.{run_rotation_loop, report, set_certificate}
use sysbox.Prelude.{
  ℕ, ◌≡◌, ◌≢◌, refl, Option, some, List, [], ◌∷◌, arith, Result, ok, err, is_ok, Error, true,
}
use sysbox.Go.Strings.{Text, codes, text_eq}
use sysbox.Admission.Pod.{lookup}
use sysbox.Admission.Api.{Secret, data_at}
use sysbox.Admission.Reload.{
  wait_rounds, get_certificate, refresh_tls_certificate_from_secret,
  wait_for_tls_certificate_from_secret, Reloader, load_tls_certificate_from_secret, refresh_rounds,
  refresh_round, run_tls_certificate_refresh_loop, rotation_rounds, ensure_and_reload,
}

-- The value of the first pair with the key, or no bytes.
unfoldable pub value_at : Text → List (Text × Text) → Text
value_at k [] = []
value_at k ((k', v) ∷ m) = if text_eq k' k then v else value_at k m

unfoldable pub either {ℓ} : {K : Type ℓ} → Option K → Option K → Option K
either (some k) other = some k
either none other = other

-- The last result that is no error, or what was there before.
unfoldable pub last_ok {ℓ} : {K : Type ℓ} → Option K → List (Result K) → Option K
last_ok k [] = k
last_ok k (ok k' ∷ results) = last_ok (some k') results
last_ok k (err e ∷ results) = last_ok k results

data_at-value : (k : Text) (m : List (Text × Text)) → data_at k m ≡ value_at k m
unfolding data_at lookup value_at
data_at-value k [] = refl
data_at-value k ((j, v) ∷ m) = ground (arith, data_at-value k m)

module _ {K : Type 0} where
  -- The certificate that an answer carries: that of "tls.crt" with the key of "tls.key".
  unfoldable pub carried : (Text → Text → Result K) → Result Secret → Option K
  carried key_pair (err e) = none
  carried key_pair (ok secret) =
      elim (key_pair (value_at (codes "tls.crt") secret.data_map)
        (value_at (codes "tls.key") secret.data_map)) [ err e ↦ none | ok k ↦ some k ]

  -- The last certificate that the answers carry, or what was there before.
  unfoldable pub last_carried :
      (Text → Text → Result K) → Option K → List (Result Secret) → Option K
  last_carried key_pair k [] = k
  last_carried key_pair k (answer ∷ answers) =
      last_carried key_pair (either (carried key_pair answer) k) answers

  certificate-refresh_round :
      (key_pair : Text → Text → Result K) (answer : Result Secret) (r : Reloader K)
      → (refresh_round key_pair answer r).certificate
        ≡ either (carried key_pair answer) r.certificate
  unfolding refresh_round carried either load_tls_certificate_from_secret
  certificate-refresh_round key_pair (err e) r = refl
  certificate-refresh_round key_pair (ok secret) r = ground (
    arith,
    data_at-value (codes "tls.crt") secret.data_map,
    data_at-value (codes "tls.key") secret.data_map,
  )

  certificate-refresh_rounds :
      (key_pair : Text → Text → Result K) (answers : List (Result Secret)) (r : Reloader K)
      → (refresh_rounds key_pair answers r).certificate
        ≡ last_carried key_pair r.certificate answers
  unfolding refresh_rounds last_carried
  certificate-refresh_rounds key_pair [] r = refl
  certificate-refresh_rounds key_pair (answer ∷ answers) r =
      certificate-refresh_rounds key_pair answers (refresh_round key_pair answer r)
      ∙ ap (λ k. last_carried key_pair k answers) (certificate-refresh_round key_pair answer r)

  -- Over any answers of the API server, the refresh loop serves the certificate of the last Secret whose
  -- "tls.crt" and "tls.key" were a valid key pair, and the earlier certificate if there was none; a
  -- failed refresh changes nothing. The interval is positive.
  pub certificate-refresh_loop :
      (key_pair : Text → Text → Result K) (interval : ℕ) (answers : List (Result Secret))
      (r : Reloader K)
      → interval ≢ 0
      → (run_tls_certificate_refresh_loop key_pair interval answers r).1.certificate
        ≡ last_carried key_pair r.certificate answers
  unfolding run_tls_certificate_refresh_loop
  certificate-refresh_loop key_pair interval answers r h =
      ground (arith, certificate-refresh_rounds key_pair answers r)

  certificate-rotation_rounds :
      (results : List (Result K)) (r : Reloader K)
      → (rotation_rounds results r).certificate ≡ last_ok r.certificate results
  unfolding rotation_rounds last_ok ensure_and_reload
  certificate-rotation_rounds [] r = refl
  certificate-rotation_rounds (ok k ∷ results) r = certificate-rotation_rounds results _
  certificate-rotation_rounds (err e ∷ results) r =
      ground (arith, certificate-rotation_rounds results (ensure_and_reload (err e) r))

  loaded-refresh :
      (key_pair : Text → Text → Result K) (answer : Result Secret) (r : Reloader K)
      → (refresh_tls_certificate_from_secret key_pair answer r).0 ≡ ok tt
      → is_ok (get_certificate (refresh_tls_certificate_from_secret key_pair answer r).1) ≡ true
  unfolding refresh_tls_certificate_from_secret get_certificate
  loaded-refresh key_pair answer r h = ground arith

  loaded-wait_rounds :
      (key_pair : Text → Text → Result K) (rounds : List (Result Secret × Option Error))
      (r : Reloader K)
      → (wait_rounds key_pair rounds r).0 ≡ some (ok tt)
      → is_ok (get_certificate (wait_rounds key_pair rounds r).1) ≡ true
  unfolding wait_rounds
  loaded-wait_rounds key_pair [] r h = absurd (ground arith)
  loaded-wait_rounds key_pair ((answer, _) ∷ rounds) r h = ground (
    arith,
    loaded-refresh key_pair answer r,
    loaded-wait_rounds key_pair rounds (refresh_round key_pair answer r),
  )

  -- If the wait for the first certificate ends without an error, a certificate is there to be served.
  pub certificate-wait :
      (key_pair : Text → Text → Result K) (interval : ℕ)
      (rounds : List (Result Secret × Option Error)) (r : Reloader K)
      → (wait_for_tls_certificate_from_secret key_pair interval rounds r).0 ≡ some (ok tt)
      → is_ok (get_certificate (wait_for_tls_certificate_from_secret key_pair interval rounds r).1)
        ≡ true
  unfolding wait_for_tls_certificate_from_secret
  certificate-wait key_pair interval rounds r h =
      ground (arith, loaded-wait_rounds key_pair rounds r)

  -- The errors that are told: all but the ends of a context, in order.
  unfoldable pub failures : List (Result K) → List Error
  failures [] = []
  failures (ok k ∷ results) = failures results
  failures (err e ∷ results) =
      let rest = failures results in
      if is_error e context_canceled || is_error e deadline_exceeded
      then rest
      else wrap "ensure admission certificate lifecycle" e ∷ rest

  reported-rotation_rounds :
      (results : List (Result K)) (r : Reloader K)
      → (rotation_rounds results r).reported ≡ r.reported ++ failures results
  unfolding rotation_rounds failures ensure_and_reload report set_certificate
  reported-rotation_rounds [] r = ground (arith, append-nil r.reported)
  reported-rotation_rounds (ok k ∷ results) r = reported-rotation_rounds results _
  reported-rotation_rounds (err e ∷ results) r = ground (
    arith,
    reported-rotation_rounds results (ensure_and_reload (err e) r),
    append_assoc r.reported (wrap "ensure admission certificate lifecycle" e ∷ [])
        (failures results),
  )

  -- The leader's loop serves the last certificate that a run ensured, the first run included, and the
  -- earlier certificate if there was none; it reports exactly the errors of the runs that are no end of
  -- a context, in order. The interval is positive.
  pub rotation_loop_lem :
      (interval : ℕ) (first : Result K) (results : List (Result K)) (r : Reloader K)
      → interval ≢ 0
      → ((run_rotation_loop interval first results r).1.certificate
          ≡ last_ok r.certificate (first ∷ results))
        × ((run_rotation_loop interval first results r).1.reported
            ≡ r.reported ++ failures (first ∷ results))
  unfolding run_rotation_loop
  rotation_loop_lem interval first results r h = (
    ground (arith, first_certificate, certificate-rotation_rounds (first ∷ results) r),
    ground (arith, first_certificate, reported-rotation_rounds (first ∷ results) r),
  )
    where
      first_certificate :
          rotation_rounds (first ∷ results) r ≡ rotation_rounds results (ensure_and_reload first r)
      first_certificate = unfold rotation_rounds in refl
