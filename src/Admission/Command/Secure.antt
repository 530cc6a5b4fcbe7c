-- ===== src/Admission/Command/Secure.antt =====
-- How the command serves.
use sysbox.Prelude.{
  subst, by_test, by_error, by_result, ◌≡◌, refl, true, false, not, ◌&&◌, Option, none, some, arith,
  Result, ok, err, is_ok,
}
use sysbox.Go.Strings.{Text, blank}
use sysbox.Admission.Reload.{Reloader, get_certificate}
use sysbox.Admission.Reload.Serving.{certificate-wait}
use sysbox.Admission.Command.{
  Flags, Environment, LifecycleClients, Listening, Outcome, printed_version, fatal, waits, serves,
  dynamic_tls, tls_files, plaintext, validate_serve_config, sandbox_image_from_config, after_wait,
  serve_bootstrapped, bootstrapped, serve_webhook, serve, main,
}

module _ {K : Type 0} (flags : Flags) where
  -- With the webhook's own certificate, one is there; with files, both are given; without TLS, the flag
  -- allows it and neither of the others asks for TLS.
  abbrev pub IsSecure : Listening K → Type 0
  IsSecure (dynamic_tls r) =
      (flags.serving.bootstrap_webhook ≡ true) × (is_ok (get_certificate r) ≡ true)
  IsSecure (tls_files cert key) =
      (cert ≡ flags.serving.tls_cert)
      × (key ≡ flags.serving.tls_key)
      × (blank cert ≡ false)
      × (blank key ≡ false)
  IsSecure plaintext =
      (flags.serving.allow_insecure_http ≡ true)
      × (flags.serving.bootstrap_webhook ≡ false)
      × (blank flags.serving.tls_cert ≡ true)
      × (blank flags.serving.tls_key ≡ true)

  abbrev ServesSecurely : Outcome K → Type 0
  ServesSecurely printed_version = Unit
  ServesSecurely (fatal e) = Unit
  ServesSecurely waits = Unit
  ServesSecurely (serves l image) = IsSecure l

  module _ {C A B R : Type 0} (env : Environment C A B R K) where
    ServesSecurely-serve_webhook :
        (image : Text)
        → flags.serving.bootstrap_webhook ≡ true
        → ServesSecurely (serve_webhook env flags image)
    unfolding serve_webhook
    ServesSecurely-serve_webhook image h = by_bootstrap (bootstrapped env flags)
      where
        by_wait :
            (done : Option (Result (Unit {0})) × Reloader K)
            → (done.0 ≡ some (ok tt) → is_ok (get_certificate done.1) ≡ true)
            → ServesSecurely (after_wait env flags image done)
        by_wait (none, r) c = tt
        by_wait (some (err e), r) c = tt
        by_wait (some (ok u), r) c = (h, c refl)

        by_bootstrap :
            (b : Result (LifecycleClients A B R × Text))
            → ServesSecurely (elim b [
              | err e ↦ fatal e
              | ok (clients, identity) ↦ serve_bootstrapped env flags image clients identity
            ])
        by_bootstrap (err e) = tt
        by_bootstrap (ok (clients, identity)) =
            by_wait _
              (certificate-wait env.key_pair flags.secret_refresh_interval (env.rounds clients) _)

    ServesSecurely-serve :
        (image : Text)
        → validate_serve_config flags.serving ≡ none
        → ServesSecurely (serve env flags image)
    unfolding serve validate_serve_config
    ServesSecurely-serve image v =
        by_test ServesSecurely flags.serving.bootstrap_webhook (ServesSecurely-serve_webhook image)
          (λ b.
            by_test ServesSecurely
              (not (blank flags.serving.tls_cert) && not (blank flags.serving.tls_key))
              (λ t. (refl, refl, ground (arith, t), ground (arith, t))) (λ t. without_tls b t))
      where
        without_tls :
            flags.serving.bootstrap_webhook ≡ false
            → (not (blank flags.serving.tls_cert) && not (blank flags.serving.tls_key)) ≡ false
            → IsSecure plaintext
        without_tls b t =
            (ground (arith, v, b, t), b, ground (arith, v, b, t), ground (arith, v, b, t))

    ServesSecurely-main : ServesSecurely (main env flags)
    unfolding main
    ServesSecurely-main =
        by_test ServesSecurely flags.show_version (λ _. tt)
          (λ _.
            by_result ServesSecurely
              (sandbox_image_from_config env.sandbox_image env.sandbox_image_in
                flags.containerd_config_dir)
              _ _
              (λ image _.
                by_error ServesSecurely (validate_serve_config flags.serving) _ _
                  (ServesSecurely-serve image) (λ e _. tt))
              (λ e _. tt))

    -- If the command serves, it serves with a certificate that is there, with the two files of the flags,
    -- or, where the flag allows it and no other asks for TLS, without TLS.
    pub main-IsSecure :
        (l : Listening K) (image : Text) → main env flags ≡ serves l image → IsSecure l
    main-IsSecure l image h = subst ServesSecurely h ServesSecurely-main
