-- ===== src/Admission/Health/Generated.antt =====
-- New certificates are healthy.
use sysbox.Prelude.{
  subst, ℕ, ◌+◌, ◌≤◌, ◌≡◌, refl, Bool, true, false, Option, none, some, [], ◌∷◌, ◌++◌, arith, all,
  any, Result, ok, Error, >>=-eq-ok, context-eq-ok, fail_if-eq-ok, ◌>>=◌,
}
use sysbox.Go.Strings.{Text, codes, blank, contains, text_eq, text_eq_refl}
use sysbox.Admission.Certs.{
  Certificate, crl_sign, Pki, Draw, CertificateBundle, second, minute, leaf_validity, decoded,
  random_serial_number, ca_template, leaf_template, service_dns_names, generate_tls_certificate,
  generate_certificate_bundle,
}
use sysbox.Admission.Certs.Laws.{PkiLaws}
use sysbox.Admission.Health.{
  certificate_healthy, parse_certificate, parse_rsa_key, evaluate_certificate_health,
}
use sysbox.Admission.Health.Sound.{IsCurrent, IsCurrentCa, certificate_healthy-IsHealthy}

-- A reading of the clock that is not before `now`, and a minute later at most.
abbrev pub IsPrompt : ℕ → ℕ → Type 0
IsPrompt now issued_at = (now ≤ issued_at) × (issued_at ≤ now + minute)

module _ (pki : Pki) (service_name namespace : Text) (now : ℕ) where
  -- A leaf that was made below an authority.
  record IsMade (ca_cert_pem ca_key_pem cert_pem key_pem : Text) : Type 0 where
    named : blank service_name ≡ false
    ca : Certificate
    ca_key : ℕ
    key : ℕ
    serial : ℕ
    issued_at : ℕ
    prompt : IsPrompt now issued_at
    der : Text
    parses_ca : parse_certificate pki ca_cert_pem ≡ ok ca
    parses_ca_key : parse_rsa_key pki ca_key_pem ≡ ok ca_key
    created :
        pki.create
          (leaf_template serial issued_at service_name namespace)
          ca
          (pki.public key)
          ca_key
        ≡ ok der
    cert : cert_pem ≡ pki.pem_certificate der
    private_key : key_pem ≡ pki.pem_key (pki.marshal_pkcs1 key)

  decoded-eq-ok {ℓ} :
      {B : Type ℓ} (block : Option Text) (e : Error) (next : Text → Result B) {b : B}
      → (decoded block e >>= next) ≡ ok b
      → (text : Text) × (block ≡ some text) × (next text ≡ ok b)
  unfolding decoded
  decoded-eq-ok none e next h = absurd (ground arith)
  decoded-eq-ok (some text) e next h = (text, refl, h)

  parse_certificate-eq :
      (pem block : Text) {c : Certificate}
      → pki.pem_decode pem ≡ some block
      → pki.parse_certificate_der block ≡ ok c
      → parse_certificate pki pem ≡ ok c
  unfolding parse_certificate
  parse_certificate-eq pem block d p = rw (d, p)

  parse_rsa_key-eq :
      (pem block : Text) {k : ℕ}
      → pki.pem_decode pem ≡ some block
      → pki.parse_pkcs1 block ≡ ok k
      → parse_rsa_key pki pem ≡ ok k
  unfolding parse_rsa_key
  parse_rsa_key-eq pem block d p = rw (d, p)

  IsMade-generate_tls_certificate :
      (ca_cert_pem ca_key_pem : Text) (draw : Draw) {tls : Text × Text}
      → IsPrompt now draw.now
      → generate_tls_certificate pki service_name namespace ca_cert_pem ca_key_pem draw ≡ ok tls
      → IsMade ca_cert_pem ca_key_pem tls.0 tls.1
  unfolding generate_tls_certificate
  IsMade-generate_tls_certificate ca_cert_pem ca_key_pem draw prompt h =
      let (named, h1) = fail_if-eq-ok (blank service_name) _ _ h in
      let (_, h2) = fail_if-eq-ok (blank namespace) _ _ h1 in
      let (block, d, h3) = decoded-eq-ok (pki.pem_decode ca_cert_pem) _ _ h2 in
      let (ca, p, h4) = context-eq-ok _ (pki.parse_certificate_der block) _ h3 in
      let (key_block, d', h5) = decoded-eq-ok (pki.pem_decode ca_key_pem) _ _ h4 in
      let (ca_key, p', h6) = context-eq-ok _ (pki.parse_pkcs1 key_block) _ h5 in
      let (key, _, h7) = context-eq-ok _ draw.key _ h6 in
      let (serial, _, h8) = context-eq-ok _ (random_serial_number draw.serials) _ h7 in
      let (der, c, last) = context-eq-ok _ (pki.create _ ca (pki.public key) ca_key) _ h8 in
      record {
        named = named;
        ca = ca;
        ca_key = ca_key;
        key = key;
        serial = serial;
        issued_at = draw.now;
        prompt = prompt;
        der = der;
        parses_ca = parse_certificate-eq ca_cert_pem block d p;
        parses_ca_key = parse_rsa_key-eq ca_key_pem key_block d' p';
        created = c;
        cert = ground (arith, last);
        private_key = ground (arith, last);
      }

  module _ (laws : PkiLaws pki service_name namespace) where
    -- Each name of the service is a name that is not empty.
    verifies_all :
        (q : Text → Bool)
        → blank service_name ≡ false
        → ((name : Text)
            → contains (service_dns_names service_name namespace) name ≡ true
            → blank name ≡ false
            → q name ≡ true)
        → all q (service_dns_names service_name namespace) ≡ true
    unfolding service_dns_names contains any all
    verifies_all q named each = go service_name named each
      where
        go :
            (s : Text)
            → blank s ≡ false
            → ((name : Text)
                → any (text_eq name) (
                    s
                    ∷ (s ++ codes "." ++ namespace)
                    ∷ (s ++ codes "." ++ namespace ++ codes ".svc")
                    ∷ (s ++ codes "." ++ namespace ++ codes ".svc.cluster.local")
                    ∷ [])
                  ≡ true
                → blank name ≡ false
                → q name ≡ true)
            → all q (
                s
                ∷ (s ++ codes "." ++ namespace)
                ∷ (s ++ codes "." ++ namespace ++ codes ".svc")
                ∷ (s ++ codes "." ++ namespace ++ codes ".svc.cluster.local")
                ∷ [])
              ≡ true
        go [] n f = absurd (ground arith)
        go (c ∷ s) n f =
            rw
              (
                f (c ∷ s) (rw (text_eq_refl (c ∷ s)) (ground arith)) refl,
                f ((c ∷ s) ++ codes "." ++ namespace)
                    (rw (text_eq_refl ((c ∷ s) ++ codes "." ++ namespace)) (ground arith)) refl,
                f ((c ∷ s) ++ codes "." ++ namespace ++ codes ".svc")
                    (rw (text_eq_refl ((c ∷ s) ++ codes "." ++ namespace ++ codes ".svc"))
                      (ground arith))
                    refl,
                f ((c ∷ s) ++ codes "." ++ namespace ++ codes ".svc.cluster.local")
                    (rw
                      (text_eq_refl
                        ((c ∷ s) ++ codes "." ++ namespace ++ codes ".svc.cluster.local"))
                      (ground arith))
                    refl,
              )
              refl

    IsCurrent-leaf :
        (window : ℕ) {ca_cert_pem ca_key_pem cert_pem key_pem : Text}
        → window + second ≤ leaf_validity
        → (made : IsMade ca_cert_pem ca_key_pem cert_pem key_pem)
        → (leaf : Certificate) × (pki.parse_certificate_der made.der ≡ ok leaf)
          × IsCurrent pki service_name namespace window now cert_pem key_pem leaf
    IsCurrent-leaf window wide made =
        let (leaf, p, issued) =
          laws.issues_leaf made.serial made.issued_at (pki.public made.key) made.ca_key made.ca
            made.der made.created in
        (
          leaf,
          p,
          record {
            key = made.key;
            parses =
                rw made.cert (parse_certificate-eq _ made.der (laws.decode-certificate made.der) p);
            parses_key =
                rw made.private_key
                  (parse_rsa_key-eq _ _ (laws.decode-key _) (laws.parse-marshal made.key));
            begun = unfold leaf_template in ground (arith, issued.not_before, made.prompt);
            not_over = unfold leaf_template in ground (arith, issued.not_after, wide, made.prompt);
            far_from_over =
                unfold leaf_template in ground (arith, issued.not_after, wide, made.prompt);
            same_key = issued.same_key;
          },
        )

    -- Below a sound authority that limits nothing, a new leaf makes the certificates healthy.
    pub generate_tls_certificate-healthy :
        (window : ℕ) (ca_cert_pem ca_key_pem : Text) (draw : Draw) (ca : Certificate)
        {tls : Text × Text}
        → window + second ≤ leaf_validity
        → IsCurrentCa pki service_name namespace window now ca_cert_pem ca_key_pem ca
        → ca.constraints ≡ []
        → IsPrompt now draw.now
        → generate_tls_certificate pki service_name namespace ca_cert_pem ca_key_pem draw ≡ ok tls
        → evaluate_certificate_health pki service_name namespace window now ca_cert_pem ca_key_pem
            tls.0 tls.1
          ≡ certificate_healthy
    generate_tls_certificate-healthy window ca_cert_pem ca_key_pem draw ca wide sound free prompt
          h =
        let made = IsMade-generate_tls_certificate ca_cert_pem ca_key_pem draw prompt h in
        let (leaf, p, fresh) = IsCurrent-leaf window wide made in
        let same_ca : made.ca ≡ ca = ground (arith, made.parses_ca, sound.current.parses) in
        let same_key : made.ca_key ≡ sound.current.key =
          ground (arith, made.parses_ca_key, sound.current.parses_key) in
        certificate_healthy-IsHealthy pki service_name namespace window now (record {
          ca = ca;
          leaf = leaf;
          ca_current = sound;
          leaf_current = fresh;
          verifies =
              verifies_all (λ name. pki.verify leaf ca name now) made.named
                (λ name held named.
                  laws.verifies made.serial made.issued_at (pki.public made.key) made.ca_key now ca
                    leaf made.der name sound.signs.usages_before sound.signs.usages_after
                    (rw (← same_ca) made.created) p (rw same_key sound.current.same_key)
                    sound.signs.basic sound.signs.authority sound.signs.usages free
                    (sound.current.begun, sound.current.not_over) (fresh.begun, fresh.not_over) held
                    named);
        })

    IsCurrentCa-created :
        (window serial key issued_at : ℕ) (der : Text)
        → window + second ≤ leaf_validity
        → IsPrompt now issued_at
        → pki.create
            (ca_template serial issued_at)
            (ca_template serial issued_at)
            (pki.public key)
            key
          ≡ ok der
        → (ca : Certificate) × IsCurrentCa pki service_name namespace window now
            (pki.pem_certificate der)
            (pki.pem_key (pki.marshal_pkcs1 key))
            ca
          × (ca.constraints ≡ [])
    unfolding ca_template
    IsCurrentCa-created window serial key issued_at der wide prompt h =
        let (ca, p, issued) = laws.issues_ca serial issued_at key der h in
        (
          ca,
          record {
            current = record {
              key = key;
              parses = parse_certificate-eq _ der (laws.decode-certificate der) p;
              parses_key = parse_rsa_key-eq _ _ (laws.decode-key _) (laws.parse-marshal key);
              begun = ground (arith, issued.not_before, prompt);
              not_over = ground (arith, issued.not_after, wide, prompt);
              far_from_over = ground (arith, issued.not_after, wide, prompt);
              same_key = issued.same_key;
            };
            signs = record {
              basic = issued.basic_constraints_valid;
              authority = issued.is_ca;
              usages_before = [];
              usages_after = crl_sign ∷ [];
              usages = issued.key_usage;
            };
          },
          issued.constraints,
        )

    -- The authority of the bundle is sound, and what the bundle holds is healthy.
    abbrev pub IsFresh : ℕ → CertificateBundle → Type 0
    IsFresh window bundle =
        ((ca : Certificate) × IsCurrentCa pki service_name namespace window now bundle.ca_cert_pem
            bundle.ca_key_pem ca
          × (ca.constraints ≡ []))
        × (evaluate_certificate_health pki service_name namespace window now bundle.ca_cert_pem
              bundle.ca_key_pem bundle.tls_cert_pem bundle.tls_key_pem
            ≡ certificate_healthy)

    -- A new bundle is fresh.
    pub generate_certificate_bundle-IsFresh :
        (window : ℕ) (ca_draw leaf_draw : Draw) {bundle : CertificateBundle}
        → window + second ≤ leaf_validity
        → IsPrompt now ca_draw.now
        → IsPrompt now leaf_draw.now
        → generate_certificate_bundle pki service_name namespace ca_draw leaf_draw ≡ ok bundle
        → IsFresh window bundle
    unfolding generate_certificate_bundle
    generate_certificate_bundle-IsFresh window ca_draw leaf_draw {bundle} wide prompt leaf_prompt
          h =
        let (_, h1) = fail_if-eq-ok (blank service_name) _ _ h in
        let (_, h2) = fail_if-eq-ok (blank namespace) _ _ h1 in
        let (key, _, h3) = context-eq-ok _ ca_draw.key _ h2 in
        let (serial, _, h4) = context-eq-ok _ (random_serial_number ca_draw.serials) _ h3 in
        let (der, made, h5) = context-eq-ok _ (pki.create _ _ (pki.public key) key) _ h4 in
        let (tls, leaf, last) =
          >>=-eq-ok
            (generate_tls_certificate pki service_name namespace (pki.pem_certificate der)
              (pki.pem_key (pki.marshal_pkcs1 key)) leaf_draw)
            _ h5 in
        let (ca, sound, free) =
          IsCurrentCa-created window serial key ca_draw.now der wide prompt made in
        subst (IsFresh window) (ok-inj last) (
          (ca, sound, free),
          generate_tls_certificate-healthy window _ _ leaf_draw ca wide sound free leaf_prompt leaf,
        )
      where
        ok-inj : {a b : CertificateBundle} → ok a ≡ ok b → a ≡ b
        ok-inj e = ground arith
