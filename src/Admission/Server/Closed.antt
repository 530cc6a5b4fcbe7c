-- ===== src/Admission/Server/Closed.antt =====
-- What the handler does with a request that it cannot read, and what lies behind a request that it
-- allows.
use sysbox.Prelude.{
  ◌≡◌, ◌≤◌, refl, true, false, Option, none, some, ◌⊎◌, inl, inr, arith, Result, ok, err, Error,
  length, ◌>>=◌,
}
use sysbox.Go.Strings.{Text, codes, text_eq, text_eq_iff}
use sysbox.Admission.Validate.{Json}
use sysbox.Admission.Server.{
  AdmissionRequest, AdmissionReview, AdmissionResponse, Codec, HttpRequest, HttpReply, TypeMeta,
  review, admission_review_body_limit, read_body, answer, mutate_request, serve_http, respond,
  patch, admission_error, write_admission_error,
}
use sysbox.Admission.Server.Verdict.{Admitted, mutate_request-Admitted}

-- A response that allows nothing, has no patch, and tells an error.
pub record IsRefusal (response : AdmissionResponse) : Type 0 where
  pub refused : response.allowed ≡ false
  pub no_patch : response.patch ≡ none
  pub error : Error
  pub tells : response.result ≡ some error

module _ (codec : Codec) (json : Json) (context_error : Option Error) (image : Text) where
  -- A response that allows the request of the review in the body, which is not too long and was read
  -- without an error.
  pub record IsAdmission (r : HttpRequest) (response : AdmissionResponse) : Type 0 where
    pub short : length r.body ≤ admission_review_body_limit
    pub read : r.body_error ≡ none
    pub decoded : AdmissionReview
    pub decodes : codec.decode_review r.body ≡ ok decoded
    pub request : AdmissionRequest
    pub carries : decoded.request ≡ some request
    pub admitted : Admitted codec json context_error image request response

  read_body-ok :
      (r : HttpRequest) {body : Text}
      → read_body r ≡ ok body
      → (body ≡ r.body) × (length r.body ≤ admission_review_body_limit) × (r.body_error ≡ none)
  unfolding read_body
  read_body-ok r h = ground arith

  IsRefusal-respond :
      (uid : Text) (p : Result Text)
      → IsRefusal (respond codec json context_error image uid p)
        ⊎ ((respond codec json context_error image uid p).allowed ≡ true)
  unfolding respond admission_error
  IsRefusal-respond uid (err e) =
      inl (record { refused = refl; no_patch = refl; error = e; tells = refl })
  IsRefusal-respond uid (ok p) = inr refl

  -- The cases of the answer to a review.
  mutate_request-cases :
      (request : Option AdmissionRequest)
      → IsRefusal (mutate_request codec json context_error image request)
        ⊎ ((q : AdmissionRequest) × (request ≡ some q)
            × Admitted codec json context_error image q
                (mutate_request codec json context_error image request))
  unfolding mutate_request admission_error
  mutate_request-cases none =
      inl (record { refused = refl; no_patch = refl; error = _; tells = refl })
  mutate_request-cases (some q) =
      elim (IsRefusal-respond q.uid (patch codec json context_error image q)) [
        | inl refusal ↦ inl refusal
        | inr allowed ↦
            inr (q, refl, mutate_request-Admitted codec json context_error image q allowed)
      ]

  abbrev pub IsVerdict : HttpRequest → HttpReply → Type 0
  IsVerdict r reply =
      (meta : TypeMeta) × (response : AdmissionResponse) × (reply ≡ review meta response)
      × (IsRefusal response ⊎ IsAdmission r response)

  answer-IsVerdict :
      (r : HttpRequest) (read : Result Text) (decoded : Result AdmissionReview)
      → read_body r ≡ read
      → (read >>= codec.decode_review) ≡ decoded
      → IsVerdict r (answer codec json context_error image decoded)
  unfolding answer write_admission_error admission_error
  answer-IsVerdict r read (err e) p q =
      (_, _, refl, inl (record { refused = refl; no_patch = refl; error = e; tells = refl }))
  answer-IsVerdict r (err e') (ok d) p q = absurd (ground arith)
  answer-IsVerdict r (ok body) (ok d) p q =
      let (same, short, no_error) = read_body-ok r p in
      (
        d.type_meta,
        _,
        refl,
        elim (mutate_request-cases d.request) [
          | inl refusal ↦ inl refusal
          | inr (request, carried, admitted) ↦ inr (record {
            short = short;
            read = no_error;
            decoded = d;
            decodes = rw (← same) q;
            request = request;
            carries = carried;
            admitted = admitted;
          })
        ],
      )

  apart : text_eq (codes "/mutate") (codes "/healthz") ≡ false
  unfolding text_eq
  apart = refl

  -- To every request to "/mutate", whatever its body, the handler replies with a review that either
  -- refuses, with no patch and with an error, or answers a request that was read without an error, that
  -- has at most 1048576 bytes, and whose review carries a request with a patch that is applied as
  -- `Admitted` says.
  pub serve_http-IsVerdict :
      (r : HttpRequest)
      → text_eq r.url_path (codes "/mutate") ≡ true
      → IsVerdict r (serve_http codec json context_error image r)
  unfolding serve_http
  serve_http-IsVerdict r h = rw (h, other) (answer-IsVerdict r (read_body r) _ refl refl)
    where
      other : text_eq r.url_path (codes "/healthz") ≡ false
      other = rw ((text_eq_iff r.url_path (codes "/mutate")).0 h) apart
