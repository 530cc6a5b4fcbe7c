-- ===== src/Admission/Server.antt =====
-- sysbox-admission/admission/server.go: the HTTP handler. What the standard library and the
-- Kubernetes types decode and encode is a parameter.
pub mod Verdict
pub mod Closed
use sysbox.Prelude.{
  ℕ, Bool, true, false, Option, none, some, List, [], if◌then◌else◌, length, leb, Result, ok, err,
  errorf, Error, ◌>>=◌,
}
use sysbox.Go.Strings.{Text, codes, text_eq}
use sysbox.Admission.Pod.{Pod}
use sysbox.Admission.Validate.{Json}
use sysbox.Admission.Mutate.{mutate}
use sysbox.Admission.Patch.{JsonPatch, patch_for_pod}

abbrev pub admission_review_body_limit : ℕ
admission_review_body_limit = 1048576

pub record TypeMeta : Type 0 where
  pub api_version : Text
  pub kind : Text

pub record AdmissionRequest : Type 0 where
  pub uid : Text
  pub resource : Text
  pub object : Text

pub record AdmissionReview : Type 0 where
  pub type_meta : TypeMeta
  pub request : Option AdmissionRequest

-- `result` is the error whose text the response carries.
pub record AdmissionResponse : Type 0 where
  pub uid : Text
  pub allowed : Bool
  pub patch : Option Text
  pub result : Option Error

-- A plain status 200, a 404, or a review with its response.
pub data HttpReply : Type 0 where
  status_ok : HttpReply
  not_found : HttpReply
  review : TypeMeta → AdmissionResponse → HttpReply

-- `body_error` is an error of the connection, if reading meets one below the limit.
pub record HttpRequest : Type 0 where
  pub url_path : Text
  pub body : Text
  pub body_error : Option Error

pub record Codec : Type 0 where
  pub decode_review : Text → Result AdmissionReview
  pub decode_pod : Text → Result Pod
  pub encode_patch : List JsonPatch → Result Text

unfoldable pub admission_error : Text → Error → AdmissionResponse
admission_error uid e = record { uid = uid; allowed = false; patch = none; result = some e }

unfoldable pub write_admission_error : Text → Error → HttpReply
unfolding admission_error
write_admission_error uid e =
    review (record { api_version = codes "admission.k8s.io/v1"; kind = codes "AdmissionReview" })
      (admission_error uid e)

-- `io.ReadAll` behind `http.MaxBytesReader`, with the code's message for a body past the limit.
unfoldable pub read_body : HttpRequest → Result Text
read_body r =
    if leb (length r.body) admission_review_body_limit
    then elim r.body_error [ none ↦ ok r.body | some e ↦ err e ]
    else err (errorf "request body too large: limit is %d bytes")

module _ (codec : Codec) (json : Json) (context_error : Option Error) (sandbox_image : Text) where
  unfoldable pub patch : AdmissionRequest → Result Text
  patch request =
      if text_eq request.resource (codes "pods")
      then (do
        pod ← codec.decode_pod request.object
        mutated ← mutate json context_error sandbox_image pod
        codec.encode_patch (patch_for_pod pod mutated))
      else err (errorf "unsupported resource %s")

  respond : Text → Result Text → AdmissionResponse
  respond uid (err e) = admission_error uid e
  respond uid (ok p) = record { uid = uid; allowed = true; patch = some p; result = none }

  unfoldable pub mutate_request : Option AdmissionRequest → AdmissionResponse
  unfolding admission_error respond
  mutate_request none = admission_error [] (errorf "missing admission request")
  mutate_request (some request) = respond request.uid (patch request)

  answer : Result AdmissionReview → HttpReply
  answer (err e) = write_admission_error [] e
  answer (ok r) = review r.type_meta (mutate_request r.request)

  unfoldable pub serve_http : HttpRequest → HttpReply
  unfolding answer
  serve_http r =
      if text_eq r.url_path (codes "/healthz")
      then status_ok
      else if text_eq r.url_path (codes "/mutate")
      then answer (do body ← read_body r; codec.decode_review body)
      else not_found
