-- ===== src/Tests/Requests.antt =====
-- A request to the handler and the draws of a serial number.
use sysbox.Prelude.{◌≡◌, refl, true, some, none, [], ◌∷◌, ◌++◌, ok, err, sentinel, io_eof}
use sysbox.Go.Strings.{codes, text_eq}
use sysbox.Admission.Certs.{random_serial_number}
use sysbox.Admission.Certs.Serial.{zeros, is_serial, random_serial_number_lem}
use sysbox.Admission.Server.{Codec, HttpRequest, serve_http}
use sysbox.Admission.Server.Closed.{IsVerdict, serve_http-IsVerdict}
use sysbox.Tests.Webhook.{json, codec, request}

abbrev reading_codec : Codec
reading_codec = record codec {
  decode_review = λ t. ok (record {
    type_meta = record { api_version = codes "v1"; kind = codes "AdmissionReview" };
    request = some request;
  });
}

abbrev sent : HttpRequest
sent = record { url_path = codes "/mutate"; body = codes "{}"; body_error = none }

sent_to_mutate : text_eq sent.url_path (codes "/mutate") ≡ true
unfolding text_eq
sent_to_mutate = refl

serve_http-IsVerdict_example :
    IsVerdict reading_codec json none
      (codes "s")
      sent
      (serve_http reading_codec json none (codes "s") sent)
serve_http-IsVerdict_example =
    serve_http-IsVerdict reading_codec json none (codes "s") sent sent_to_mutate

random_serial_number_lem_example :
    (random_serial_number (zeros 3 ++ ok 7 ∷ []) ≡ ok 7)
    × (random_serial_number (zeros 3 ++ err (sentinel io_eof) ∷ []) ≡ err (sentinel io_eof))
    × (is_serial (random_serial_number []) ≡ true)
random_serial_number_lem_example = random_serial_number_lem 3 6 (sentinel io_eof) []
