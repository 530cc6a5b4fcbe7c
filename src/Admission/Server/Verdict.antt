-- ===== src/Admission/Server/Verdict.antt =====
-- What an allowed admission means to the API server, which applies the patch of the response.
use sysbox.Prelude.{◌≡◌, true, Option, some, List, arith, ok, Error, ◌>>=◌, >>=-eq-ok}
use sysbox.Go.Strings.{Text, codes, text_eq}
use sysbox.Admission.Pod.{Pod}
use sysbox.Admission.Validate.{Json}
use sysbox.Admission.Mutate.{mutate}
use sysbox.Admission.Patch.{JsonPatch, patch_for_pod}
use sysbox.Admission.Patch.Apply.{apply_patches, apply_patches-mutate}
use sysbox.Admission.Server.{AdmissionRequest, AdmissionResponse, Codec, patch, mutate_request}

module _ (codec : Codec) (json : Json) (context_error : Option Error) (image : Text) where
  -- The pod that the request carries, the one that the webhook makes of it, and the patch between.
  pub record Admitted (request : AdmissionRequest) (response : AdmissionResponse) : Type 0 where
    pub sent : Pod
    pub mutated : Pod
    pub patches : List JsonPatch
    pub encoded : Text
    pub decodes : codec.decode_pod request.object ≡ ok sent
    pub mutates : mutate json context_error image sent ≡ ok mutated
    pub applies : apply_patches patches sent ≡ some mutated
    pub encodes : codec.encode_patch patches ≡ ok encoded
    pub carries : response.patch ≡ some encoded
    pub is_pods : text_eq request.resource (codes "pods") ≡ true
    pub same_uid : response.uid ≡ request.uid

  allowed-patch :
      (request : AdmissionRequest)
      → (mutate_request codec json context_error image (some request)).allowed ≡ true
      → (p : Text) × (patch codec json context_error image request ≡ ok p)
        × ((mutate_request codec json context_error image (some request)).patch ≡ some p)
        × ((mutate_request codec json context_error image (some request)).uid ≡ request.uid)
  unfolding mutate_request
  allowed-patch request h = ground arith

  patch-pods :
      (request : AdmissionRequest) (p : Text)
      → patch codec json context_error image request ≡ ok p
      → (text_eq request.resource (codes "pods") ≡ true)
        × ((do
          pod ← codec.decode_pod request.object
          mutated ← mutate json context_error image pod
          codec.encode_patch (patch_for_pod pod mutated))
            ≡ ok p)
  unfolding patch
  patch-pods request p h = ground arith

  -- A request that is allowed is for pods, its response has the request's uid, and the patch in the
  -- response encodes one that, applied to the pod in the request, gives the pod that `mutate` makes.
  pub mutate_request-Admitted :
      (request : AdmissionRequest)
      → (mutate_request codec json context_error image (some request)).allowed ≡ true
      → Admitted request (mutate_request codec json context_error image (some request))
  mutate_request-Admitted request h =
      let (p, made, carried, uid) = allowed-patch request h in
      let (pods, chain) = patch-pods request p made in
      let (pod, d, rest) = >>=-eq-ok _ _ chain in
      let (pod', m, last) = >>=-eq-ok (mutate json context_error image pod) _ rest in
      record {
        sent = pod;
        mutated = pod';
        patches = patch_for_pod pod pod';
        encoded = p;
        decodes = d;
        mutates = m;
        applies = apply_patches-mutate json context_error image pod pod' m;
        encodes = last;
        carries = carried;
        is_pods = pods;
        same_uid = uid;
      }
