-- ===== src/Rootfs/SidecarSpec/Attempts.antt =====
-- Waiting for the sidecar's specification.
use sysbox.Prelude.{
  ℕ, zero, suc, ◌≡◌, refl, true, Option, none, some, List, [], ◌∷◌, arith, Result, ok, err, Error,
  is_error, sidecar_spec_unavailable,
}
use sysbox.Rootfs.Types.{OciSpec, RootfsRwLayerRequest}
use sysbox.Rootfs.SidecarSpec.{Listing, Round, load_once, load_attempts}

-- Some listing of the rounds gives the specification, and each one before it lacks the sidecar and
-- is followed by a wait that the context outlasts; at most `n` rounds are looked at.
pub data FoundAt (request : RootfsRwLayerRequest) (spec : OciSpec) : ℕ → List Round → Type 0 where
  now :
      {n : ℕ} {listing : Listing} {done : Option Error} {rounds : List Round}
      → load_once listing request ≡ ok spec
      → FoundAt request spec (suc n) ((listing, done) ∷ rounds)
  later :
      {n : ℕ} {listing : Listing} {rounds : List Round} {e : Error}
      → load_once listing request ≡ err e
      → is_error e sidecar_spec_unavailable ≡ true
      → FoundAt request spec n rounds
      → FoundAt request spec (suc n) ((listing, none) ∷ rounds)

module _ (request : RootfsRwLayerRequest) (spec : OciSpec) where
  first_step :
      (n : ℕ) (listing : Listing) (rounds : List Round)
      → load_attempts (suc n) ((listing, none) ∷ rounds) request ≡ ok spec
      → (load_attempts n rounds request ≡ ok spec → FoundAt request spec n rounds)
      → FoundAt request spec (suc n) ((listing, none) ∷ rounds)
  unfolding load_attempts
  first_step n listing rounds h more = go (load_once listing request) refl
    where
      go :
          (r : Result OciSpec)
          → load_once listing request ≡ r
          → FoundAt request spec (suc n) ((listing, none) ∷ rounds)
      go (ok s) q = now (ground arith)
      go (err e) q = later q (ground arith) (more (ground arith))

  -- A specification that the attempts give is what one of the first `n` listings gives; each listing
  -- before that one lacks the sidecar and is followed by a wait that the context outlasts.
  pub FoundAt-load_attempts :
      (n : ℕ) (rounds : List Round)
      → load_attempts n rounds request ≡ ok spec
      → FoundAt request spec n rounds
  unfolding load_attempts
  FoundAt-load_attempts zero rounds h = absurd (ground arith)
  FoundAt-load_attempts (suc n) [] h = absurd (ground arith)
  FoundAt-load_attempts (suc n) ((listing, some e) ∷ rounds) h = now (ground arith)
  FoundAt-load_attempts (suc n) ((listing, none) ∷ rounds) h =
      first_step n listing rounds h (FoundAt-load_attempts n rounds)

  -- The attempts give the specification whenever one of the first `n` listings gives it and each
  -- listing before that one lacks the sidecar and is followed by a wait that the context outlasts.
  pub load_attempts-FoundAt :
      (n : ℕ) (rounds : List Round)
      → FoundAt request spec n rounds
      → load_attempts n rounds request ≡ ok spec
  unfolding load_attempts
  load_attempts-FoundAt _ _ (now h) = ground arith
  load_attempts-FoundAt _ _ (later h u f) = ground (arith, load_attempts-FoundAt _ _ f)
