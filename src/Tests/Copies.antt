-- ===== src/Tests/Copies.antt =====
-- A copy of a certificate, behind a write to the bytes of the original.
use sysbox.Prelude.{ℕ, zero, suc, ◌≤◌, ◌≡◌, refl, none, some, [], ◌∷◌, arith}
use sysbox.Go.Strings.{codes}
use sysbox.Admission.Clone.{Leaf, Heap, TlsCertificate, get_elem?, clone_certificate}
use sysbox.Admission.Clone.Heaps.{Value, no_sizes, sizes}
use sysbox.Admission.Clone.Apart.{Agrees, Holds, clone_certificate-Holds}

-- A parsed certificate whose raw bytes are those of the certificate.
abbrev parsed : Leaf ℕ
parsed = record { plain = 7; inner = some 0 ∷ [] }

abbrev heap : Heap ℕ
heap = record { bytes = codes "a" ∷ []; slices = (some 0 ∷ []) ∷ []; leaves = parsed ∷ [] }

abbrev certificate : TlsCertificate ℕ
certificate = record {
  certificate = some 0;
  private_key = 5;
  algorithms = none;
  ocsp_staple = none;
  timestamps = none;
  leaf = some 0;
}

abbrev held : Value ℕ ℕ
held = record {
  certificate = codes "a" ∷ [];
  private_key = 5;
  algorithms = [];
  ocsp_staple = [];
  timestamps = [];
  leaf = some parsed;
}

heap-Holds : Holds no_sizes heap certificate held
unfolding get_elem?
heap-Holds = record {
  certificate = (omega arith, some 0 ∷ [], refl, ((omega arith, refl), tt));
  private_key = refl;
  algorithms = refl;
  ocsp_staple = refl;
  timestamps = refl;
  leaf = (omega arith, parsed, refl, refl);
}

-- The heap behind the copy, with other bytes in the first array.
abbrev written : Heap ℕ
written = record {
  bytes = codes "z" ∷ codes "a" ∷ [];
  slices = (some 0 ∷ []) ∷ (some 1 ∷ []) ∷ [] ∷ [];
  leaves = parsed ∷ parsed ∷ [];
}

same_bytes : (i : ℕ) → 1 ≤ i → get_elem? written.bytes i ≡ get_elem? (codes "a" ∷ codes "a" ∷ []) i
unfolding get_elem?
same_bytes zero k = absurd (omega (arith, k))
same_bytes (suc i) k = refl

written-Agrees : Agrees (sizes heap) (clone_certificate certificate heap).1 written
unfolding clone_certificate
written-Agrees = record { bytes = same_bytes; slices = λ i k. refl; leaves = λ i k. refl }

clone_certificate-Holds_example :
    Holds (sizes heap) written (clone_certificate certificate heap).0 held
clone_certificate-Holds_example =
    clone_certificate-Holds no_sizes heap written certificate held heap-Holds written-Agrees
