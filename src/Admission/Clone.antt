-- ===== src/Admission/Clone.antt =====
-- sysbox-admission/admission/tls_reload.go: the copies of the certificates that are stored and served, on
-- a heap of the objects that slices and pointers lead to.
pub mod Heaps
pub mod Copies
pub mod Apart
use sysbox.Prelude.{ℕ, zero, suc, Option, none, some, List, [], ◌∷◌, ◌++◌, length}
use sysbox.Go.Strings.{Text}

unfoldable pub get_elem? {ℓ} : {A : Type ℓ} → List A → ℕ → Option A
get_elem? [] i = none
get_elem? (x ∷ xs) zero = some x
get_elem? (x ∷ xs) (suc i) = get_elem? xs i

-- `x509.Certificate`: the values of its plain fields, and its slices, by the arrays that they lead to.
pub record Leaf (L : Type 0) : Type 0 where
  pub plain : L
  pub inner : List (Option ℕ)

-- Arrays of bytes (or of the numbers of signature schemes), arrays of slices of bytes, and the parsed
-- certificates. A slice leads to the whole of its array, and `none` is nil.
pub record Heap (L : Type 0) : Type 0 where
  pub bytes : List Text
  pub slices : List (List (Option ℕ))
  pub leaves : List (Leaf L)

-- `tls.Certificate`; the private key `K` is a value that nothing writes to.
pub record TlsCertificate (K : Type 0) : Type 0 where
  pub certificate : Option ℕ
  pub private_key : K
  pub algorithms : Option ℕ
  pub ocsp_staple : Option ℕ
  pub timestamps : Option ℕ
  pub leaf : Option ℕ

module _ {L : Type 0} where
  -- `append([]byte(nil), value...)`, which is nil for no bytes.
  copy_bytes : Option Text → Heap L → Option ℕ × Heap L
  copy_bytes none h = (none, h)
  copy_bytes (some []) h = (none, h)
  copy_bytes (some (b ∷ t)) h =
      (some (length h.bytes), record h { bytes = h.bytes ++ (b ∷ t) ∷ [] })

  unfoldable pub clone_bytes : Option ℕ → Heap L → Option ℕ × Heap L
  unfolding copy_bytes get_elem?
  clone_bytes none h = (none, h)
  clone_bytes (some a) h = copy_bytes (get_elem? h.bytes a) h

  clone_each : List (Option ℕ) → Heap L → List (Option ℕ) × Heap L
  unfolding clone_bytes
  clone_each [] h = ([], h)
  clone_each (o ∷ os) h =
      let (o', h1) = clone_bytes o h in let (os', h2) = clone_each os h1 in (o' ∷ os', h2)

  -- The slices of a nil array are none; `make` gives an array in any case.
  slices_at : Option ℕ → Heap L → List (Option ℕ)
  unfolding get_elem?
  slices_at none h = []
  slices_at (some a) h = elim (get_elem? h.slices a) [ none ↦ [] | some os ↦ os ]

  unfoldable pub clone_byte_slices : Option ℕ → Heap L → Option ℕ × Heap L
  unfolding clone_each slices_at
  clone_byte_slices o h =
      let (os, h1) = clone_each (slices_at o h) h in
      (some (length h1.slices), record h1 { slices = h1.slices ++ os ∷ [] })

  copy_leaf : Option (Leaf L) → Heap L → Option ℕ × Heap L
  copy_leaf none h = (none, h)
  copy_leaf (some l) h = (some (length h.leaves), record h { leaves = h.leaves ++ l ∷ [] })

  -- The struct is copied, so that its slices lead to the arrays of the original's.
  unfoldable pub clone_leaf : Option ℕ → Heap L → Option ℕ × Heap L
  unfolding copy_leaf get_elem?
  clone_leaf none h = (none, h)
  clone_leaf (some a) h = copy_leaf (get_elem? h.leaves a) h

  unfoldable pub clone_certificate :
      {K : Type 0} → TlsCertificate K → Heap L → TlsCertificate K × Heap L
  unfolding clone_byte_slices clone_bytes clone_leaf
  clone_certificate c h =
      let (certificate, h1) = clone_byte_slices c.certificate h in
      let (algorithms, h2) = clone_bytes c.algorithms h1 in
      let (ocsp_staple, h3) = clone_bytes c.ocsp_staple h2 in
      let (timestamps, h4) = clone_byte_slices c.timestamps h3 in
      let (leaf, h5) = clone_leaf c.leaf h4 in
      (
        record {
          certificate = certificate;
          private_key = c.private_key;
          algorithms = algorithms;
          ocsp_staple = ocsp_staple;
          timestamps = timestamps;
          leaf = leaf;
        },
        h5,
      )
