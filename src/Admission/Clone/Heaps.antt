-- ===== src/Admission/Clone/Heaps.antt =====
-- What slices and pointers lead to on a heap, and on a heap with more objects.
use sysbox.Prelude.{
  ℕ, zero, suc, ◌≤◌, ◌≡◌, refl, sym, ap, ◌∙◌, Option, none, some, List, [], ◌∷◌, ◌++◌, arith,
  length, length-append, append-nil, append_assoc,
}
use sysbox.Go.Strings.{Text}
use sysbox.Admission.Clone.{Leaf, Heap, get_elem?}

pub get_elem?-append {ℓ} :
    {A : Type ℓ} (xs ys : List A) (i : ℕ) {x : A}
    → get_elem? xs i ≡ some x
    → get_elem? (xs ++ ys) i ≡ some x
unfolding get_elem?
get_elem?-append [] ys i h = absurd (ground arith)
get_elem?-append (y ∷ xs) ys zero h = h
get_elem?-append (y ∷ xs) ys (suc i) h = get_elem?-append xs ys i h

pub get_elem?-last {ℓ} :
    {A : Type ℓ} (xs : List A) (x : A) → get_elem? (xs ++ x ∷ []) (length xs) ≡ some x
unfolding get_elem?
get_elem?-last [] x = refl
get_elem?-last (y ∷ xs) x = get_elem?-last xs x

-- The sizes of a heap: an object behind them is a later one.
pub record Sizes : Type 0 where
  pub bytes : ℕ
  pub slices : ℕ
  pub leaves : ℕ

abbrev pub no_sizes : Sizes
no_sizes = record { bytes = 0; slices = 0; leaves = 0 }

-- What is read through a slice or a pointer; of a parsed certificate, the struct with its slices.
pub record Value (L K : Type 0) : Type 0 where
  pub certificate : List Text
  pub private_key : K
  pub algorithms : Text
  pub ocsp_staple : Text
  pub timestamps : List Text
  pub leaf : Option (Leaf L)

module _ {L : Type 0} where
  -- The heap `h'` has all objects of `h`.
  pub record Extends (h h' : Heap L) : Type 0 where
    pub more_bytes : List Text
    pub bytes : h'.bytes ≡ h.bytes ++ more_bytes
    pub more_slices : List (List (Option ℕ))
    pub slices : h'.slices ≡ h.slices ++ more_slices
    pub more_leaves : List (Leaf L)
    pub leaves : h'.leaves ≡ h.leaves ++ more_leaves

  abbrev pub sizes : Heap L → Sizes
  sizes h = record { bytes = length h.bytes; slices = length h.slices; leaves = length h.leaves }

  -- In objects behind `n` of the heap, the slice leads to these bytes.
  abbrev pub BytesAt : Sizes → Heap L → Option ℕ → Text → Type 0
  BytesAt n h none t = t ≡ []
  BytesAt n h (some a) t = (n.bytes ≤ a) × (get_elem? h.bytes a ≡ some t)

  abbrev pub EachAt : Sizes → Heap L → List (Option ℕ) → List Text → Type 0
  EachAt n h [] [] = Unit
  EachAt n h [] (t ∷ ts) = ⊥
  EachAt n h (o ∷ os) [] = ⊥
  EachAt n h (o ∷ os) (t ∷ ts) = BytesAt n h o t × EachAt n h os ts

  abbrev pub SlicesAt : Sizes → Heap L → Option ℕ → List Text → Type 0
  SlicesAt n h none ts = ts ≡ []
  SlicesAt n h (some a) ts =
      (n.slices ≤ a) × (os : List (Option ℕ)) × (get_elem? h.slices a ≡ some os) × EachAt n h os ts

  abbrev pub LeafAt : Sizes → Heap L → Option ℕ → Option (Leaf L) → Type 0
  LeafAt n h none v = v ≡ none
  LeafAt n h (some a) v =
      (n.leaves ≤ a) × (l : Leaf L) × (get_elem? h.leaves a ≡ some l) × (v ≡ some l)

  pub BytesAt-Extends :
      (n : Sizes) {h h' : Heap L} (o : Option ℕ) (t : Text)
      → Extends h h'
      → BytesAt n h o t
      → BytesAt n h' o t
  BytesAt-Extends n none t e b = b
  BytesAt-Extends n {h} {h'} (some a) t e (bound, b) =
      (bound, rw e.bytes (get_elem?-append h.bytes e.more_bytes a b))

  pub EachAt-Extends :
      (n : Sizes) {h h' : Heap L} (os : List (Option ℕ)) (ts : List Text)
      → Extends h h'
      → EachAt n h os ts
      → EachAt n h' os ts
  EachAt-Extends n [] [] e x = tt
  EachAt-Extends n [] (t ∷ ts) e x = elim x [ ]
  EachAt-Extends n (o ∷ os) [] e x = elim x [ ]
  EachAt-Extends n (o ∷ os) (t ∷ ts) e (b, x) =
      (BytesAt-Extends n o t e b, EachAt-Extends n os ts e x)

  pub SlicesAt-Extends :
      (n : Sizes) {h h' : Heap L} (o : Option ℕ) (ts : List Text)
      → Extends h h'
      → SlicesAt n h o ts
      → SlicesAt n h' o ts
  SlicesAt-Extends n none ts e x = x
  SlicesAt-Extends n {h} {h'} (some a) ts e (bound, os, q, x) = (
    bound,
    os,
    rw e.slices (get_elem?-append h.slices e.more_slices a q),
    EachAt-Extends n os ts e x,
  )

  pub LeafAt-Extends :
      (n : Sizes) {h h' : Heap L} (o : Option ℕ) (v : Option (Leaf L))
      → Extends h h'
      → LeafAt n h o v
      → LeafAt n h' o v
  LeafAt-Extends n none v e x = x
  LeafAt-Extends n {h} {h'} (some a) v e (bound, l, q, x) =
      (bound, l, rw e.leaves (get_elem?-append h.leaves e.more_leaves a q), x)

  pub Extends-refl : (h : Heap L) → Extends h h
  Extends-refl h = record {
    more_bytes = [];
    bytes = sym (append-nil h.bytes);
    more_slices = [];
    slices = sym (append-nil h.slices);
    more_leaves = [];
    leaves = sym (append-nil h.leaves);
  }

  pub Extends-bytes : (h : Heap L) (t : Text) → Extends h (record h { bytes = h.bytes ++ t ∷ [] })
  Extends-bytes h t = record {
    more_bytes = t ∷ [];
    bytes = refl;
    more_slices = [];
    slices = sym (append-nil h.slices);
    more_leaves = [];
    leaves = sym (append-nil h.leaves);
  }

  pub Extends-slices :
      (h : Heap L) (os : List (Option ℕ)) → Extends h (record h { slices = h.slices ++ os ∷ [] })
  Extends-slices h os = record {
    more_bytes = [];
    bytes = sym (append-nil h.bytes);
    more_slices = os ∷ [];
    slices = refl;
    more_leaves = [];
    leaves = sym (append-nil h.leaves);
  }

  pub Extends-leaves :
      (h : Heap L) (l : Leaf L) → Extends h (record h { leaves = h.leaves ++ l ∷ [] })
  Extends-leaves h l = record {
    more_bytes = [];
    bytes = sym (append-nil h.bytes);
    more_slices = [];
    slices = sym (append-nil h.slices);
    more_leaves = l ∷ [];
    leaves = refl;
  }

  pub Extends-trans : {h h1 h2 : Heap L} → Extends h h1 → Extends h1 h2 → Extends h h2
  Extends-trans {h} e f = record {
    more_bytes = e.more_bytes ++ f.more_bytes;
    bytes =
        f.bytes
        ∙ ap (λ x. x ++ f.more_bytes) e.bytes
        ∙ append_assoc h.bytes e.more_bytes f.more_bytes;
    more_slices = e.more_slices ++ f.more_slices;
    slices =
        f.slices
        ∙ ap (λ x. x ++ f.more_slices) e.slices
        ∙ append_assoc h.slices e.more_slices f.more_slices;
    more_leaves = e.more_leaves ++ f.more_leaves;
    leaves =
        f.leaves
        ∙ ap (λ x. x ++ f.more_leaves) e.leaves
        ∙ append_assoc h.leaves e.more_leaves f.more_leaves;
  }

  -- The heap has at least these sizes.
  abbrev pub HasSizes : Sizes → Heap L → Type 0
  HasSizes n h =
      (n.bytes ≤ length h.bytes) × (n.slices ≤ length h.slices) × (n.leaves ≤ length h.leaves)

  pub HasSizes-Extends : (n : Sizes) {h h' : Heap L} → Extends h h' → HasSizes n h → HasSizes n h'
  HasSizes-Extends n {h} {h'} e (b, s, l) = (
    omega (arith, b, ap length e.bytes, length-append h.bytes e.more_bytes),
    omega (arith, s, ap length e.slices, length-append h.slices e.more_slices),
    omega (arith, l, ap length e.leaves, length-append h.leaves e.more_leaves),
  )
