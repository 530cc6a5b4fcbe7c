-- ===== src/Admission/Clone/Copies.antt =====
-- The copies of slices and of parsed certificates.
use sysbox.Prelude.{ℕ, refl, sym, subst, Option, none, some, List, [], ◌∷◌}
use sysbox.Go.Strings.{Text}
use sysbox.Admission.Clone.{
  Leaf, Heap, copy_bytes, copy_leaf, clone_bytes, clone_each, slices_at, clone_byte_slices,
  clone_leaf,
}
use sysbox.Admission.Clone.Heaps.{
  get_elem?-last, Sizes, Extends, BytesAt, EachAt, SlicesAt, LeafAt, BytesAt-Extends,
  EachAt-Extends, Extends-refl, Extends-bytes, Extends-slices, Extends-leaves, Extends-trans,
  HasSizes, HasSizes-Extends,
}

module _ {L : Type 0} where
  module _ (n m : Sizes) where
    copy_bytes-BytesAt :
        (h : Heap L) (t : Text)
        → HasSizes n h
        → Extends h (copy_bytes (some t) h).1
          × BytesAt n (copy_bytes (some t) h).1 (copy_bytes (some t) h).0 t
    unfolding copy_bytes
    copy_bytes-BytesAt h [] k = (Extends-refl h, refl)
    copy_bytes-BytesAt h (b ∷ t) k =
        (Extends-bytes h (b ∷ t), (k.0, get_elem?-last h.bytes (b ∷ t)))

    pub clone_bytes-BytesAt :
        (h : Heap L) (o : Option ℕ) (t : Text)
        → HasSizes n h
        → BytesAt m h o t
        → Extends h (clone_bytes o h).1 × BytesAt n (clone_bytes o h).1 (clone_bytes o h).0 t
    unfolding clone_bytes
    clone_bytes-BytesAt h none t k b = (Extends-refl h, b)
    clone_bytes-BytesAt h (some a) t k (_, b) = rw b (copy_bytes-BytesAt h t k)

    clone_each-EachAt :
        (h : Heap L) (os : List (Option ℕ)) (ts : List Text)
        → HasSizes n h
        → EachAt m h os ts
        → Extends h (clone_each os h).1 × EachAt n (clone_each os h).1 (clone_each os h).0 ts
    unfolding clone_each
    clone_each-EachAt h [] [] k x = (Extends-refl h, tt)
    clone_each-EachAt h [] (t ∷ ts) k x = elim x [ ]
    clone_each-EachAt h (o ∷ os) [] k x = elim x [ ]
    clone_each-EachAt h (o ∷ os) (t ∷ ts) k (b, x) =
        let (e, b') = clone_bytes-BytesAt h o t k b in
        let (f, x') =
          clone_each-EachAt (clone_bytes o h).1 os ts (HasSizes-Extends n e k)
            (EachAt-Extends m os ts e x) in
        (Extends-trans e f, (BytesAt-Extends n (clone_bytes o h).0 t f b', x'))

    slices_at-EachAt :
        (h : Heap L) (o : Option ℕ) (ts : List Text)
        → SlicesAt m h o ts
        → EachAt m h (slices_at o h) ts
    unfolding slices_at
    slices_at-EachAt h none ts x = rw x tt
    slices_at-EachAt h (some a) ts (_, os, q, x) =
        subst
          (λ (r : Option (List (Option ℕ))). EachAt m h (elim r [ none ↦ [] | some os ↦ os ]) ts)
          (sym q) x

    pub clone_byte_slices-SlicesAt :
        (h : Heap L) (o : Option ℕ) (ts : List Text)
        → HasSizes n h
        → SlicesAt m h o ts
        → Extends h (clone_byte_slices o h).1
          × SlicesAt n (clone_byte_slices o h).1 (clone_byte_slices o h).0 ts
    unfolding clone_byte_slices slices_at
    clone_byte_slices-SlicesAt h o ts k x =
        let (e, x') = clone_each-EachAt h (slices_at o h) ts k (slices_at-EachAt h o ts x) in
        let h1 = (clone_each (slices_at o h) h).1 in
        let os = (clone_each (slices_at o h) h).0 in
        let f = Extends-slices h1 os in
        (
          Extends-trans e f,
          (
            (HasSizes-Extends n e k).1,
            os,
            get_elem?-last h1.slices os,
            EachAt-Extends n os ts f x',
          ),
        )

    pub clone_leaf-LeafAt :
        (h : Heap L) (o : Option ℕ) (v : Option (Leaf L))
        → HasSizes n h
        → LeafAt m h o v
        → Extends h (clone_leaf o h).1 × LeafAt n (clone_leaf o h).1 (clone_leaf o h).0 v
    unfolding clone_leaf
    clone_leaf-LeafAt h none v k x = (Extends-refl h, x)
    clone_leaf-LeafAt h (some a) v k (_, l, q, x) =
        rw q (unfold copy_leaf in (Extends-leaves h l, (k.2, l, get_elem?-last h.leaves l, x)))
