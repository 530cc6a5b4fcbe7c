-- ===== src/Admission/Clone/Apart.antt =====
-- A copy of a certificate holds what the original held, in objects of its own but for the arrays of
-- the parsed certificate.
use sysbox.Prelude.{ℕ, ◌≤◌, ◌≡◌, ◌∙◌, Option, none, some, List, [], ◌∷◌, arith}
use sysbox.Go.Strings.{Text}
use sysbox.Admission.Clone.{
  Leaf, Heap, TlsCertificate, get_elem?, clone_bytes, clone_byte_slices, clone_certificate,
}
use sysbox.Admission.Clone.Heaps.{
  Sizes, Value, sizes, BytesAt, EachAt, SlicesAt, LeafAt, BytesAt-Extends, SlicesAt-Extends,
  LeafAt-Extends, Extends-trans, HasSizes, HasSizes-Extends,
}
use sysbox.Admission.Clone.Copies.{
  clone_bytes-BytesAt, clone_byte_slices-SlicesAt, clone_leaf-LeafAt,
}

module _ {L : Type 0} where
  -- The heaps have the same objects behind `n`; the others may have been written to.
  pub record Agrees (n : Sizes) (h g : Heap L) : Type 0 where
    pub bytes : (i : ℕ) → n.bytes ≤ i → get_elem? g.bytes i ≡ get_elem? h.bytes i
    pub slices : (i : ℕ) → n.slices ≤ i → get_elem? g.slices i ≡ get_elem? h.slices i
    pub leaves : (i : ℕ) → n.leaves ≤ i → get_elem? g.leaves i ≡ get_elem? h.leaves i

  module _ (n : Sizes) {h g : Heap L} (same : Agrees n h g) where
    BytesAt-agrees : (o : Option ℕ) (t : Text) → BytesAt n h o t → BytesAt n g o t
    BytesAt-agrees none t x = x
    BytesAt-agrees (some a) t (k, x) = (k, same.bytes a k ∙ x)

    EachAt-agrees : (os : List (Option ℕ)) (ts : List Text) → EachAt n h os ts → EachAt n g os ts
    EachAt-agrees [] [] x = tt
    EachAt-agrees [] (t ∷ ts) x = elim x [ ]
    EachAt-agrees (o ∷ os) [] x = elim x [ ]
    EachAt-agrees (o ∷ os) (t ∷ ts) (b, x) = (BytesAt-agrees o t b, EachAt-agrees os ts x)

    SlicesAt-agrees : (o : Option ℕ) (ts : List Text) → SlicesAt n h o ts → SlicesAt n g o ts
    SlicesAt-agrees none ts x = x
    SlicesAt-agrees (some a) ts (k, os, q, x) = (k, os, same.slices a k ∙ q, EachAt-agrees os ts x)

    LeafAt-agrees : (o : Option ℕ) (v : Option (Leaf L)) → LeafAt n h o v → LeafAt n g o v
    LeafAt-agrees none v x = x
    LeafAt-agrees (some a) v (k, l, q, x) = (k, l, same.leaves a k ∙ q, x)

  -- In objects behind `n` of the heap, the certificate leads to this value.
  pub record Holds {K : Type 0} (n : Sizes) (h : Heap L) (c : TlsCertificate K) (v : Value L K)
      : Type 0 where
    pub certificate : SlicesAt n h c.certificate v.certificate
    pub private_key : c.private_key ≡ v.private_key
    pub algorithms : BytesAt n h c.algorithms v.algorithms
    pub ocsp_staple : BytesAt n h c.ocsp_staple v.ocsp_staple
    pub timestamps : SlicesAt n h c.timestamps v.timestamps
    pub leaf : LeafAt n h c.leaf v.leaf

  -- A copy of a certificate leads to what the original held when it was made, by objects that are new; so
  -- it still does in every later heap where those objects are as they were, whatever was written to the
  -- others, among them those of the original. Of the parsed certificate only the struct is a new object:
  -- it has the plain fields of the original's, and its slices lead to the same arrays as the original's.
  pub clone_certificate-Holds :
      {K : Type 0} (m : Sizes) (h g : Heap L) (c : TlsCertificate K) (v : Value L K)
      → Holds m h c v
      → Agrees (sizes h) (clone_certificate c h).1 g
      → Holds (sizes h) g (clone_certificate c h).0 v
  unfolding clone_certificate
  clone_certificate-Holds m h g c v x same =
      let n = sizes h in
      let k0 : HasSizes n h = (omega arith, omega arith, omega arith) in
      let (e1, certificate) =
        clone_byte_slices-SlicesAt n m h c.certificate v.certificate k0 x.certificate in
      let h1 = (clone_byte_slices c.certificate h).1 in
      let (e2, algorithms) =
        clone_bytes-BytesAt n m h1 c.algorithms v.algorithms (HasSizes-Extends n e1 k0)
          (BytesAt-Extends m c.algorithms v.algorithms e1 x.algorithms) in
      let h2 = (clone_bytes c.algorithms h1).1 in
      let f2 = Extends-trans e1 e2 in
      let (e3, ocsp_staple) =
        clone_bytes-BytesAt n m h2 c.ocsp_staple v.ocsp_staple (HasSizes-Extends n f2 k0)
          (BytesAt-Extends m c.ocsp_staple v.ocsp_staple f2 x.ocsp_staple) in
      let h3 = (clone_bytes c.ocsp_staple h2).1 in
      let f3 = Extends-trans f2 e3 in
      let (e4, timestamps) =
        clone_byte_slices-SlicesAt n m h3 c.timestamps v.timestamps (HasSizes-Extends n f3 k0)
          (SlicesAt-Extends m c.timestamps v.timestamps f3 x.timestamps) in
      let h4 = (clone_byte_slices c.timestamps h3).1 in
      let f4 = Extends-trans f3 e4 in
      let (e5, leaf) =
        clone_leaf-LeafAt n m h4 c.leaf v.leaf (HasSizes-Extends n f4 k0)
          (LeafAt-Extends m c.leaf v.leaf f4 x.leaf) in
      let late = Extends-trans e4 e5 in
      let copy = (clone_certificate c h).0 in
      record {
        certificate = SlicesAt-agrees n same copy.certificate v.certificate (
            SlicesAt-Extends n copy.certificate v.certificate
              (Extends-trans e2 (Extends-trans e3 late)) certificate);
        private_key = x.private_key;
        algorithms =
            BytesAt-agrees n same copy.algorithms v.algorithms
              (BytesAt-Extends n copy.algorithms v.algorithms (Extends-trans e3 late) algorithms);
        ocsp_staple =
            BytesAt-agrees n same copy.ocsp_staple v.ocsp_staple
              (BytesAt-Extends n copy.ocsp_staple v.ocsp_staple late ocsp_staple);
        timestamps =
            SlicesAt-agrees n same copy.timestamps v.timestamps
              (SlicesAt-Extends n copy.timestamps v.timestamps e5 timestamps);
        leaf = LeafAt-agrees n same copy.leaf v.leaf leaf;
      }
