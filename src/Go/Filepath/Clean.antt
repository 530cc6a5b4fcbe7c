-- ===== src/Go/Filepath/Clean.antt =====
-- `clean` is idempotent, and what its result says of `..` at the front of a path.
use sysbox.Prelude.{
  ◌≡◌, refl, sym, ◌∙◌, Bool, true, false, ◌||◌, List, [], ◌∷◌, arith, Bool-cases, inl, inr, All,
  any, any-rev_onto, rev, rev_onto, rev-rev,
}
use sysbox.Go.Strings.{Text, text_eq, blank}
use sysbox.Go.Strings.Split.{split, join, Lacks, split-join}
use sysbox.Go.Filepath.{slash, is_abs, add_element, clean_from, elements, show_path, clean}
use sysbox.Go.Filepath.Normal.{
  is_up, IsNormal, kept, kept-IsNormal, clean_from-eq, rev_onto-IsNormal, elements-Lacks,
}

is_abs-join :
    (e : Text) (es : List Text)
    → blank e ≡ false
    → Lacks slash e
    → is_abs (join slash (e ∷ es)) ≡ false
unfolding is_abs join
is_abs-join [] es b l = absurd (ground arith)
is_abs-join (c ∷ e) [] b l = ground arith
is_abs-join (c ∷ e) (d ∷ es) b l = ground arith

is_abs-show_path :
    (rooted : Bool) (es : List Text)
    → IsNormal rooted (rev es)
    → is_abs (show_path rooted es) ≡ rooted
unfolding show_path is_abs
is_abs-show_path true es h = refl
is_abs-show_path false [] h = refl
is_abs-show_path false (e ∷ es) h =
    let (name, _, _) = rev_onto-IsNormal false es (e ∷ []) h in is_abs-join e es name.0 name.2

clean_from-blank :
    (rooted : Bool) (es : List Text) → clean_from rooted [] ([] ∷ es) ≡ clean_from rooted [] es
unfolding clean_from add_element
clean_from-blank rooted es = refl

clean_from-show_path :
    (rooted : Bool) (es : List Text)
    → IsNormal rooted (rev es)
    → All (Lacks slash) es
    → clean_from rooted [] (split slash (show_path rooted es)) ≡ rev es
unfolding show_path
clean_from-show_path true [] h l = unfold split join clean_from add_element in refl
clean_from-show_path false [] h l = unfold split clean_from add_element text_eq in refl
clean_from-show_path false (e ∷ es) h l =
    rw (split-join slash e es l) (clean_from-eq false [] (e ∷ es) h)
clean_from-show_path true (e ∷ es) h l =
    unfold split in
    rw (split-join slash e es l, clean_from-blank true (e ∷ es)) (clean_from-eq true [] (e ∷ es) h)

-- A path in normal form is read back from its text.
pub elements-show_path :
    (rooted : Bool) (es : List Text)
    → IsNormal rooted (rev es)
    → All (Lacks slash) es
    → elements (show_path rooted es) ≡ es
unfolding elements
elements-show_path rooted es h l =
    rw (is_abs-show_path rooted es h, clean_from-show_path rooted es h l) (rev-rev es)

pub elements-IsNormal : (p : Text) → IsNormal (is_abs p) (rev (elements p))
unfolding elements
elements-IsNormal p = rw (rev-rev (kept p)) (kept-IsNormal p)

pub elements-clean : (p : Text) → elements (clean p) ≡ elements p
unfolding clean
elements-clean p =
    elements-show_path (is_abs p) (elements p) (elements-IsNormal p) (elements-Lacks p)

pub is_abs-clean : (p : Text) → is_abs (clean p) ≡ is_abs p
unfolding clean
is_abs-clean p = is_abs-show_path (is_abs p) (elements p) (elements-IsNormal p)

pub clean_lem : (p : Text) → clean p ≡ show_path (is_abs p) (elements p)
unfolding clean
clean_lem p = refl

-- Cleaning a cleaned path changes nothing.
pub clean-clean : (p : Text) → clean (clean p) ≡ clean p
clean-clean p = cc (clean_lem p, clean_lem (clean p), is_abs-clean p, elements-clean p)

-- Whether the first element is `..`.
abbrev pub head_up : List Text → Bool
head_up [] = false
head_up (e ∷ es) = is_up e

head_up-rev_onto :
    (rooted : Bool) (k acc : List Text)
    → IsNormal rooted k
    → any is_up k ≡ true
    → head_up (rev_onto k acc) ≡ true
unfolding any
head_up-rev_onto rooted [] acc h a = absurd (ground arith)
head_up-rev_onto rooted (e ∷ []) acc h a = ground arith
head_up-rev_onto rooted (e ∷ d ∷ k) acc (n, up, h) a = elim (Bool-cases (is_up d)) [
  | inl u ↦ head_up-rev_onto rooted (d ∷ k) (e ∷ acc) h (rw u)
  | inr f ↦ elim (Bool-cases (is_up e)) [
    | inl u ↦ absurd (ground (arith, (up u).1))
    | inr g ↦ head_up-rev_onto rooted (d ∷ k) (e ∷ acc) h (ground arith)
  ]
]

any-head_up : (es : List Text) → head_up es ≡ true → any is_up es ≡ true
unfolding any
any-head_up [] h = absurd (ground arith)
any-head_up (e ∷ es) h = ground arith

not-head_up : (es : List Text) → any is_up es ≡ false → head_up es ≡ false
unfolding any
not-head_up [] h = refl
not-head_up (e ∷ es) h = ground arith

or_false : (a : Bool) → (a || any is_up []) ≡ a
unfolding any
or_false true = refl
or_false false = refl

any_up-kept : (k : List Text) → any is_up (rev k) ≡ any is_up k
any_up-kept k = any-rev_onto is_up k [] ∙ or_false (any is_up k)

-- A cleaned path holds `..` somewhere only if it begins with it.
pub any_up-elements : (p : Text) → any is_up (elements p) ≡ head_up (elements p)
unfolding elements
any_up-elements p = elim (Bool-cases (any is_up (kept p))) [
  | inl a ↦
      rw (any_up-kept (kept p), a)
        (sym (head_up-rev_onto (is_abs p) (kept p) [] (kept-IsNormal p) a))
  | inr a ↦
      rw (any_up-kept (kept p), a) (sym (not-head_up (rev (kept p)) (any_up-kept (kept p) ∙ a)))
]
