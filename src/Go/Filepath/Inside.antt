-- ===== src/Go/Filepath/Inside.antt =====
-- A path with no `..` that is joined behind a root stays below it.
use sysbox.Prelude.{
  subst, ◌≡◌, refl, sym, ap, ◌∙◌, append-nil, Bool-cases, inl, inr, any-rev_onto, Bool, true, false,
  List, [], ◌∷◌, ◌++◌, arith, All, any, rev, rev_onto, rev-rev, rev_onto-eq, rev_onto-append,
}
use sysbox.Go.Strings.{Text, text_eq}
use sysbox.Go.Strings.Split.{split, join, Lacks, split-join, split_at_sep}
use sysbox.Go.Filepath.{
  slash, is_abs, add_element, clean_from, elements, show_path, clean, join_path,
}
use sysbox.Go.Filepath.Normal.{is_up, IsName, IsNormal, kept, kept-IsNormal, elements-Lacks}
use sysbox.Go.Filepath.Clean.{elements-clean, elements-IsNormal, is_abs-clean, clean_lem}

-- Whether the elements of one path are the first elements of another.
abbrev pub IsBelow : List Text → List Text → Type 0
IsBelow root es = (more : List Text) × (es ≡ root ++ more)

clean_from-append :
    (rooted : Bool) (k es fs : List Text)
    → clean_from rooted k (es ++ fs) ≡ clean_from rooted (clean_from rooted k es) fs
unfolding clean_from
clean_from-append rooted k [] fs = refl
clean_from-append rooted k (e ∷ es) fs = clean_from-append rooted (add_element rooted k e) es fs

clean_from-names :
    (rooted : Bool) (k es : List Text)
    → All IsName es
    → any is_up es ≡ false
    → clean_from rooted k es ≡ rev_onto es k
unfolding clean_from add_element any
clean_from-names rooted k [] ns u = refl
clean_from-names rooted k (e ∷ es) ((nb, nd, l), ns) u =
    ground (arith, clean_from-names rooted (e ∷ k) es ns)

IsName-rev_onto :
    (rooted : Bool) (k acc : List Text)
    → IsNormal rooted k
    → All IsName acc
    → All IsName (rev_onto k acc)
IsName-rev_onto rooted [] acc h a = a
IsName-rev_onto rooted (e ∷ k) acc h a = IsName-rev_onto rooted k (e ∷ acc) h.2 (h.0, a)

pub elements-IsName : (p : Text) → All IsName (elements p)
unfolding elements
elements-IsName p = IsName-rev_onto (is_abs p) (kept p) [] (kept-IsNormal p) tt

join_path_abs :
    (root c : Text) → is_abs root ≡ true → join_path (root ∷ c ∷ []) ≡ clean (root ++ slash ∷ c)
unfolding join_path join is_abs
join_path_abs [] c h = absurd (ground arith)
join_path_abs (b ∷ root) c h = refl

is_abs-append : (root c : Text) → is_abs root ≡ true → is_abs (root ++ c) ≡ true
unfolding is_abs
is_abs-append [] c h = absurd (ground arith)
is_abs-append (b ∷ root) c h = h

pub is_abs-join_path :
    (root c : Text) → is_abs root ≡ true → is_abs (join_path (root ∷ c ∷ [])) ≡ true
is_abs-join_path root c h =
    rw (join_path_abs root c h, is_abs-clean (root ++ slash ∷ c)) (is_abs-append root (slash ∷ c) h)

-- The elements of a join are those of the root, and then the other path's are added one by one.
elements-join_path :
    (root c : Text)
    → is_abs root ≡ true
    → elements (join_path (root ∷ c ∷ [])) ≡ rev (clean_from true (kept root) (split slash c))
elements-join_path root c h =
    rw (join_path_abs root c h, elements-clean (root ++ slash ∷ c)) (unfolded root c h)
  where
    unfolded :
        (r d : Text)
        → is_abs r ≡ true
        → elements (r ++ slash ∷ d) ≡ rev (clean_from true (kept r) (split slash d))
    unfolded r d k =
        unfold elements in
        rw (is_abs-append r (slash ∷ d) k, k, split_at_sep slash r d)
          (ap rev (clean_from-append true [] (split slash r) (split slash d)))

elements-kept : (p : Text) → elements p ≡ rev (kept p)
unfolding elements
elements-kept p = refl

clean_from-show_path :
    (k es : List Text)
    → All IsName es
    → All (Lacks slash) es
    → any is_up es ≡ false
    → clean_from true k (split slash (show_path false es)) ≡ rev_onto es k
unfolding show_path
clean_from-show_path k [] ns ls u = unfold split clean_from add_element text_eq in refl
clean_from-show_path k (e ∷ es) ns ls u =
    rw (split-join slash e es ls) (clean_from-names true k (e ∷ es) ns u)

-- Behind a root, a relative path with no `..` only adds its elements.
pub elements-join_path-clean :
    (root c : Text)
    → is_abs root ≡ true
    → is_abs c ≡ false
    → any is_up (elements c) ≡ false
    → elements (join_path (root ∷ clean c ∷ [])) ≡ elements root ++ elements c
elements-join_path-clean root c h r u =
    rw
      (
        elements-join_path root (clean c) h,
        clean_lem c,
        r,
        clean_from-show_path (kept root) (elements c) (elements-IsName c) (elements-Lacks c) u,
      )
      (joined root c)
  where
    joined : (a b : Text) → rev (rev_onto (elements b) (kept a)) ≡ elements a ++ elements b
    joined a b = rw (elements-kept a) (both (elements b) (kept a))
      where
        both : (es k : List Text) → rev (rev_onto es k) ≡ rev k ++ es
        both es k = rw (rev_onto-eq es k) (rev_parts es k)
          where
            rev_parts : (fs l : List Text) → rev (rev fs ++ l) ≡ rev l ++ fs
            rev_parts fs l = rw (rev_onto-append (rev fs) l [], rev-rev fs) (rev_onto-eq l fs)

rev_parts : (fs l : List Text) → rev (rev fs ++ l) ≡ rev l ++ fs
rev_parts fs l = rw (rev_onto-append (rev fs) l [], rev-rev fs) (rev_onto-eq l fs)

pub elements-join_path_nil :
    (root : Text) → is_abs root ≡ true → elements (join_path (root ∷ [] ∷ [])) ≡ elements root
elements-join_path_nil root h = rw (elements-join_path root [] h) (blank_element root)
  where
    blank_element : (r : Text) → rev (clean_from true (kept r) (split slash [])) ≡ elements r
    blank_element r = unfold elements split clean_from add_element in refl

-- Behind a root, names that are joined only add themselves.
pub elements-join_path-join :
    (root : Text) (es : List Text)
    → is_abs root ≡ true
    → All IsName es
    → All (Lacks slash) es
    → any is_up es ≡ false
    → elements (join_path (root ∷ join slash es ∷ [])) ≡ elements root ++ es
unfolding join
elements-join_path-join root [] h ns ls u =
    elements-join_path_nil root h ∙ sym (append-nil (elements root))
elements-join_path-join root (e ∷ es) h ns ls u =
    rw
      (
        elements-join_path root (join slash (e ∷ es)) h,
        split-join slash e es ls,
        clean_from-names true (kept root) (e ∷ es) ns u,
        elements-kept root,
        rev_onto-eq (e ∷ es) (kept root),
      )
      (rev_parts (e ∷ es) (kept root))

any_up-IsNormal : (k : List Text) → IsNormal true k → any is_up k ≡ false
unfolding any
any_up-IsNormal [] h = refl
any_up-IsNormal (e ∷ k) (n, up, h) = elim (Bool-cases (is_up e)) [
  | inl u ↦ absurd (ground (arith, (up u).0))
  | inr d ↦ ground (arith, d, any_up-IsNormal k h)
]

-- An absolute path has no `..` once it is clean.
pub any_up-elements_abs : (p : Text) → is_abs p ≡ true → any is_up (elements p) ≡ false
any_up-elements_abs p h = any_up-rev (elements p) (
    any_up-IsNormal (rev (elements p))
      (subst (λ b. IsNormal b (rev (elements p))) h (elements-IsNormal p)))
  where
    any_up-rev : (es : List Text) → any is_up (rev es) ≡ false → any is_up es ≡ false
    any_up-rev es q = unfold any in ground (arith, any-rev_onto is_up es [], q)
