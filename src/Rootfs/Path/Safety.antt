-- ===== src/Rootfs/Path/Safety.antt =====
-- A layer's path never leaves its volume.
use sysbox.Prelude.{
  ◌⊎◌, ◌≡◌, refl, sym, ap, append-nil, ◌∙◌, true, false, ◌||◌, List, [], ◌∷◌, ◌++◌, arith,
  Bool-cases, inl, inr, any, All, Result, ok, >>=-eq-ok,
}
use sysbox.Go.Strings.{Text, text_eq, text_eq_iff, text_eq_sym, blank, has_prefix, contains}
use sysbox.Go.Strings.Split.{split, join, split-join}
use sysbox.Go.Filepath.{slash, dot, dot_dot, is_abs, show_path, elements, clean, join_path, abs}
use sysbox.Go.Filepath.Normal.{is_up, elements-Lacks}
use sysbox.Go.Filepath.Clean.{clean_lem, elements-clean, is_abs-clean}
use sysbox.Go.Filepath.Inside.{is_abs-join_path, elements-join_path-clean, elements-join_path_nil}
use sysbox.Rootfs.Path.{safe_layer_path, safe_join}

any_eq : (es : List Text) → any (text_eq dot_dot) es ≡ any is_up es
unfolding any
any_eq [] = refl
any_eq (e ∷ es) = ground (arith, any_eq es, text_eq_sym dot_dot e)

contains-split :
    (es : List Text)
    → All (λ e. sysbox.Go.Strings.Split.Lacks slash e) es
    → contains (split slash (show_path false es)) dot_dot ≡ any is_up es
unfolding show_path contains
contains-split [] l = unfold split any text_eq in refl
contains-split (e ∷ es) l = rw (split-join slash e es l) (any_eq (e ∷ es))

-- The test of the code for `..` in a cleaned relative path, on the path's elements.
pub contains_up-clean :
    (p : Text)
    → is_abs p ≡ false
    → contains (split slash (clean p)) dot_dot ≡ any is_up (elements p)
contains_up-clean p h = rw (clean_lem p, h) (contains-split (elements p) (elements-Lacks p))

elements-blank : (p : Text) → (blank p || text_eq p dot) ≡ true → elements p ≡ []
elements-blank [] h = unfold elements split in refl
elements-blank (c ∷ p) h =
    ap elements ((text_eq_iff (c ∷ p) dot).0 h) ∙ (unfold elements split text_eq in refl)

elements-dot : (p : Text) → text_eq (clean p) dot ≡ true → elements p ≡ []
elements-dot p h =
    sym (elements-clean p)
    ∙ ap elements ((text_eq_iff (clean p) dot).0 h)
    ∙ (unfold elements split text_eq in refl)

-- What an accepted path is: the empty path, or the cleaned path, with no `..` in it.
pub safe_layer_path-cases :
    (p c : Text)
    → safe_layer_path p ≡ ok c
    → (any is_up (elements p) ≡ false)
      × (((c ≡ []) × (elements p ≡ [])) ⊎ ((c ≡ clean p) × (is_abs p ≡ false)))
unfolding safe_layer_path
safe_layer_path-cases p c h = elim (Bool-cases (blank p || text_eq p dot)) [
  | inl b ↦ rw (elements-blank p b) (unfold any in refl, inl (ground arith, refl))
  | inr b ↦ elim (Bool-cases (text_eq (clean p) dot)) [
    | inl d ↦ rw (elements-dot p d) (unfold any in refl, inl (ground arith, refl))
    | inr d ↦ ground (arith, contains_up-clean p)
  ]
]

abs-join_path :
    (cwd : Result Text) (root c joined : Text)
    → is_abs root ≡ true
    → abs cwd (join_path (root ∷ c ∷ [])) ≡ ok joined
    → (is_abs joined ≡ true) × (elements joined ≡ elements (join_path (root ∷ c ∷ [])))
unfolding abs
abs-join_path cwd root c joined r h =
    let q : clean (join_path (root ∷ c ∷ [])) ≡ joined =
      ground (arith, is_abs-join_path root c r) in
    rw (← q) (
      is_abs-clean (join_path (root ∷ c ∷ [])) ∙ is_abs-join_path root c r,
      elements-clean (join_path (root ∷ c ∷ [])),
    )

elements-joined :
    (root path c : Text)
    → is_abs root ≡ true
    → any is_up (elements path) ≡ false
    → ((c ≡ []) × (elements path ≡ [])) ⊎ ((c ≡ clean path) × (is_abs path ≡ false))
    → elements (join_path (root ∷ c ∷ [])) ≡ elements root ++ elements path
elements-joined root path c r up (inl (nil, none_left)) =
    rw (nil, none_left) (elements-join_path_nil root r ∙ sym (append-nil (elements root)))
elements-joined root path c r up (inr (q, relative)) =
    rw q (elements-join_path-clean root path r relative up)

-- An accepted path is joined behind its root: for an absolute root, the result is absolute, its
-- elements are those of the root and then those of the path, and none of the latter is `..`.
pub safe_join-IsBelow :
    (cwd : Result Text) (root path joined : Text)
    → is_abs root ≡ true
    → safe_join cwd root path ≡ ok joined
    → (is_abs joined ≡ true)
      × (elements joined ≡ elements root ++ elements path)
      × (any is_up (elements path) ≡ false)
unfolding safe_join
safe_join-IsBelow cwd root path joined r h =
    let (c, e, rest) = >>=-eq-ok (safe_layer_path path) _ h in
    let (up, form) = safe_layer_path-cases path c e in
    let j = abs-join_path cwd root c joined r rest in
    (j.0, j.1 ∙ elements-joined root path c r up form, up)
