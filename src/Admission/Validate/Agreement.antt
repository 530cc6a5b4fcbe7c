-- ===== src/Admission/Validate/Agreement.antt =====
-- The webhook and the snapshotter check an entry's path each with a test of its own; the two tests
-- accept the same paths.
use sysbox.Prelude.{
  ◌≡◌, refl, sym, ◌∙◌, Bool, false, ◌||◌, List, [], ◌∷◌, ◌++◌, arith, Bool-cases, inl, inr, any,
  All, is_ok,
}
use sysbox.Go.Strings.{Text, text_eq, text_eq_iff, has_prefix}
use sysbox.Go.Strings.Split.{split, join, Lacks}
use sysbox.Go.Filepath.{slash, dot, dot_dot, is_abs, show_path, elements, clean}
use sysbox.Go.Filepath.Normal.{is_up, elements-Lacks}
use sysbox.Go.Filepath.Clean.{clean_lem, any_up-elements, head_up}
use sysbox.Rootfs.Path.{safe_layer_path}
use sysbox.Rootfs.Path.Safety.{contains_up-clean}
use sysbox.Admission.Validate.{validate_relative_path}

-- `..` or `../…` at the front of a text, as the code tests it.
escapes : Text → Bool
escapes s = text_eq s dot_dot || has_prefix s (dot_dot ++ slash ∷ [])

escapes-name : (e : Text) → Lacks slash e → escapes e ≡ is_up e
unfolding escapes text_eq has_prefix
escapes-name [] l = refl
escapes-name (a ∷ []) l = ground arith
escapes-name (a ∷ b ∷ []) l = ground arith
escapes-name (a ∷ b ∷ c ∷ e) l = ground arith

escapes-append : (e s : Text) → Lacks slash e → escapes (e ++ slash ∷ s) ≡ is_up e
unfolding escapes text_eq has_prefix
escapes-append [] s l = ground arith
escapes-append (a ∷ []) s l = ground arith
escapes-append (a ∷ b ∷ []) s l = ground arith
escapes-append (a ∷ b ∷ c ∷ e) s l = ground arith

escapes-show_path :
    (es : List Text) → All (Lacks slash) es → escapes (show_path false es) ≡ head_up es
unfolding show_path join
escapes-show_path [] l = unfold escapes text_eq has_prefix in refl
escapes-show_path (e ∷ []) (l, _) = escapes-name e l
escapes-show_path (e ∷ d ∷ es) (l, _) = escapes-append e (join slash (d ∷ es)) l

escapes-clean : (p : Text) → is_abs p ≡ false → escapes (clean p) ≡ any is_up (elements p)
escapes-clean p h =
    rw (clean_lem p, h)
      (escapes-show_path (elements p) (elements-Lacks p) ∙ sym (any_up-elements p))

-- The webhook accepts a path exactly when the snapshotter does.
pub validate_relative_path-safe_layer_path :
    (p : Text) → is_ok (validate_relative_path p) ≡ is_ok (safe_layer_path p)
validate_relative_path-safe_layer_path p = elim (Bool-cases (text_eq p dot)) [
  | inl d ↦
      rw ((text_eq_iff p dot).0 d)
        (unfold validate_relative_path safe_layer_path text_eq is_abs clean split in refl)
  | inr d ↦
      unfold validate_relative_path safe_layer_path escapes in
      ground (arith, escapes-clean p, contains_up-clean p)
]
