-- ===== src/Admission/Validate/Special.antt =====
-- Which special paths the webhook accepts.
use sysbox.Prelude.{
  ◌≡◌, ◌≢◌, refl, sym, ap, ◌∙◌, true, false, ◌||◌, List, [], ◌∷◌, ◌++◌, arith, any, All, map,
  Result, ok, err, errorf, fail_if, context, >>=-eq-ok, append_assoc, append-nil,
}
use sysbox.Go.Strings.{
  Text, codes, has_prefix, has_prefix-append, text_eq, text_eq_sym, text_eq_refl,
}
use sysbox.Go.Strings.Split.{join}
use sysbox.Go.Filepath.{slash, is_abs, elements, show_path, clean}
use sysbox.Go.Filepath.Clean.{elements-clean, is_abs-clean, clean-clean, clean_lem}
use sysbox.Go.Filepath.Inside.{IsBelow}
use sysbox.Admission.Validate.{
  paths_overlap, validate_special_path, validate_special_paths, builtin_special_paths,
}

-- The elements of the directories that the webhook reserves.
abbrev pub reserved_directories : List (List Text)
reserved_directories =
    (codes "var" ∷ codes "lib" ∷ codes "docker" ∷ [])
    ∷ (codes "var" ∷ codes "lib" ∷ codes "kubelet" ∷ [])
    ∷ (codes "var" ∷ codes "lib" ∷ codes "k0s" ∷ [])
    ∷ (codes "var" ∷ codes "lib" ∷ codes "rancher" ∷ codes "k3s" ∷ [])
    ∷ (codes "var" ∷ codes "lib" ∷ codes "rancher" ∷ codes "rke2" ∷ [])
    ∷ (codes "var" ∷ codes "lib" ∷ codes "buildkit" ∷ [])
    ∷ (codes "var"
        ∷ codes "lib"
        ∷ codes "containerd"
        ∷ codes "io.containerd.snapshotter.v1.overlayfs"
        ∷ [])
    ∷ []

-- Of two directories by their elements, neither is the other one or contains it.
abbrev pub AreApart : List Text → List Text → Type 0
AreApart es fs = (IsBelow es fs → ⊥) × (IsBelow fs es → ⊥)

-- An absolute path, not the root, whose directory is apart from others.
abbrev pub IsFarFrom : List (List Text) → Text → Type 0
IsFarFrom others p = (is_abs p ≡ true) × (elements p ≢ []) × All (AreApart (elements p)) others

-- Every directory of the list is apart from the later ones.
abbrev pub IsApart : List (List Text) → Type 0
IsApart [] = Unit
IsApart (es ∷ rest) = All (AreApart es) rest × IsApart rest

-- A path as `clean` gives it, absolute and not the root.
abbrev IsPlain : Text → Type 0
IsPlain p = (is_abs p ≡ true) × (elements p ≢ []) × (clean p ≡ p)

join-append :
    (e : Text) (es : List Text) (f : Text) (fs : List Text)
    → join slash ((e ∷ es) ++ f ∷ fs) ≡ join slash (e ∷ es) ++ slash ∷ join slash (f ∷ fs)
unfolding join
join-append e [] f fs = refl
join-append e (e' ∷ es) f fs =
    ap (λ x. e ++ slash ∷ x) (join-append e' es f fs)
    ∙ sym (append_assoc e (slash ∷ join slash (e' ∷ es)) (slash ∷ join slash (f ∷ fs)))

-- The path of a directory overlaps those of all that lie in it.
below-overlaps :
    (es fs : List Text)
    → es ≢ []
    → IsBelow es fs
    → paths_overlap (show_path true es) (show_path true fs) ≡ true
unfolding paths_overlap show_path
below-overlaps [] fs h below = absurd (h refl)
below-overlaps (e ∷ es) fs h ([], same) = rw (same, append-nil (e ∷ es)) (equal _)
  where
    equal :
        (p : Text)
        → (text_eq p p || (has_prefix p (p ++ slash ∷ []) || has_prefix p (p ++ slash ∷ []))) ≡ true
    equal p = ground (arith, text_eq_refl p)
below-overlaps (e ∷ es) fs h (f ∷ more, same) =
    rw (same, join-append e es f more)
      (longer (slash ∷ join slash (e ∷ es)) (join slash (f ∷ more)))
  where
    longer :
        (p q : Text)
        → (text_eq p (p ++ slash ∷ q)
            || (has_prefix p ((p ++ slash ∷ q) ++ slash ∷ [])
                || has_prefix (p ++ slash ∷ q) (p ++ slash ∷ [])))
          ≡ true
    longer p q =
        ground (arith, append_assoc p (slash ∷ []) q, has_prefix-append (p ++ slash ∷ []) q)

paths_overlap_comm : (p q : Text) → paths_overlap p q ≡ paths_overlap q p
unfolding paths_overlap
paths_overlap_comm p q = ground (arith, text_eq_sym p q)

below-paths_overlap :
    (p q : Text)
    → is_abs p ≡ true
    → is_abs q ≡ true
    → elements p ≢ []
    → IsBelow (elements p) (elements q)
    → paths_overlap (clean p) (clean q) ≡ true
below-paths_overlap p q a b h below =
    rw (clean_lem p, clean_lem q, a, b) (below-overlaps (elements p) (elements q) h below)

AreApart-paths_overlap :
    (p t : Text)
    → is_abs p ≡ true
    → elements p ≢ []
    → IsPlain t
    → paths_overlap (clean p) t ≡ false
    → AreApart (elements p) (elements t)
AreApart-paths_overlap p t a h (b, k, plain) o = (
  (λ below. absurd (ground (arith, below-paths_overlap p t a b h below, plain, o))),
  (λ below. absurd (
      ground
        (arith, below-paths_overlap t p b a k below, plain, o, paths_overlap_comm t (clean p)))),
)

far_from_taken :
    (p : Text) (taken : List Text)
    → is_abs p ≡ true
    → elements p ≢ []
    → All IsPlain taken
    → any (paths_overlap (clean p)) taken ≡ false
    → All (AreApart (elements p)) (map elements taken)
unfolding any
far_from_taken p [] a h plain o = tt
far_from_taken p (t ∷ taken) a h (plain, rest) o = (
  AreApart-paths_overlap p t a h plain (ground (arith, o)),
  far_from_taken p taken a h rest (ground (arith, o)),
)

All-snoc {ℓ} :
    {A : Type ℓ} (P : A → Type 0) (xs : List A) (x : A) → All P xs → P x → All P (xs ++ x ∷ [])
All-snoc P [] x h k = (k, tt)
All-snoc P (y ∷ xs) x (h, hs) k = (h, All-snoc P xs x hs k)

All-unsnoc :
    (P : List Text → Type 0) (taken : List Text) (t : Text)
    → All P (map elements (taken ++ t ∷ []))
    → All P (map elements taken) × P (elements t)
All-unsnoc P [] t (k, _) = (tt, k)
All-unsnoc P (u ∷ taken) t (h, hs) = let (rest, k) = All-unsnoc P taken t hs in ((h, rest), k)

-- What is far from a list with one more path is far from the list, and that path's directory is apart
-- from all of them.
IsFarFrom-snoc :
    (taken : List Text) (t : Text) (ps : List Text)
    → All (IsFarFrom (map elements (taken ++ t ∷ []))) ps
    → All (IsFarFrom (map elements taken)) ps × All (AreApart (elements t)) (map elements ps)
IsFarFrom-snoc taken t [] h = (tt, tt)
IsFarFrom-snoc taken t (p ∷ ps) ((a, h, far), rest) =
    let (before, last) = All-unsnoc (AreApart (elements p)) taken t far in
    let (others, later) = IsFarFrom-snoc taken t ps rest in
    (((a, h, before), others), ((last.1, last.0), later))

validate_special_path-ok :
    (p c : Text)
    → validate_special_path p ≡ ok c
    → (is_abs p ≡ true) × (text_eq (clean p) (slash ∷ []) ≡ false) × (c ≡ clean p)
unfolding validate_special_path
validate_special_path-ok p c h = ground arith

not_root : (p : Text) → is_abs p ≡ true → text_eq (clean p) (slash ∷ []) ≡ false → elements p ≢ []
not_root p a h e = absurd (ground (arith, h, slash_clean, text_eq_refl (slash ∷ [])))
  where
    slash_clean : clean p ≡ slash ∷ []
    slash_clean = rw (clean_lem p, a, e) (unfold show_path join in refl)

-- One step of the loop.
accepted :
    (taken : List Text) (p : Text) (ps : List Text)
    → validate_special_paths taken (p ∷ ps) ≡ ok tt
    → (is_abs p ≡ true)
      × (elements p ≢ [])
      × (any (paths_overlap (clean p)) taken ≡ false)
      × (validate_special_paths (taken ++ clean p ∷ []) ps ≡ ok tt)
unfolding validate_special_paths
accepted taken p ps h =
    let (c, e, rest) =
      >>=-eq-ok (context "container %s specialPath %q invalid" (validate_special_path p)) _ h in
    let (a, n, q) = validate_special_path-ok p c (unwrap (validate_special_path p) e) in
    let (_, f, last) =
      >>=-eq-ok
        (fail_if (any (paths_overlap c) taken) (errorf "container %s specialPath %q overlaps %q")) _
        rest in
    (a, not_root p a n, ground (arith, f, q), rw (← q) last)
  where
    unwrap :
        (r : Result Text) {c : Text}
        → context "container %s specialPath %q invalid" r ≡ ok c
        → r ≡ ok c
    unwrap (ok x) h = h
    unwrap (err x) h = absurd (ground arith)

validate_special_paths-IsApart :
    (taken ps : List Text)
    → All IsPlain taken
    → validate_special_paths taken ps ≡ ok tt
    → All (IsFarFrom (map elements taken)) ps × IsApart (map elements ps)
validate_special_paths-IsApart taken [] plain h = (tt, tt)
validate_special_paths-IsApart taken (p ∷ ps) plain h =
    let (a, n, o, rest) = accepted taken p ps h in
    let plain_p : IsPlain (clean p) =
      (is_abs-clean p ∙ a, rw (elements-clean p) n, clean-clean p) in
    let (far, apart) =
      validate_special_paths-IsApart (taken ++ clean p ∷ []) ps
        (All-snoc IsPlain taken (clean p) plain plain_p) rest in
    let (others, later) = IsFarFrom-snoc taken (clean p) ps far in
    (((a, n, far_from_taken p taken a n plain o), others), (rw (elements-clean p) at later, apart))

IsPlain-builtin : All IsPlain builtin_special_paths
unfolding clean elements show_path is_abs join sysbox.Go.Strings.Split.split text_eq
IsPlain-builtin = (
  (refl, ground arith, refl),
  (
    (refl, ground arith, refl),
    (
      (refl, ground arith, refl),
      (
        (refl, ground arith, refl),
        (
          (refl, ground arith, refl),
          ((refl, ground arith, refl), ((refl, ground arith, refl), tt)),
        ),
      ),
    ),
  ),
)

reserved_directories_lem : map elements builtin_special_paths ≡ reserved_directories
unfolding elements sysbox.Go.Strings.Split.split text_eq
reserved_directories_lem = refl

-- The special paths that the webhook accepts are absolute and not the root, and by the elements of the
-- paths none of them is, contains or lies in one of the seven directories that the webhook
-- reserves, or another one of them.
pub validate_special_paths_lem :
    (paths : List Text)
    → validate_special_paths builtin_special_paths paths ≡ ok tt
    → All (IsFarFrom reserved_directories) paths × IsApart (map elements paths)
validate_special_paths_lem paths h =
    let (far, apart) =
      validate_special_paths-IsApart builtin_special_paths paths IsPlain-builtin h in
    (rw reserved_directories_lem at far, apart)
