-- ===== src/Go/Filepath/Normal.antt =====
-- The form of a cleaned path: its elements are proper names, with `..` at the front of a path with
-- no root only. So cleaning twice changes nothing.
use sysbox.Prelude.{
  ◌≡◌, refl, sym, ap, Bool, true, false, ◌||◌, List, [], ◌∷◌, arith, Bool-cases, inl, inr, All,
  rev_onto,
}
use sysbox.Go.Strings.{Text, text_eq, text_eq_iff, blank}
use sysbox.Go.Strings.Split.{split, Lacks, split-Lacks}
use sysbox.Go.Filepath.{slash, dot, dot_dot, is_abs, go_up, add_element, clean_from, elements}

abbrev pub is_up : Text → Bool
is_up e = text_eq e dot_dot

-- An element that cleaning keeps.
abbrev pub IsName : Text → Type 0
IsName e = (blank e ≡ false) × (text_eq e dot ≡ false) × Lacks slash e

abbrev pub AllUp : List Text → Type 0
AllUp = All (λ e. is_up e ≡ true)

-- Of the kept elements, the last one first.
abbrev pub IsNormal : Bool → List Text → Type 0
IsNormal rooted [] = Unit
IsNormal rooted (e ∷ k) =
    IsName e × (is_up e ≡ true → (rooted ≡ false) × AllUp k) × IsNormal rooted k

dot_dot-IsName : IsName dot_dot
unfolding text_eq
dot_dot-IsName = (refl, refl, omega arith)

go_up-IsNormal :
    (rooted : Bool) (k : List Text) → IsNormal rooted k → IsNormal rooted (go_up rooted k)
unfolding go_up
go_up-IsNormal true [] h = tt
go_up-IsNormal false [] h = (dot_dot-IsName, (λ _. (refl, tt)), tt)
go_up-IsNormal true (e ∷ k) (n, up, h) = elim (Bool-cases (is_up e)) [
  | inl u ↦ absurd (ground (arith, up u))
  | inr d ↦ rw d h
]
go_up-IsNormal false (e ∷ k) (n, up, h) = elim (Bool-cases (is_up e)) [
  | inl u ↦ rw u (dot_dot-IsName, (λ _. (refl, (u, (up u).1))), (n, up, h))
  | inr d ↦ rw d h
]

add_element-IsNormal :
    (rooted : Bool) (k : List Text) (e : Text)
    → Lacks slash e
    → IsNormal rooted k
    → IsNormal rooted (add_element rooted k e)
unfolding add_element
add_element-IsNormal rooted k e l h = elim (Bool-cases (blank e || text_eq e dot)) [
  | inl b ↦ rw b h
  | inr b ↦ rw b (elim (Bool-cases (is_up e)) [
    | inl u ↦ rw u (go_up-IsNormal rooted k h)
    | inr d ↦ rw d ((ground arith, ground arith, l), (λ u. absurd (ground arith)), h)
  ])
]

pub clean_from-IsNormal :
    (rooted : Bool) (k es : List Text)
    → All (Lacks slash) es
    → IsNormal rooted k
    → IsNormal rooted (clean_from rooted k es)
unfolding clean_from
clean_from-IsNormal rooted k [] ls h = h
clean_from-IsNormal rooted k (e ∷ es) (l, ls) h =
    clean_from-IsNormal rooted (add_element rooted k e) es ls (add_element-IsNormal rooted k e l h)

-- The kept elements of a path.
abbrev pub kept : Text → List Text
kept p = clean_from (is_abs p) [] (split slash p)

pub kept-IsNormal : (p : Text) → IsNormal (is_abs p) (kept p)
kept-IsNormal p = clean_from-IsNormal (is_abs p) [] (split slash p) (split-Lacks slash p) tt

-- Cleaning keeps an element that leaves a normal form normal.
AllUp-go_up : (k : List Text) → AllUp k → go_up false k ≡ dot_dot ∷ k
unfolding go_up
AllUp-go_up [] h = refl
AllUp-go_up (e ∷ k) (u, h) = rw u

add_element-eq :
    (rooted : Bool) (k : List Text) (e : Text)
    → IsNormal rooted (e ∷ k)
    → add_element rooted k e ≡ e ∷ k
unfolding add_element
add_element-eq rooted k e ((nb, nd, l), up, h) =
    rw (nb, nd)
      (elim (Bool-cases (is_up e)) [
        | inl u ↦
            rw (u, (up u).0, AllUp-go_up k (up u).1) (ap (λ x. x ∷ k) (sym ((text_eq_iff e _).0 u)))
        | inr d ↦ rw d
      ])

pub rev_onto-IsNormal :
    (rooted : Bool) (es k : List Text) → IsNormal rooted (rev_onto es k) → IsNormal rooted k
rev_onto-IsNormal rooted [] k h = h
rev_onto-IsNormal rooted (e ∷ es) k h = (rev_onto-IsNormal rooted es (e ∷ k) h).2

pub clean_from-eq :
    (rooted : Bool) (k es : List Text)
    → IsNormal rooted (rev_onto es k)
    → clean_from rooted k es ≡ rev_onto es k
unfolding clean_from
clean_from-eq rooted k [] h = refl
clean_from-eq rooted k (e ∷ es) h =
    rw (add_element-eq rooted k e (rev_onto-IsNormal rooted es (e ∷ k) h))
      (clean_from-eq rooted (e ∷ k) es h)

-- The elements of a path in order, with what they lack.
IsName-Lacks :
    (rooted : Bool) (k acc : List Text)
    → IsNormal rooted k
    → All (Lacks slash) acc
    → All (Lacks slash) (rev_onto k acc)
IsName-Lacks rooted [] acc h a = a
IsName-Lacks rooted (e ∷ k) acc h a = IsName-Lacks rooted k (e ∷ acc) h.2 (h.0.2, a)

pub elements-Lacks : (p : Text) → All (Lacks slash) (elements p)
unfolding elements
elements-Lacks p = IsName-Lacks (is_abs p) (kept p) [] (kept-IsNormal p) tt
