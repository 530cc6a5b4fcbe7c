-- ===== src/Go/Strings/Split.antt =====
-- `strings.Split` and `strings.Join` at one byte, and their round trips.
use sysbox.Prelude.{
  ℕ, ◌≡◌, ◌≢◌, refl, List, [], ◌∷◌, ◌++◌, arith, ◌==◌, if◌then◌else◌, All, Bool-cases, inl, inr,
}

abbrev Bytes : Type 0
Bytes = List ℕ

-- Put a byte before the first part.
abbrev pub onto : ℕ → List Bytes → List Bytes
onto c [] = (c ∷ []) ∷ []
onto c (p ∷ ps) = (c ∷ p) ∷ ps

unfoldable pub split : ℕ → Bytes → List Bytes
split sep [] = [] ∷ []
split sep (c ∷ s) = let rest = split sep s in if c == sep then [] ∷ rest else onto c rest

unfoldable pub join : ℕ → List Bytes → Bytes
join sep [] = []
join sep (p ∷ []) = p
join sep (p ∷ q ∷ ps) = p ++ sep ∷ join sep (q ∷ ps)

abbrev pub Lacks : ℕ → Bytes → Type 0
Lacks b = All (λ c. c ≢ b)

split-Lacks_self : (sep : ℕ) (p : Bytes) → Lacks sep p → split sep p ≡ p ∷ []
unfolding split
split-Lacks_self sep [] h = refl
split-Lacks_self sep (c ∷ p) (hc, hp) = ground (arith, split-Lacks_self sep p hp)

pub split-append :
    (sep : ℕ) (p s : Bytes) → Lacks sep p → split sep (p ++ sep ∷ s) ≡ p ∷ split sep s
unfolding split
split-append sep [] s h = ground arith
split-append sep (c ∷ p) s (hc, hp) = ground (arith, split-append sep p s hp)

-- Splitting a join gives the parts back, if there is one and none holds the separator.
pub split-join :
    (sep : ℕ) (p : Bytes) (ps : List Bytes)
    → All (Lacks sep) (p ∷ ps)
    → split sep (join sep (p ∷ ps)) ≡ p ∷ ps
unfolding join
split-join sep p [] (h, _) = split-Lacks_self sep p h
split-join sep p (q ∷ ps) (h, hs) =
    rw (split-append sep p (join sep (q ∷ ps)) h, split-join sep q ps hs)

onto-Lacks :
    (sep c : ℕ) (ps : List Bytes) → c ≢ sep → All (Lacks sep) ps → All (Lacks sep) (onto c ps)
onto-Lacks sep c [] h hs = ((h, tt), tt)
onto-Lacks sep c (p ∷ ps) h (hp, hs) = ((h, hp), hs)

-- No part of a split holds the separator.
pub split-Lacks : (sep : ℕ) (s : Bytes) → All (Lacks sep) (split sep s)
unfolding split
split-Lacks sep [] = (tt, tt)
split-Lacks sep (c ∷ s) = elim (Bool-cases (c == sep)) [
  | inl e ↦ rw e (tt, split-Lacks sep s)
  | inr e ↦ rw e (onto-Lacks sep c (split sep s) (ground arith) (split-Lacks sep s))
]

onto-append : (c : ℕ) (ps qs : List Bytes) → ps ≢ [] → onto c (ps ++ qs) ≡ onto c ps ++ qs
onto-append c [] qs h = absurd (h refl)
onto-append c (p ∷ ps) qs h = refl

split-ne-nil : (sep : ℕ) (s : Bytes) → split sep s ≢ []
unfolding split
split-ne-nil sep [] h = cc
split-ne-nil sep (c ∷ s) h = elim (Bool-cases (c == sep)) [
  | inl e ↦ cc (rw e at h)
  | inr e ↦ onto-ne-nil c (split sep s) (rw e at h)
]
  where
    onto-ne-nil : (d : ℕ) (ps : List Bytes) → onto d ps ≢ []
    onto-ne-nil d [] k = cc
    onto-ne-nil d (p ∷ ps) k = cc

-- A separator between two texts cuts them apart, whatever they hold.
pub split_at_sep : (sep : ℕ) (p s : Bytes) → split sep (p ++ sep ∷ s) ≡ split sep p ++ split sep s
unfolding split
split_at_sep sep [] s = ground arith
split_at_sep sep (c ∷ p) s =
    ground
      (arith, split_at_sep sep p s, onto-append c (split sep p) (split sep s) (split-ne-nil sep p))
