-- ===== src/Prelude/Lists.antt =====
-- Lists over the native numbers, quantifiers over a list, and lemmas on them.
use Prim.Native.Nat.{ℕ, zero, suc, ◌+◌}
use mathlib.Core.Bool.{Bool, true, false, ◌&&◌, ◌||◌}
use mathlib.Core.List.{List, [], ◌∷◌, ◌++◌, append-nil}
use mathlib.Core.Option.{Option, none, some}
use mathlib.Core.Path.{◌≡◌, refl}
use native.Mathlib.Omega.{arith}
use sysbox.Prelude.Tests.{if◌then◌else◌}

module _ {ℓ} {A : Type ℓ} where
  abbrev pub length : List A → ℕ
  length [] = 0
  length (x ∷ xs) = suc (length xs)

  abbrev pub is_empty : List A → Bool
  is_empty [] = true
  is_empty (x ∷ xs) = false

  abbrev pub replicate : ℕ → A → List A
  replicate zero a = []
  replicate (suc n) a = a ∷ replicate n a

  -- Whether a test holds of some, or of every, element.
  unfoldable pub any : (A → Bool) → List A → Bool
  any p [] = false
  any p (x ∷ xs) = p x || any p xs

  unfoldable pub all : (A → Bool) → List A → Bool
  all p [] = true
  all p (x ∷ xs) = p x && all p xs

  unfoldable pub keep : (A → Bool) → List A → List A
  keep p [] = []
  keep p (x ∷ xs) = let rest = keep p xs in if p x then x ∷ rest else rest

  unfoldable pub find : (A → Bool) → List A → Option A
  find p [] = none
  find p (x ∷ xs) = if p x then some x else find p xs

  abbrev pub All {κ} : (A → Type κ) → List A → Type κ
  All P [] = Unit
  All P (x ∷ xs) = P x × All P xs

  pub All-append {κ} : (P : A → Type κ) (xs ys : List A) → All P xs → All P ys → All P (xs ++ ys)
  All-append P [] ys _ hy = hy
  All-append P (x ∷ xs) ys (px, hx) hy = (px, All-append P xs ys hx hy)

  pub any-append : (p : A → Bool) (xs ys : List A) → any p (xs ++ ys) ≡ (any p xs || any p ys)
  unfolding any
  any-append p [] ys = refl
  any-append p (x ∷ xs) ys = ground (arith, any-append p xs ys)

  pub keep-append : (p : A → Bool) (xs ys : List A) → keep p (xs ++ ys) ≡ keep p xs ++ keep p ys
  unfolding keep
  keep-append p [] ys = refl
  keep-append p (x ∷ xs) ys = ground (arith, keep-append p xs ys)

  pub keep-keep : (p : A → Bool) (xs : List A) → keep p (keep p xs) ≡ keep p xs
  unfolding keep
  keep-keep p [] = refl
  keep-keep p (x ∷ xs) = ground (arith, keep-keep p xs)

  -- The elements of the first list, the last one first, in front of the second.
  abbrev pub rev_onto : List A → List A → List A
  rev_onto [] k = k
  rev_onto (x ∷ xs) k = rev_onto xs (x ∷ k)

  abbrev pub rev : List A → List A
  rev xs = rev_onto xs []

  rev_onto-rev_onto : (xs k l : List A) → rev_onto (rev_onto xs k) l ≡ rev_onto k (xs ++ l)
  rev_onto-rev_onto [] k l = refl
  rev_onto-rev_onto (x ∷ xs) k l = rev_onto-rev_onto xs (x ∷ k) l

  pub rev-rev : (xs : List A) → rev (rev xs) ≡ xs
  rev-rev xs = rw (rev_onto-rev_onto xs [] []) (append-nil xs)

  pub rev_onto-append : (xs ys k : List A) → rev_onto (xs ++ ys) k ≡ rev_onto ys (rev_onto xs k)
  rev_onto-append [] ys k = refl
  rev_onto-append (x ∷ xs) ys k = rev_onto-append xs ys (x ∷ k)

  pub rev_onto-eq : (xs k : List A) → rev_onto xs k ≡ rev xs ++ k
  rev_onto-eq xs k = cc (rev_onto-rev xs [] k)
    where
      rev_onto-rev : (ys l m : List A) → rev_onto ys (l ++ m) ≡ rev_onto ys l ++ m
      rev_onto-rev [] l m = refl
      rev_onto-rev (y ∷ ys) l m = rev_onto-rev ys (y ∷ l) m

  pub any-rev_onto : (p : A → Bool) (xs k : List A) → any p (rev_onto xs k) ≡ (any p xs || any p k)
  unfolding any
  any-rev_onto p [] k = refl
  any-rev_onto p (x ∷ xs) k = ground (arith, any-rev_onto p xs (x ∷ k))

  pub length-append : (xs ys : List A) → length (xs ++ ys) ≡ length xs + length ys
  length-append [] ys = omega arith
  length-append (x ∷ xs) ys = omega (arith, length-append xs ys)
