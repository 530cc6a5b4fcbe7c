-- ===== src/Action.antt =====
-- Actions: functions of the state of the world outside the program, with the error that they may
-- return. Where a Go function looks at an error itself, the model passes the result to a helper.
use sysbox.Prelude.{◌≡◌, refl, arith, Result, ok, err, Error, wrap, String}

abbrev pub Action {ℓ} : Type ℓ → Type ℓ → Type ℓ
Action S A = S → Result A × S

module _ {ℓ} {S A : Type ℓ} where
  abbrev pub pure : A → Action S A
  pure a s = (ok a, s)

  abbrev pub fail : Error → Action S A
  fail e s = (err e, s)

  abbrev pub in_context : String → Action S A → Action S A
  in_context m act s = let (r, t) = act s in (add_context r, t)
    where
      add_context : Result A → Result A
      add_context (ok a) = ok a
      add_context (err e) = err (wrap m e)

module _ {ℓ} {S A B : Type ℓ} where
  abbrev pub continue : Result A → (A → Action S B) → Action S B
  continue (ok a) f s = f a s
  continue (err e) f s = (err e, s)

  infixl 5 ◌>>=◌ ◌>>◌
  abbrev pub ◌>>=◌ : Action S A → (A → Action S B) → Action S B
  ◌>>=◌ m f s = let (r, t) = m s in continue r f t

  abbrev pub ◌>>◌ : Action S A → Action S B → Action S B
  m >> n = m >>= λ _. n

  -- Inversion of a successful bind: `r` is the result of its first action, `t` the state behind it.
  pub continue-eq-ok :
      (r : Result A) (f : A → Action S B) (t : S) {b : B}
      → (continue r f t).0 ≡ ok b
      → (a : A) × (r ≡ ok a) × ((f a t).0 ≡ ok b)
  continue-eq-ok (ok a) f t h = (a, refl, h)
  continue-eq-ok (err e) f t h = absurd (ground arith)

  -- The same of two actions, with the state between them.
  pub >>=-eq-ok :
      (m : Action S A) (f : A → Action S B) (s : S) {b : B}
      → ((m >>= f) s).0 ≡ ok b
      → (a : A) × (t : S) × ((m s).0 ≡ ok a) × ((f a t).0 ≡ ok b)
  >>=-eq-ok m f s h = let (a, q, rest) = continue-eq-ok (m s).0 f (m s).1 h in (a, (m s).1, q, rest)

  continue_ok :
      (r : Result A) (f : A → Action S B) (t : S) {a : A} → r ≡ ok a → continue r f t ≡ f a t
  continue_ok r f t h = rw h refl

  -- A successful bind is its second action, run on the result and the state of its first.
  pub >>=-run_ok :
      (m : Action S A) (f : A → Action S B) (s : S) {b : B}
      → ((m >>= f) s).0 ≡ ok b
      → (a : A) × ((m s).0 ≡ ok a) × ((m >>= f) s ≡ f a (m s).1)
  >>=-run_ok m f s h =
      let (a, q, rest) = continue-eq-ok (m s).0 f (m s).1 h in
      (a, q, continue_ok (m s).0 f (m s).1 q)

-- A context changes errors only.
pub in_context-eq-ok {ℓ} :
    {S A : Type ℓ} (m : String) (act : Action S A) (s : S) {a : A}
    → (in_context m act s).0 ≡ ok a
    → (act s).0 ≡ ok a
in_context-eq-ok m act s h = ground arith
