-- ===== src/Admission/Certs/Serial.antt =====
-- The loop that draws a serial number.
use sysbox.Prelude.{
  ℕ, zero, suc, ◌≡◌, refl, Bool, true, List, [], ◌∷◌, ◌++◌, arith, Result, ok, err, Error, ltb,
}
use sysbox.Admission.Certs.{random_serial_number}

-- `n` draws of zero.
abbrev pub zeros : ℕ → List (Result ℕ)
zeros zero = []
zeros (suc n) = ok 0 ∷ zeros n

-- An error, or a positive number.
abbrev pub is_serial : Result ℕ → Bool
is_serial (err e) = true
is_serial (ok n) = ltb 0 n

-- The loop ends at the first draw that is positive or fails, however many zeros come before it, and
-- gives that number or that error; a number that it gives is positive, whatever the draws are.
pub random_serial_number_lem :
    (n serial : ℕ) (e : Error) (draws : List (Result ℕ))
    → (random_serial_number (zeros n ++ ok (suc serial) ∷ draws) ≡ ok (suc serial))
      × (random_serial_number (zeros n ++ err e ∷ draws) ≡ err e)
      × (is_serial (random_serial_number draws) ≡ true)
unfolding random_serial_number
random_serial_number_lem n serial e draws = (first_positive n, first_error n, positive draws)
  where
    first_positive :
        (k : ℕ) → random_serial_number (zeros k ++ ok (suc serial) ∷ draws) ≡ ok (suc serial)
    first_positive zero = ground arith
    first_positive (suc k) = first_positive k

    first_error : (k : ℕ) → random_serial_number (zeros k ++ err e ∷ draws) ≡ err e
    first_error zero = refl
    first_error (suc k) = first_error k

    positive : (ds : List (Result ℕ)) → is_serial (random_serial_number ds) ≡ true
    positive [] = refl
    positive (err e' ∷ ds) = refl
    positive (ok d ∷ ds) = ground (arith, positive ds)
