-- ===== src/Prelude/Errors.antt =====
-- Go's `error` values and fallible results. `fmt.Errorf` with `%w` is `wrap`, without it `errorf`;
-- an argument of a format is left out, so a message is its format. The sentinels are the values
-- that the code compares with `errors.Is` and the predicates of `apierrors`, `errdefs` and `os`.
use Prim.Native.Nat.{ℕ}
use Prim.Native.String.{String}
use mathlib.Core.Bool.{Bool, true, false}
use mathlib.Core.Option.{Option, none, some}
use mathlib.Core.Path.{◌≡◌, refl}
use native.Mathlib.Omega.{arith}
use sysbox.Prelude.Tests.{◌==◌}

pub data Sentinel : Type 0 where
  context_canceled : Sentinel
  deadline_exceeded : Sentinel
  api_not_found : Sentinel
  api_already_exists : Sentinel
  api_conflict : Sentinel
  containerd_not_found : Sentinel
  os_not_exist : Sentinel
  io_eof : Sentinel
  container_identity_unavailable : Sentinel
  container_identity_incomplete : Sentinel
  rootfs_rw_layer_not_configured : Sentinel
  sidecar_spec_unavailable : Sentinel
  sidecar_spec_ambiguous : Sentinel
  sidecar_spec_malformed : Sentinel
  pvc_mount_not_found : Sentinel
  unsafe_layer_path : Sentinel
  unmanaged_rootfs_layer : Sentinel
  tls_certificate_not_loaded : Sentinel
  incomplete_tls_files : Sentinel
  insecure_http_disabled : Sentinel

abbrev number : Sentinel → ℕ
number context_canceled = 0
number deadline_exceeded = 1
number api_not_found = 2
number api_already_exists = 3
number api_conflict = 4
number containerd_not_found = 5
number os_not_exist = 6
number io_eof = 7
number container_identity_unavailable = 8
number container_identity_incomplete = 9
number rootfs_rw_layer_not_configured = 10
number sidecar_spec_unavailable = 11
number sidecar_spec_ambiguous = 12
number sidecar_spec_malformed = 13
number pvc_mount_not_found = 14
number unsafe_layer_path = 15
number unmanaged_rootfs_layer = 16
number tls_certificate_not_loaded = 17
number incomplete_tls_files = 18
number insecure_http_disabled = 19

-- `other` is an error of the environment that no test of the code tells apart.
pub data Error : Type 0 where
  sentinel : Sentinel → Error
  other : ℕ → Error
  errorf : String → Error
  wrap : String → Error → Error

-- `errors.Is` against a sentinel.
abbrev pub is_error : Error → Sentinel → Bool
is_error (sentinel a) s = number a == number s
is_error (other n) s = false
is_error (errorf m) s = false
is_error (wrap m e) s = is_error e s

-- `err == …`: the value itself, not wrapped.
abbrev pub is_same : Error → Sentinel → Bool
is_same (sentinel a) s = number a == number s
is_same (other n) s = false
is_same (errorf m) s = false
is_same (wrap m e) s = false

pub data Result {ℓ} (A : Type ℓ) : Type ℓ where
  ok : A → Result A
  err : Error → Result A

-- An `err` ends the function that it stands in.
module _ {ℓ κ} {A : Type ℓ} {B : Type κ} where
  infixl 5 ◌>>=◌
  abbrev pub ◌>>=◌ : Result A → (A → Result B) → Result B
  err problem >>= next = err problem
  ok value >>= next = next value

  -- Where the chain of two calls succeeds, the first one does, and the second one on its value.
  pub >>=-eq-ok :
      (first : Result A) (next : A → Result B) {value : B}
      → (first >>= next) ≡ ok value
      → (a : A) × (first ≡ ok a) × (next a ≡ ok value)
  >>=-eq-ok (err problem) next h = absurd (ground arith)
  >>=-eq-ok (ok a) next h = (a, refl, h)

-- `if test { return err }`
abbrev pub fail_if : Bool → Error → Result (Unit {0})
fail_if true e = err e
fail_if false e = ok tt

infixl 5 ◌>>◌
abbrev pub ◌>>◌ {ℓ} : {B : Type ℓ} → Result (Unit {0}) → Result B → Result B
check >> rest = check >>= (λ passed. rest)

-- `if err != nil { return fmt.Errorf("…: %w", err) }`
abbrev pub context {ℓ} : {A : Type ℓ} → String → Result A → Result A
context m (ok a) = ok a
context m (err e) = err (wrap m e)

-- `if err := ctx.Err(); err != nil { return err }`
unfoldable pub check_context : Option Error → Result (Unit {0})
check_context none = ok tt
check_context (some e) = err e

abbrev pub is_ok {ℓ} : {A : Type ℓ} → Result A → Bool
is_ok (ok a) = true
is_ok (err e) = false

-- Where a call behind a context succeeds and the rest does too.
pub context-eq-ok {ℓ κ} :
    {A : Type ℓ} {B : Type κ} (m : String) (r : Result A) (next : A → Result B) {b : B}
    → (context m r >>= next) ≡ ok b
    → (a : A) × (r ≡ ok a) × (next a ≡ ok b)
context-eq-ok m (err e) next h = absurd (ground arith)
context-eq-ok m (ok a) next h = (a, refl, h)

-- A guard that lets the rest succeed has a test that fails.
pub fail_if-eq-ok {ℓ} :
    {B : Type ℓ} (test : Bool) (e : Error) (rest : Result B) {b : B}
    → (fail_if test e >> rest) ≡ ok b
    → (test ≡ false) × (rest ≡ ok b)
fail_if-eq-ok true e rest h = absurd (ground arith)
fail_if-eq-ok false e rest h = (refl, h)

-- A proof about a branch on an error is one about each branch.
pub by_error {ℓ κ} :
    {B : Type ℓ} (P : B → Type κ) (o : Option Error) (f : B) (g : Error → B)
    → (o ≡ none → P f)
    → ((e : Error) → o ≡ some e → P (g e))
    → P (elim o [ none ↦ f | some e ↦ g e ])
by_error P none f g p q = p refl
by_error P (some e) f g p q = q e refl

pub by_result {ℓ κ} :
    {A : Type 0} {B : Type ℓ} (P : B → Type κ) (r : Result A) (f : A → B) (g : Error → B)
    → ((x : A) → r ≡ ok x → P (f x))
    → ((e : Error) → r ≡ err e → P (g e))
    → P (elim r [ ok x ↦ f x | err e ↦ g e ])
by_result P (ok x) f g p q = p x refl
by_result P (err e) f g p q = q e refl
