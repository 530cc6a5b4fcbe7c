-- ===== src/Rootfs/Pvc/Escape.antt =====
-- What the kernel escapes in a mount's paths is read back.
use sysbox.Prelude.{
  ℕ, ◌≡◌, refl, Bool-cases, inl, inr, true, false, [], ◌∷◌, ◌++◌, arith, ◌==◌, if◌then◌else◌,
}
use sysbox.Go.Strings.{Text, codes}
use sysbox.Rootfs.Pvc.{escape_of, unescape_mount_info_path}

-- The kernel's escape of a byte: the octal code of a space, a tab, a line feed and a backslash.
escape_byte : ℕ → Text
escape_byte c =
    if c == 32
    then codes "\\040"
    else if c == 9
    then codes "\\011"
    else if c == 10
    then codes "\\012"
    else if c == b'\\'
    then codes "\\134"
    else c ∷ []

unfoldable pub escape_mount_info_path : Text → Text
unfolding escape_byte
escape_mount_info_path [] = []
escape_mount_info_path (c ∷ s) = escape_byte c ++ escape_mount_info_path s

unescape_plain :
    (c : ℕ) (s : Text)
    → (c == b'\\') ≡ false
    → unescape_mount_info_path (c ∷ s) ≡ c ∷ unescape_mount_info_path s
unfolding unescape_mount_info_path
unescape_plain c [] h = refl
unescape_plain c (b ∷ []) h = refl
unescape_plain c (b ∷ d ∷ []) h = refl
unescape_plain c (b ∷ d ∷ e ∷ s) h = ground arith

eq_of : (a b : ℕ) → (a == b) ≡ true → a ≡ b
eq_of a b h = ground arith

unescape-escape_byte :
    (c : ℕ) (s : Text)
    → unescape_mount_info_path (escape_byte c ++ s) ≡ c ∷ unescape_mount_info_path s
unfolding escape_byte
unescape-escape_byte c s = elim (Bool-cases (c == 32)) [
  | inl e ↦ rw (eq_of c 32 e) (unfold unescape_mount_info_path escape_of in refl)
  | inr n ↦ rw n (elim (Bool-cases (c == 9)) [
    | inl e ↦ rw (eq_of c 9 e) (unfold unescape_mount_info_path escape_of in refl)
    | inr o ↦ rw o (elim (Bool-cases (c == 10)) [
      | inl e ↦ rw (eq_of c 10 e) (unfold unescape_mount_info_path escape_of in refl)
      | inr p ↦ rw p (elim (Bool-cases (c == b'\\')) [
        | inl e ↦ rw (eq_of c b'\\' e) (unfold unescape_mount_info_path escape_of in refl)
        | inr q ↦ rw q (unescape_plain c s q)
      ])
    ])
  ])
]

-- Unescaping a path as the kernel writes it gives the path back, whatever bytes it holds.
pub unescape-escape : (s : Text) → unescape_mount_info_path (escape_mount_info_path s) ≡ s
unfolding escape_mount_info_path
unescape-escape [] = unfold unescape_mount_info_path in refl
unescape-escape (c ∷ s) = rw (unescape-escape_byte c (escape_mount_info_path s), unescape-escape s)
