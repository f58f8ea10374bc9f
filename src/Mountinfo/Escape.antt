-- ===== src/Mountinfo/Escape.antt =====
-- The octal escapes of mountinfo: `unescape_mount` of src/common/mountinfo.cpp.
use sysal.Prelude.{
  if◌then◌else◌, Bool-cases, Bytes, IsBytes, ℕ, ◌+◌, ◌/◌, ◌%◌, ◌<◌, ◌≡◌, refl, ap, ◌∙◌, ◌≢◌, inl,
  inr, Bool, true, [], ◌∷◌, arith,
}
use sysal.Mountinfo.{is_octal, unescape_mount}

-- What the kernel writes for a byte: a backslash and three octal digits if it is one that is
-- escaped, else the byte.
unfoldable pub escape : (ℕ → Bool) → Bytes → Bytes
escape escaped [] = []
escape escaped (c ∷ s) =
    let rest = escape escaped s in
    if escaped c
    then b'\\' ∷ (b'0' + c / 64) ∷ (b'0' + c / 8 % 8) ∷ (b'0' + c % 8) ∷ rest
    else c ∷ rest

unescape_plain : (c : ℕ) (s : Bytes) → c ≢ b'\\' → unescape_mount (c ∷ s) ≡ c ∷ unescape_mount s
unfolding unescape_mount
unescape_plain c [] h = refl
unescape_plain c (x ∷ []) h = refl
unescape_plain c (x ∷ y ∷ []) h = refl
unescape_plain c (x ∷ y ∷ z ∷ s) h = ground arith

octal_digits :
    (c : ℕ) (s : Bytes)
    → c < 256
    → unescape_mount (b'\\' ∷ (b'0' + c / 64) ∷ (b'0' + c / 8 % 8) ∷ (b'0' + c % 8) ∷ s)
      ≡ c ∷ unescape_mount s
unfolding unescape_mount is_octal
octal_digits c s h = ground arith

-- Whatever set of bytes is escaped, if the backslash is one of them, an escaped path is decoded to
-- the path it was written for.
pub unescape_mount-escape :
    (escaped : ℕ → Bool) (s : Bytes)
    → escaped b'\\' ≡ true
    → IsBytes s
    → unescape_mount (escape escaped s) ≡ s
unfolding escape
unescape_mount-escape escaped [] e h = unfold unescape_mount in refl
unescape_mount-escape escaped (c ∷ s) e (hc, h) =
    let rest = unescape_mount-escape escaped s e h in
    elim (Bool-cases (escaped c)) [
      | inl k ↦ rw k (octal_digits c (escape escaped s) hc ∙ ap (λ t. c ∷ t) rest)
      | inr k ↦
          rw k (unescape_plain c (escape escaped s) (λ q. ground arith) ∙ ap (λ t. c ∷ t) rest)
    ]
