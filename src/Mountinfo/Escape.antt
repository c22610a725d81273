-- ===== src/Mountinfo/Escape.antt =====
-- mountinfo.go, `unescapeOctal`, against the escapes that the kernel writes.
use runclaude.Prelude.{
  ◌≡◌, refl, ap, ℕ, ◌+◌, ◌/◌, ◌%◌, ◌<◌, Bool, true, false, ◌||◌, [], ◌∷◌, ◌==◌, if◌then◌else◌,
  arith,
}
use runclaude.Text.{Bytes, has_byte}
use runclaude.Bits.{AreBytes}
use runclaude.Mountinfo.{is_octal_digit, unescape, unescape_octal}

-- proc(5): space, tab, newline and backslash are written as a backslash and three octal digits
abbrev pub is_escaped : ℕ → Bool
is_escaped c = c == 32 || c == 9 || c == 10 || c == 92

unfoldable pub escape : Bytes → Bytes
escape [] = []
escape (c ∷ s) =
    let rest = escape s in
    if is_escaped c then 92 ∷ (48 + c / 64) ∷ (48 + c / 8 % 8) ∷ (48 + c % 8) ∷ rest else c ∷ rest

unescape_plain : (c : ℕ) (s : Bytes) → (c == 92) ≡ false → unescape (c ∷ s) ≡ c ∷ unescape s
unfolding unescape
unescape_plain c [] h = refl
unescape_plain c (x ∷ []) h = refl
unescape_plain c (x ∷ y ∷ []) h = refl
unescape_plain c (x ∷ y ∷ z ∷ s) h = rw h refl

unescape_octet :
    (c : ℕ) (s : Bytes)
    → c < 256
    → unescape (92 ∷ (48 + c / 64) ∷ (48 + c / 8 % 8) ∷ (48 + c % 8) ∷ s) ≡ c ∷ unescape s
unfolding unescape is_octal_digit
unescape_octet c s h =
    let a : is_octal_digit (48 + c / 64) ≡ true = ground arith in
    let b : is_octal_digit (48 + c / 8 % 8) ≡ true = ground arith in
    let d : is_octal_digit (48 + c % 8) ≡ true = ground arith in
    rw a (rw b (rw d (ap (λ x. x ∷ unescape s) (omega arith))))

unescape-escape : (s : Bytes) → AreBytes s → unescape (escape s) ≡ s
unfolding escape unescape
unescape-escape [] h = refl
unescape-escape (c ∷ s) (b, h) =
    ground (arith, unescape_octet c (escape s) b, unescape_plain c (escape s), unescape-escape s h)

has_byte-unescape : (s : Bytes) → has_byte 92 s ≡ false → unescape s ≡ s
unfolding has_byte unescape
has_byte-unescape [] h = refl
has_byte-unescape (c ∷ s) h = ground (arith, unescape_plain c s, has_byte-unescape s, h)

-- `unescapeOctal` gives back every string of bytes from the octal escapes that the kernel writes
-- for space, tab, newline and backslash.
pub unescape_octal-escape : (s : Bytes) → AreBytes s → unescape_octal (escape s) ≡ s
unfolding unescape_octal
unescape_octal-escape s h = ground (arith, unescape-escape s h, has_byte-unescape (escape s))
