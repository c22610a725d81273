-- ===== src/Text/Affix.antt =====
-- Prefixes and suffixes as splits of the string.
use runclaude.Prelude.{
  ◌-◌, ◌≡◌, refl, sym, ap, ◌∙◌, true, false, [], ◌∷◌, ◌++◌, arith, length, take, drop,
  length-append, take-append-drop, take-length-append, drop-length-append, if◌then◌else◌,
}
use runclaude.Text.{Bytes, has_prefix, has_suffix, trim_prefix, trim_suffix}
use runclaude.Text.Equality.{bytes_eq_iff, bytes_eq_refl}

pub has_prefix-append : (p rest : Bytes) → has_prefix (p ++ rest) p ≡ true
unfolding has_prefix
has_prefix-append [] rest = refl
has_prefix-append (x ∷ p) rest = ground (arith, has_prefix-append p rest)

pub has_prefix-split : (s p : Bytes) → has_prefix s p ≡ true → s ≡ p ++ drop (length p) s
unfolding has_prefix
has_prefix-split s [] h = refl
has_prefix-split [] (y ∷ p) h = cc
has_prefix-split (x ∷ s) (y ∷ p) h = ground (arith, has_prefix-split s p)

pub has_suffix-append : (pre p : Bytes) → has_suffix (pre ++ p) p ≡ true
unfolding has_suffix
has_suffix-append pre p =
    let e : length (pre ++ p) - length p ≡ length pre = omega (arith, length-append pre p) in
    rw (e, drop-length-append pre p, bytes_eq_refl p) (ground (arith, length-append pre p))

pub has_suffix-split : (s p : Bytes) → has_suffix s p ≡ true → s ≡ take (length s - length p) s ++ p
unfolding has_suffix
has_suffix-split s p h =
    let k = length s - length p in
    let e : drop k s ≡ p = ground (arith, bytes_eq_iff (drop k s) p) in
    sym (take-append-drop k s) ∙ ap (◌++◌ (take k s)) e

pub trim_prefix-append : (p rest : Bytes) → trim_prefix (p ++ rest) p ≡ rest
unfolding trim_prefix
trim_prefix-append p rest = rw (has_prefix-append p rest) (drop-length-append p rest)

pub trim_suffix-append : (pre p : Bytes) → trim_suffix (pre ++ p) p ≡ pre
unfolding trim_suffix
trim_suffix-append pre p =
    let e : length (pre ++ p) - length p ≡ length pre = omega (arith, length-append pre p) in
    rw (has_suffix-append pre p) (rw e (take-length-append pre p))

pub trim_prefix-split : (s p : Bytes) → has_prefix s p ≡ true → s ≡ p ++ trim_prefix s p
unfolding trim_prefix
trim_prefix-split s p h = rw h (has_prefix-split s p h)

pub trim_suffix-split : (s p : Bytes) → has_suffix s p ≡ true → s ≡ trim_suffix s p ++ p
unfolding trim_suffix
trim_suffix-split s p h = cut _ (has_suffix-split s p h)
  where
    cut : (t : Bytes) → s ≡ t ++ p → s ≡ (if has_suffix s p then t else s) ++ p
    cut t e = ground arith

pub trim_suffix_none : (s p : Bytes) → has_suffix s p ≡ false → trim_suffix s p ≡ s
unfolding trim_suffix
trim_suffix_none s p h = ground arith
