-- ===== src/Text.antt =====
-- Go strings as lists of bytes, and the functions of package `strings` that runclaude calls.
-- Case and white space are those of ASCII, where `ToLower` and `TrimSpace` go byte by byte.
pub mod Equality
pub mod Affix
pub mod Split
pub mod Case
use Prim.Native.Char.{code}
use Prim.Native.String.{String}
use runclaude.Prelude.{
  ℕ, ◌+◌, ◌-◌, Bool, true, false, ◌&&◌, ◌||◌, List, [], ◌∷◌, ◌++◌, Option, none, some, map, ltb,
  leb, ◌==◌, if◌then◌else◌, length, take, drop,
}

abbrev pub Bytes : Type 0
Bytes = List ℕ

-- The bytes of a literal, all of them ASCII.
abbrev pub codes : String → Bytes
codes String.[] = []
codes (String.◌∷◌ c s) = code c ∷ codes s

unfoldable pub bytes_eq : Bytes → Bytes → Bool
bytes_eq [] [] = true
bytes_eq (x ∷ xs) (y ∷ ys) = x == y && bytes_eq xs ys
bytes_eq _ _ = false

abbrev pub is_empty {ℓ} : {A : Type ℓ} → List A → Bool
is_empty [] = true
is_empty (x ∷ xs) = false

-- `slices.Contains`, on strings
unfoldable pub member : Bytes → List Bytes → Bool
unfolding bytes_eq
member x [] = false
member x (y ∷ ys) = bytes_eq x y || member x ys

-- `strings.HasPrefix(s, p)`
unfoldable pub has_prefix : Bytes → Bytes → Bool
has_prefix s [] = true
has_prefix [] (y ∷ p) = false
has_prefix (x ∷ s) (y ∷ p) = x == y && has_prefix s p

-- `strings.HasSuffix(s, p)`
unfoldable pub has_suffix : Bytes → Bytes → Bool
unfolding bytes_eq
has_suffix s p = leb (length p) (length s) && bytes_eq (drop (length s - length p) s) p

unfoldable pub trim_prefix : Bytes → Bytes → Bytes
unfolding has_prefix
trim_prefix s p = if has_prefix s p then drop (length p) s else s

unfoldable pub trim_suffix : Bytes → Bytes → Bytes
unfolding has_suffix
trim_suffix s p = if has_suffix s p then take (length s - length p) s else s

-- `strings.Contains(s, p)`
unfoldable pub contains : Bytes → Bytes → Bool
unfolding has_prefix
contains [] p = has_prefix [] p
contains (x ∷ s) p = has_prefix (x ∷ s) p || contains s p

-- `strings.IndexByte(s, c) >= 0`
unfoldable pub has_byte : ℕ → Bytes → Bool
has_byte c [] = false
has_byte c (x ∷ s) = x == c || has_byte c s

-- What stands before the first `c`, and what stands behind it if there is one: `strings.Cut`.
unfoldable pub cut_byte : ℕ → Bytes → Bytes × Option Bytes
cut_byte c [] = ([], none)
cut_byte c (x ∷ s) =
    let rest = cut_byte c s in if x == c then ([], some s) else (x ∷ rest.0, rest.1)

-- `strings.Split(s, sep)` at a separator of one byte
abbrev pub push_head : ℕ → List Bytes → List Bytes
push_head x [] = (x ∷ []) ∷ []
push_head x (p ∷ ps) = (x ∷ p) ∷ ps

unfoldable pub split : ℕ → Bytes → List Bytes
split c [] = [] ∷ []
split c (x ∷ s) = let rest = split c s in if x == c then [] ∷ rest else push_head x rest

-- `strings.Join(parts, sep)`
unfoldable pub join : Bytes → List Bytes → Bytes
join sep [] = []
join sep (p ∷ []) = p
join sep (p ∷ q ∷ ps) = p ++ (sep ++ join sep (q ∷ ps))

unfoldable pub lower_byte : ℕ → ℕ
lower_byte c = if leb b'A' c && leb c b'Z' then c + 32 else c

-- `strings.ToLower`
unfoldable pub to_lower : Bytes → Bytes
unfolding lower_byte
to_lower = map lower_byte

unfoldable pub is_space : ℕ → Bool
is_space c = c == 32 || (leb 9 c && leb c 13)

unfoldable pub trim_left : Bytes → Bytes
unfolding is_space
trim_left [] = []
trim_left (c ∷ s) = let rest = trim_left s in if is_space c then rest else c ∷ s

-- Drops the white space at the end: a space byte stays where something other than space follows.
unfoldable pub trim_right : Bytes → Bytes
unfolding is_space
trim_right [] = []
trim_right (c ∷ s) = let rest = trim_right s in if is_space c && is_empty rest then [] else c ∷ rest

-- `strings.TrimSpace`
unfoldable pub trim_space : Bytes → Bytes
unfolding trim_left trim_right
trim_space s = trim_right (trim_left s)
