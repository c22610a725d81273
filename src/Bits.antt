-- ===== src/Bits.antt =====
-- Machine words in big-endian order, as package `encoding/binary` reads and writes them.
use runclaude.Prelude.{
  ℕ, ◌+◌, ◌-◌, ◌*◌, ◌/◌, ◌%◌, ◌<◌, ◌≡◌, Bool, ◌&&◌, ltb, [], ◌∷◌, ◌++◌, arith, All,
}
use runclaude.Text.{Bytes}

-- `binary.BigEndian.PutUint16`
abbrev pub put_uint16 : ℕ → Bytes
put_uint16 n = n / 256 % 256 ∷ n % 256 ∷ []

-- `binary.BigEndian.PutUint32`
abbrev pub put_uint32 : ℕ → Bytes
put_uint32 n = n / 16777216 % 256 ∷ n / 65536 % 256 ∷ n / 256 % 256 ∷ n % 256 ∷ []

-- `binary.BigEndian.Uint16`, of a slice that holds two bytes
abbrev pub uint16 : Bytes → ℕ
uint16 (a ∷ b ∷ _) = a * 256 + b
uint16 _ = 0

-- `binary.BigEndian.Uint32`, of a slice that holds four bytes
abbrev pub uint32 : Bytes → ℕ
uint32 (a ∷ b ∷ c ∷ d ∷ _) = ((a * 256 + b) * 256 + c) * 256 + d
uint32 _ = 0

-- Every entry is a byte.
abbrev pub AreBytes : Bytes → Type 0
AreBytes = All (λ b. b < 256)

pub uint16-put_uint16 : (n : ℕ) (rest : Bytes) → n < 65536 → uint16 (put_uint16 n ++ rest) ≡ n
uint16-put_uint16 n rest h = omega arith

pub uint32-put_uint32 : (n : ℕ) (rest : Bytes) → n < 4294967296 → uint32 (put_uint32 n ++ rest) ≡ n
uint32-put_uint32 n rest h = omega arith

-- `int64`, as the bit pattern of two's complement.
abbrev pub int64_mod : ℕ
int64_mod = 18446744073709551616

abbrev pub add_int64 : ℕ → ℕ → ℕ
add_int64 a b = (a + b) % int64_mod

abbrev pub sub_int64 : ℕ → ℕ → ℕ
sub_int64 a b = (a + int64_mod - b) % int64_mod

-- `a > 0`
abbrev pub is_pos_int64 : ℕ → Bool
is_pos_int64 a = ltb 0 a && ltb a 9223372036854775808
