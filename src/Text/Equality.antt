-- ===== src/Text/Equality.antt =====
-- The Boolean equality of strings decides their equality.
use runclaude.Prelude.{◌≡◌, refl, sym, ◌↔◌, ◌⊎◌, true, false, ◌∷◌, arith, Bool-cases, eq_of_iff}
use runclaude.Text.{Bytes, bytes_eq}

pub bytes_eq_iff : (a b : Bytes) → (bytes_eq a b ≡ true) ↔ (a ≡ b)
unfolding bytes_eq
bytes_eq_iff (x ∷ a) (y ∷ b) = ground (arith, bytes_eq_iff a b)
bytes_eq_iff _ _ = ground arith

pub bytes_eq_refl : (a : Bytes) → bytes_eq a a ≡ true
bytes_eq_refl a = (bytes_eq_iff a a).1 refl

pub bytes_eq_comm : (a b : Bytes) → bytes_eq a b ≡ bytes_eq b a
bytes_eq_comm a b =
    eq_of_iff _ _ (λ h. (bytes_eq_iff b a).1 (sym ((bytes_eq_iff a b).0 h)))
      (λ h. (bytes_eq_iff a b).1 (sym ((bytes_eq_iff b a).0 h)))

pub bytes_cases : (a b : Bytes) → (a ≡ b) ⊎ (bytes_eq a b ≡ false)
bytes_cases a b = ground (arith, bytes_eq_iff a b, Bool-cases (bytes_eq a b))
