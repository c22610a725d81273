-- ===== src/Text/Case.antt =====
-- `ToLower` and `TrimSpace` are idempotent, and commute.
use runclaude.Prelude.{ℕ, ◌≡◌, refl, [], ◌∷◌, arith, inl, inr, Bool-cases}
use runclaude.Text.{
  Bytes, is_empty, lower_byte, to_lower, is_space, trim_left, trim_right, trim_space,
}

lower_byte_idem : (c : ℕ) → lower_byte (lower_byte c) ≡ lower_byte c
unfolding lower_byte
lower_byte_idem c = ground arith

pub to_lower_idem : (s : Bytes) → to_lower (to_lower s) ≡ to_lower s
unfolding to_lower
to_lower_idem [] = refl
to_lower_idem (c ∷ s) = cc (lower_byte_idem c, to_lower_idem s)

is_space-lower_byte : (c : ℕ) → is_space (lower_byte c) ≡ is_space c
unfolding is_space lower_byte
is_space-lower_byte c = ground arith

is_empty-to_lower : (s : Bytes) → is_empty (to_lower s) ≡ is_empty s
unfolding to_lower
is_empty-to_lower [] = refl
is_empty-to_lower (c ∷ s) = refl

trim_left-to_lower : (s : Bytes) → trim_left (to_lower s) ≡ to_lower (trim_left s)
unfolding trim_left to_lower
trim_left-to_lower [] = refl
trim_left-to_lower (c ∷ s) = ground (arith, is_space-lower_byte c, trim_left-to_lower s)

trim_right-to_lower : (s : Bytes) → trim_right (to_lower s) ≡ to_lower (trim_right s)
unfolding trim_right to_lower
trim_right-to_lower [] = refl
trim_right-to_lower (c ∷ s) =
    ground (arith, is_space-lower_byte c, trim_right-to_lower s, is_empty-to_lower (trim_right s))

pub trim_space-to_lower : (s : Bytes) → trim_space (to_lower s) ≡ to_lower (trim_space s)
unfolding trim_space
trim_space-to_lower s = rw trim_left-to_lower (trim_right-to_lower (trim_left s))

trim_right_idem : (s : Bytes) → trim_right (trim_right s) ≡ trim_right s
unfolding trim_right
trim_right_idem [] = refl
trim_right_idem (c ∷ s) = ground (arith, trim_right_idem s)

-- Nothing to trim on the left stays so once the right end is trimmed.
trim_left-trim_right : (s : Bytes) → trim_left (trim_right (trim_left s)) ≡ trim_right (trim_left s)
unfolding trim_left
trim_left-trim_right [] = unfold trim_right in refl
trim_left-trim_right (c ∷ s) = elim (Bool-cases (is_space c)) [
  | inl h ↦ rw h (trim_left-trim_right s)
  | inr h ↦ rw h (unfold trim_right in ground arith)
]

pub trim_space_idem : (s : Bytes) → trim_space (trim_space s) ≡ trim_space s
unfolding trim_space
trim_space_idem s = rw trim_left-trim_right (trim_right_idem (trim_left s))
