-- ===== src/Proxy/Usage/Totals.antt =====
-- proxy/usage.go: the tracker's map after any calls of `add`.
use runclaude.Prelude.{
  ℕ, ◌+◌, ◌%◌, ◌≡◌, refl, true, false, List, [], ◌∷◌, arith, Bool-cases, inl, inr, if◌then◌else◌,
}
use runclaude.Bits.{int64_mod}
use runclaude.Dict.{Dict, lookup, lookup-insert}
use runclaude.Text.{Bytes, bytes_eq}
use runclaude.Text.Equality.{bytes_eq_iff}
use runclaude.Proxy.Usage.{TokenUsage, no_usage, is_zero, plus, usage_or_none, add_usage}

-- Calls of `add`, the latest first.
unfoldable pub add_calls : List (Bytes × TokenUsage) → Dict TokenUsage
add_calls [] = []
add_calls ((model, u) ∷ calls) = add_usage model u (add_calls calls)

abbrev pub sum_for : (TokenUsage → ℕ) → Bytes → List (Bytes × TokenUsage) → ℕ
sum_for field model [] = 0
sum_for field model ((m, u) ∷ calls) =
    sum_for field model calls + (if bytes_eq m model then field u else 0)

abbrev recorded : Bytes → Dict TokenUsage → TokenUsage
recorded model by_model = usage_or_none (lookup model by_model)

recorded-add_usage :
    (model m : Bytes) (u : TokenUsage) (d : Dict TokenUsage)
    → is_zero u ≡ false
    → recorded model (add_usage m u d)
      ≡ (if bytes_eq m model then plus (recorded m d) u else recorded model d)
unfolding add_usage
recorded-add_usage model m u d z = ground (arith, lookup-insert m model (plus (recorded m d) u) d)

recorded-add_zero :
    (model m : Bytes) (u : TokenUsage) (d : Dict TokenUsage)
    → is_zero u ≡ true
    → recorded model (add_usage m u d) ≡ recorded model d
unfolding add_usage
recorded-add_zero model m u d z = ground arith

mod_sum : (a b : ℕ) → (a % int64_mod + b) % int64_mod ≡ (a + b) % int64_mod
mod_sum a b = omega arith

-- One field: `sum` of a field is what the map holds, modulo the size of an `int64`.
module _ (field : TokenUsage → ℕ)
    (field-plus : (a b : TokenUsage) → field (plus a b) ≡ (field a + field b) % int64_mod)
    (field-none : field no_usage ≡ 0)
    (field-zero : (u : TokenUsage) → is_zero u ≡ true → field u ≡ 0) (model : Bytes) where
  field-add_calls :
      (calls : List (Bytes × TokenUsage))
      → field (recorded model (add_calls calls)) ≡ sum_for field model calls % int64_mod
  unfolding add_calls
  field-add_calls [] = unfold lookup in omega (arith, field-none)
  field-add_calls ((m, u) ∷ calls) = elim (Bool-cases (is_zero u)) [
    | inl z ↦ ground (
      arith,
      recorded-add_zero model m u (add_calls calls) z,
      field-add_calls calls,
      field-zero u z,
    )
    | inr z ↦ elim (Bool-cases (bytes_eq m model)) [
      | inl same ↦ ground (
        arith,
        recorded-add_usage model m u (add_calls calls) z,
        field-add_calls calls,
        field-plus (recorded model (add_calls calls)) u,
        bytes_eq_iff m model,
        mod_sum (sum_for field model calls) (field u),
      )
      | inr other ↦
          ground (arith, recorded-add_usage model m u (add_calls calls) z, field-add_calls calls)
    ]
  ]

-- After any calls of `add`, the map holds for each model the sum, in 64-bit arithmetic, of each of
-- the four counts of the calls for that model.
pub add_calls-sum :
    (model : Bytes) (calls : List (Bytes × TokenUsage))
    → (let total = usage_or_none (lookup model (add_calls calls)) in
        (total.input ≡ sum_for (λ u. u.input) model calls % int64_mod)
        × (total.output ≡ sum_for (λ u. u.output) model calls % int64_mod)
        × (total.cache_read ≡ sum_for (λ u. u.cache_read) model calls % int64_mod)
        × (total.cache_write ≡ sum_for (λ u. u.cache_write) model calls % int64_mod))
add_calls-sum model calls = (
  field-add_calls (λ u. u.input) (λ a b. refl) refl (λ u h. ground arith) model calls,
  field-add_calls (λ u. u.output) (λ a b. refl) refl (λ u h. ground arith) model calls,
  field-add_calls (λ u. u.cache_read) (λ a b. refl) refl (λ u h. ground arith) model calls,
  field-add_calls (λ u. u.cache_write) (λ a b. refl) refl (λ u h. ground arith) model calls,
)
