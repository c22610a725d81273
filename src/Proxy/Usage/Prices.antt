-- ===== src/Proxy/Usage/Prices.antt =====
-- proxy/usage.go: the table of prices.
use runclaude.Prelude.{
  ℕ, ◌+◌, ◌*◌, ◌≡◌, refl, ap, ◌∙◌, true, false, List, [], ◌∷◌, ◌++◌, Option, none, some,
  if◌then◌else◌, All, Bool-cases, inl, inr,
}
use runclaude.Text.{Bytes, codes, contains}
use runclaude.Proxy.Usage.{TokenUsage}

-- `modelPrice`, in hundredths of a dollar for a million tokens
pub record ModelPrice : Type 0 where
  pub input : ℕ
  pub output : ℕ
  pub cache_write : ℕ
  pub cache_read : ℕ

abbrev price : ℕ → ℕ → ℕ → ℕ → ModelPrice
price i o w r = record { input = i; output = o; cache_write = w; cache_read = r }

-- `bedrockPrices`
abbrev pub bedrock_prices : List (Bytes × ModelPrice)
bedrock_prices =
    (codes "claude-opus-5-5", price 400 2000 500 20)
    ∷ (codes "claude-opus-5", price 500 2500 625 50)
    ∷ (codes "claude-opus-4-8", price 500 2500 625 50)
    ∷ (codes "claude-opus-4-7", price 500 2500 625 50)
    ∷ (codes "claude-opus-4-6", price 500 2500 625 50)
    ∷ (codes "claude-opus-4-5", price 500 2500 625 50)
    ∷ (codes "claude-opus-4-1", price 1500 7500 1875 150)
    ∷ (codes "claude-opus-4", price 1500 7500 1875 150)
    ∷ (codes "claude-sonnet-5-5", price 200 1000 250 10)
    ∷ (codes "claude-sonnet-5", price 200 1000 250 20)
    ∷ (codes "claude-sonnet-4", price 300 1500 375 30)
    ∷ (codes "claude-haiku-4", price 100 500 125 10)
    ∷ (codes "claude-3-7-sonnet", price 300 1500 375 30)
    ∷ (codes "claude-3-5-sonnet", price 300 1500 375 30)
    ∷ (codes "claude-3-5-haiku", price 80 400 100 8)
    ∷ (codes "claude-3-opus", price 1500 7500 1875 150)
    ∷ (codes "claude-3-haiku", price 25 125 30 3)
    ∷ (codes "claude-3-sonnet", price 300 1500 375 30)
    ∷ (codes "kimi-k2", price 60 250 60 15)
    ∷ (codes "kimi", price 60 250 60 15)
    ∷ []

-- the loop of `priceFor`, over the entries left
unfoldable pub price_in : List (Bytes × ModelPrice) → Bytes → Option ModelPrice
unfolding contains
price_in [] model = none
price_in ((match, p) ∷ rows) model = if contains model match then some p else price_in rows model

-- `priceFor(model)`
unfoldable pub price_for : Bytes → Option ModelPrice
unfolding price_in
price_for = price_in bedrock_prices

-- `costs(u)`, in hundredths of a millionth of a dollar: input, output and cache
abbrev pub costs : ModelPrice → TokenUsage → ℕ × ℕ × ℕ
costs p u = (
  u.input * p.input,
  u.output * p.output,
  u.cache_read * p.cache_read + u.cache_write * p.cache_write,
)

price_in-append :
    (pre post : List (Bytes × ModelPrice)) (model match : Bytes) (p : ModelPrice)
    → All (λ row. contains model row.0 ≡ false) pre
    → contains model match ≡ true
    → price_in (pre ++ (match, p) ∷ post) model ≡ some p
unfolding price_in
price_in-append [] post model match p h c = rw c
price_in-append ((m, q) ∷ pre) post model match p h c =
    rw (h.0) (price_in-append pre post model match p h.1 c)

price_in-none :
    (rows : List (Bytes × ModelPrice)) (model : Bytes)
    → price_in rows model ≡ none
    → All (λ row. contains model row.0 ≡ false) rows
unfolding price_in
price_in-none [] model h = tt
price_in-none ((m, q) ∷ rows) model h = elim (Bool-cases (contains model m)) [
  | inl c ↦ absurd (cc (rw c at h))
  | inr c ↦ (c, price_in-none rows model (rw c at h))
]

-- The first entry of the table whose text the model id contains gives the price, and there is none
-- exactly when the id contains no entry's text; each entry is the one found for its own text, so
-- that none is hidden behind an entry above it.
pub price_for_first :
    (model : Bytes)
    → ((pre post : List (Bytes × ModelPrice)) (match : Bytes) (p : ModelPrice)
        → bedrock_prices ≡ pre ++ (match, p) ∷ post
        → All (λ row. contains model row.0 ≡ false) pre
        → contains model match ≡ true
        → price_for model ≡ some p)
      × (price_for model ≡ none → All (λ row. contains model row.0 ≡ false) bedrock_prices)
      × All (λ row. price_for row.0 ≡ some row.1) bedrock_prices
unfolding price_for
price_for_first model = (
  λ pre post match p e h c.
      ap (λ rows. price_in rows model) e ∙ price_in-append pre post model match p h c,
  price_in-none bedrock_prices model,
  own,
)
  where
    own : All (λ row. price_in bedrock_prices row.0 ≡ some row.1) bedrock_prices
    own = (
      refl,
      (
        refl,
        (
          refl,
          (
            refl,
            (
              refl,
              (
                refl,
                (
                  refl,
                  (
                    refl,
                    (
                      refl,
                      (
                        refl,
                        (
                          refl,
                          (
                            refl,
                            (refl, (refl, (refl, (refl, (refl, (refl, (refl, (refl, tt)))))))),
                          ),
                        ),
                      ),
                    ),
                  ),
                ),
              ),
            ),
          ),
        ),
      ),
    )
