-- ===== src/Text/Split.antt =====
-- `Split` and `Join` undo one another.
use runclaude.Prelude.{
  ℕ, ◌≡◌, refl, sym, ap, ◌∙◌, ◌≢◌, false, ◌||◌, List, [], ◌∷◌, ◌++◌, arith, inl, inr, Bool-cases,
  All, ◌==◌, ==_iff,
}
use runclaude.Text.{Bytes, has_byte, push_head, split, join}

-- The string holds no byte `c`.
abbrev pub Lacks : ℕ → Bytes → Type 0
Lacks c s = has_byte c s ≡ false

join-push_head :
    (c x : ℕ) (p : Bytes) (ps : List Bytes)
    → join (c ∷ []) (push_head x (p ∷ ps)) ≡ x ∷ join (c ∷ []) (p ∷ ps)
unfolding join
join-push_head c x p [] = refl
join-push_head c x p (q ∷ ps) = refl

join-nil_head :
    (c : ℕ) (p : Bytes) (ps : List Bytes) → join (c ∷ []) ([] ∷ p ∷ ps) ≡ c ∷ join (c ∷ []) (p ∷ ps)
unfolding join
join-nil_head c p ps = refl

pub split_cons : (c : ℕ) (s : Bytes) → (p : Bytes) × (ps : List Bytes) × (split c s ≡ p ∷ ps)
unfolding split
split_cons c [] = ([], [], refl)
split_cons c (x ∷ s) =
    let (p, ps, e) = split_cons c s in
    elim (Bool-cases (x == c)) [
      | inl h ↦ ([], p ∷ ps, rw h (rw e))
      | inr h ↦ (x ∷ p, ps, rw h (rw e))
    ]

pub split_ne_nil : (c : ℕ) (s : Bytes) → split c s ≢ []
split_ne_nil c s e = let (p, ps, q) = split_cons c s in cc

pub has_byte-append : (c : ℕ) (s t : Bytes) → has_byte c (s ++ t) ≡ (has_byte c s || has_byte c t)
unfolding has_byte
has_byte-append c [] t = refl
has_byte-append c (x ∷ s) t = ground (arith, has_byte-append c s t)

pub join-split : (c : ℕ) (s : Bytes) → join (c ∷ []) (split c s) ≡ s
unfolding split
join-split c [] = unfold join in refl
join-split c (x ∷ s) =
    let (p, ps, e) = split_cons c s in
    let ih : join (c ∷ []) (p ∷ ps) ≡ s = rw e at (join-split c s) in
    elim (Bool-cases (x == c)) [
      | inl h ↦
          rw h
            (rw e (join-nil_head c p ps ∙ ap (◌∷◌ c) ih ∙ ap (λ y. y ∷ s) (sym ((==_iff x c).0 h))))
      | inr h ↦ rw h (rw e (join-push_head c x p ps ∙ ap (◌∷◌ x) ih))
    ]

pub split-Lacks : (c : ℕ) (s : Bytes) → All (Lacks c) (split c s)
unfolding split has_byte
split-Lacks c [] = (refl, tt)
split-Lacks c (x ∷ s) =
    let (p, ps, e) = split_cons c s in
    let ih : All (Lacks c) (p ∷ ps) = rw e at (split-Lacks c s) in
    elim (Bool-cases (x == c)) [
      | inl h ↦ rw h (rw e (refl, ih))
      | inr h ↦ rw h (rw e (ground (arith, ih.0), ih.1))
    ]

pub split_self : (c : ℕ) (p : Bytes) → Lacks c p → split c p ≡ p ∷ []
unfolding split has_byte
split_self c [] h = refl
split_self c (x ∷ p) h = ground (arith, split_self c p)

pub split-append : (c : ℕ) (p s : Bytes) → Lacks c p → split c (p ++ c ∷ s) ≡ p ∷ split c s
unfolding split has_byte
split-append c [] s h = ground (arith, ==_iff c c)
split-append c (x ∷ p) s h = ground (arith, split-append c p s)

pub split-join :
    (c : ℕ) (p : Bytes) (ps : List Bytes)
    → All (Lacks c) (p ∷ ps)
    → split c (join (c ∷ []) (p ∷ ps)) ≡ p ∷ ps
unfolding join
split-join c p [] h = split_self c p h.0
split-join c p (q ∷ ps) h = split-append c p _ h.0 ∙ ap (◌∷◌ p) (split-join c q ps h.1)

-- A string cut at one separator is split on both sides.
pub split-append_between : (c : ℕ) (a b : Bytes) → split c (a ++ c ∷ b) ≡ split c a ++ split c b
unfolding split
split-append_between c [] b = ground arith
split-append_between c (x ∷ a) b =
    let (p, ps, e) = split_cons c a in ground (arith, split-append_between c a b, e)
