-- ===== src/Proxy/Match/Domain.antt =====
-- `match_domain` over a list of patterns.
use runclaude.Prelude.{
  ◌≡◌, refl, ◌↔◌, inl, inr, true, ◌||◌, List, [], ◌∷◌, ◌++◌, arith, Bool-cases, Any, ap,
}
use runclaude.Text.{Bytes, to_lower}
use runclaude.Text.Case.{to_lower_idem}
use runclaude.Proxy.Match.{match_pattern, match_any, match_domain}
use runclaude.Proxy.Match.Relation.{Matches}
use runclaude.Proxy.Match.Sound.{match_pattern_iff}

match_any_sound :
    (host : Bytes) (ps : List Bytes)
    → match_any host ps ≡ true
    → Any (λ p. Matches host (to_lower p)) ps
unfolding match_any
match_any_sound host [] h = cc
match_any_sound host (p ∷ ps) h = elim (Bool-cases (match_pattern host (to_lower p))) [
  | inl e ↦ inl ((match_pattern_iff host (to_lower p)).0 e)
  | inr e ↦ inr (match_any_sound host ps (ground arith))
]

match_any_complete :
    (host : Bytes) (ps : List Bytes)
    → Any (λ p. Matches host (to_lower p)) ps
    → match_any host ps ≡ true
unfolding match_any
match_any_complete host [] h = absurd h
match_any_complete host (p ∷ ps) (inl m) = rw ((match_pattern_iff host (to_lower p)).1 m)
match_any_complete host (p ∷ ps) (inr m) = ground (arith, match_any_complete host ps m)

-- `MatchDomain` answers true exactly when some pattern of the list stands for the host, both in
-- lower case.
pub match_domain_iff :
    (host : Bytes) (patterns : List Bytes)
    → (match_domain host patterns ≡ true) ↔ Any (λ p. Matches (to_lower host) (to_lower p)) patterns
unfolding match_domain
match_domain_iff host patterns =
    (match_any_sound (to_lower host) patterns, match_any_complete (to_lower host) patterns)

pub match_domain-to_lower :
    (host : Bytes) (patterns : List Bytes)
    → match_domain (to_lower host) patterns ≡ match_domain host patterns
unfolding match_domain
match_domain-to_lower host patterns = ap (λ h. match_any h patterns) (to_lower_idem host)

match_any-append :
    (host : Bytes) (ps qs : List Bytes)
    → match_any host (ps ++ qs) ≡ (match_any host ps || match_any host qs)
unfolding match_any
match_any-append host [] qs = refl
match_any-append host (p ∷ ps) qs = ground (arith, match_any-append host ps qs)

pub match_domain-append :
    (host : Bytes) (ps qs : List Bytes)
    → match_domain host (ps ++ qs) ≡ (match_domain host ps || match_domain host qs)
unfolding match_domain
match_domain-append host = match_any-append (to_lower host)

-- A pattern stands for itself, whatever its case.
pub match_domain_self : (pattern : Bytes) → match_domain pattern (pattern ∷ []) ≡ true
match_domain_self pattern = (match_domain_iff pattern (pattern ∷ [])).1 (inl (Matches.exact refl))
