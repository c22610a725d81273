-- ===== src/Proxy/Allowlist/Laws.antt =====
-- What an addition and an open window change in the decisions of the allowlist.
use runclaude.Prelude.{
  ℕ, ◌+◌, ◌≤◌, ◌<◌, ◌≡◌, ◌↔◌, true, false, ◌||◌, ◌&&◌, not, [], ◌∷◌, ◌++◌, arith,
}
use runclaude.Text.{Bytes, is_empty, trim_space}
use runclaude.Proxy.Match.{match_domain}
use runclaude.Proxy.Match.Domain.{match_domain-to_lower, match_domain-append, match_domain_self}
use runclaude.Proxy.Allowlist.{Allowlist, allows, allow_all_for, allow_all_until, add_trimmed, add}

add_trimmed-items :
    (p host : Bytes) (a : Allowlist)
    → is_empty p ≡ false
    → match_domain host (add_trimmed p a).0.items
      ≡ (match_domain host a.items || (not (match_domain p a.items) && match_domain host (p ∷ [])))
unfolding add_trimmed
add_trimmed-items p host a ne =
    ground (arith, match_domain-to_lower p a.items, match_domain-append host a.items (p ∷ []))

-- After `Add` of a pattern that is not blank, the list matches what it matched before and, unless
-- it matched the pattern itself already, also what the trimmed pattern matches: nothing else. The
-- window of the list stays.
pub match_domain-add :
    (pattern host : Bytes) (a : Allowlist)
    → is_empty (trim_space pattern) ≡ false
    → ((add pattern a).0.allow_all ≡ a.allow_all)
      × (match_domain host (add pattern a).0.items ≡ (
          match_domain host a.items
          || (not (match_domain (trim_space pattern) a.items)
              && match_domain host (trim_space pattern ∷ []))))
unfolding add
match_domain-add pattern host a ne =
    (unfold add_trimmed in ground arith, add_trimmed-items (trim_space pattern) host a ne)

-- A pattern that was added is itself allowed from then on, at any time.
pub allows-add :
    (pattern : Bytes) (a : Allowlist) (now : ℕ)
    → is_empty (trim_space pattern) ≡ false
    → allows now (add pattern a).0 (trim_space pattern) ≡ true
unfolding allows
allows-add pattern a now ne =
    let p = trim_space pattern in
    ground (arith, (match_domain-add pattern p a ne).1, match_domain_self p)

-- An addition takes no permission away.
pub allows-add_mono :
    (pattern host : Bytes) (a : Allowlist) (now : ℕ)
    → allows now a host ≡ true
    → allows now (add pattern a).0 host ≡ true
unfolding allows add add_trimmed
allows-add_mono pattern host a now h =
    ground (arith, match_domain-append host a.items (trim_space pattern ∷ []))

-- A second addition of the same pattern reports no change and makes none.
pub add_idem :
    (pattern : Bytes) (a : Allowlist) → add pattern (add pattern a).0 ≡ ((add pattern a).0, false)
unfolding add add_trimmed
add_idem pattern a = ground (
  arith,
  match_domain-to_lower (trim_space pattern) (a.items ++ trim_space pattern ∷ []),
  match_domain-append (trim_space pattern) a.items (trim_space pattern ∷ []),
  match_domain_self (trim_space pattern),
)

-- `AllowAllFor(d)` opens egress to every host until `d` after the call and not beyond the later of
-- that time and the end of the window that was open; behind that the list alone decides.
pub allows-allow_all_for :
    (now d later : ℕ) (a : Allowlist) (host : Bytes)
    → (later < now + d → allows later (allow_all_for now d a) host ≡ true)
      × (now + d ≤ later
          → a.allow_all ≤ later
          → allows later (allow_all_for now d a) host ≡ match_domain host a.items)
      × (a.allow_all ≤ (allow_all_for now d a).allow_all)
unfolding allows allow_all_for
allows-allow_all_for now d later a host = (λ h. ground arith, λ h k. ground arith, ground arith)

-- `AllowAllUntil` answers a time in the future exactly while the window is open.
pub allow_all_until_iff :
    (now : ℕ) (a : Allowlist) → (now < allow_all_until now a) ↔ (now < a.allow_all)
unfolding allow_all_until
allow_all_until_iff now a = (λ h. ground arith, λ h. ground arith)
