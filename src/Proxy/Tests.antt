-- ===== src/Proxy/Tests.antt =====
-- Runs of the proxy's operations, and its theorems at concrete inputs.
mod Dns
mod Traffic
mod Tokens
mod Connections
use runclaude.Prelude.{
  ℕ, ◌<◌, ◌≡◌, refl, ◌↔◌, ◌⊎◌, inl, inr, Bool, true, false, not, ◌||◌, ◌&&◌, List, [], ◌∷◌, ◌++◌,
  Option, none, some, map, arith, length, if◌then◌else◌, All, Any, ◌+◌, ◌*◌, ◌%◌, drop, ◌==◌,
}
use runclaude.Bits.{uint16, int64_mod}
use runclaude.Dict.{Dict, lookup}
use runclaude.Text.{
  Bytes, codes, to_lower, trim_space, trim_suffix, is_empty, member, has_byte, join, bytes_eq,
}
use runclaude.Proxy.Match.{match_pattern, match_domain}
use runclaude.Proxy.Match.Relation.{Matches}
use runclaude.Proxy.Match.Sound.{match_pattern_iff}
use runclaude.Proxy.Match.Domain.{match_domain_iff}
use runclaude.Proxy.Allowlist.{Allowlist, new_allowlist, allows, add}
use runclaude.Proxy.Allowlist.Laws.{match_domain-add}
use runclaude.Proxy.Approver.{
  Approver, new_approver, approve, record_denial, host_key, denied_entries, entries,
}
use runclaude.Proxy.Approver.Invariant.{IsValid, Reach, here, next, deny, Reach-IsValid}
use runclaude.Proxy.Approver.History.{Event, run, since, entry_of, lookup-run, approve-run}

-- a list with two patterns, and an approver of it
abbrev pub two_patterns : Allowlist
two_patterns = new_allowlist (codes "github.com" ∷ codes "*.pypi.org" ∷ [])

abbrev pub example : Bytes
example = codes "example.com"

match_run : match_pattern (codes "a.b.c") (codes "a.*.c") ≡ true
unfolding match_pattern
match_run = refl

match_other : match_pattern (codes "badgithub.com") (codes "*.github.com") ≡ false
unfolding match_pattern
match_other = refl

match_pattern_iff_example :
    (match_pattern (codes "api.github.com") (codes "*.github.com") ≡ true)
    ↔ Matches (codes "api.github.com") (codes "*.github.com")
match_pattern_iff_example = match_pattern_iff (codes "api.github.com") (codes "*.github.com")

match_domain-add_example :
    ((add example two_patterns).0.allow_all ≡ two_patterns.allow_all)
    × (match_domain example (add example two_patterns).0.items ≡ (
        match_domain example two_patterns.items
        || (not (match_domain (trim_space example) two_patterns.items)
            && match_domain example (trim_space example ∷ []))))
unfolding trim_space
match_domain-add_example = match_domain-add example example two_patterns refl

abbrev one_denial :
    Reach (new_approver two_patterns) 0 (record_denial example 7 (new_approver two_patterns)) 7
one_denial = next here (deny example 7 (omega arith))

Reach-IsValid_example : IsValid 7 (record_denial example 7 (new_approver two_patterns))
Reach-IsValid_example = Reach-IsValid one_denial

lookup-run_example :
    lookup example
      (run (Event.deny example 9 ∷ Event.deny example 4 ∷ []) (new_approver two_patterns)).denied
    ≡ entry_of example (since example (Event.deny example 9 ∷ Event.deny example 4 ∷ []))
lookup-run_example =
    lookup-run two_patterns example refl (Event.deny example 9 ∷ Event.deny example 4 ∷ [])

approve-run_example :
    allows 3
      (run (Event.deny example 2 ∷ []) (approve example (new_approver two_patterns)).0).allow
      (host_key example)
    ≡ true
unfolding trim_space to_lower
approve-run_example =
    approve-run example (Event.deny example 2 ∷ []) 3 (new_approver two_patterns) refl
