-- ===== src/Proxy/Allowlist.antt =====
-- proxy/approval.go: the growable allowlist. A time is a number, 0 for Go's zero time; each
-- operation that reads the clock is given what it reads. One operation is one step, as under `mu`.
pub mod Laws
use runclaude.Prelude.{ℕ, ◌+◌, Bool, true, false, List, [], ◌∷◌, ◌++◌, ltb, if◌then◌else◌}
use runclaude.Text.{Bytes, is_empty, to_lower, trim_space}
use runclaude.Proxy.Match.{match_domain}

-- `Allowlist`
pub record Allowlist : Type 0 where
  pub items : List Bytes
  pub allow_all : ℕ

-- `NewAllowlist(initial)`
abbrev pub new_allowlist : List Bytes → Allowlist
new_allowlist initial = record { items = initial; allow_all = 0 }

-- `Match(host)` at the time `now`
unfoldable pub allows : ℕ → Allowlist → Bytes → Bool
allows now a host = if ltb now a.allow_all then true else match_domain host a.items

-- `AllowAllFor(d)` at the time `now`
unfoldable pub allow_all_for : ℕ → ℕ → Allowlist → Allowlist
allow_all_for now d a = if ltb a.allow_all (now + d) then record a { allow_all = now + d } else a

-- `AllowAllUntil()` at the time `now`
unfoldable pub allow_all_until : ℕ → Allowlist → ℕ
allow_all_until now a = if ltb now a.allow_all then a.allow_all else 0

-- `Add(pattern)`, behind the trimming
unfoldable pub add_trimmed : Bytes → Allowlist → Allowlist × Bool
add_trimmed pattern a =
    if is_empty pattern
    then (a, false)
    else if match_domain (to_lower pattern) a.items
    then (a, false)
    else (record a { items = a.items ++ pattern ∷ [] }, true)

-- `Add(pattern)`: the list, and whether it changed
unfoldable pub add : Bytes → Allowlist → Allowlist × Bool
unfolding add_trimmed
add pattern = add_trimmed (trim_space pattern)
