-- ===== src/Launch/Exclusive/Decided.antt =====
-- main.go and session.go: when a start goes on beside others, and what --exclusive=probe tells.
use runclaude.Prelude.{◌≡◌, ◌↔◌, Bool, true, false, ◌&&◌, ◌||◌, List, arith}
use runclaude.Text.{Bytes, codes, bytes_eq, is_empty}
use runclaude.Text.Equality.{bytes_eq_iff}
use runclaude.Session.{SessionInfo}
use runclaude.Launch.Exclusive.{start, decide}

-- A start goes on exactly if --approve is not given and --exclusive is `no`, or is `yes` while no
-- other session lives.
pub decide-start :
    (exclusive : Bytes) (approve : Bool) (others : List SessionInfo)
    → (decide exclusive approve others ≡ start) ↔ (
        (approve ≡ false)
        × ((bytes_eq exclusive (codes "no")
              || (bytes_eq exclusive (codes "yes") && is_empty others))
            ≡ true))
unfolding decide
decide-start exclusive approve others = (
  λ h. (ground arith, ground arith),
  λ h. ground (
    arith,
    h.0,
    h.1,
    bytes_eq_iff exclusive (codes "no"),
    bytes_eq_iff exclusive (codes "yes"),
    bytes_eq_iff exclusive (codes "probe"),
  ),
)
