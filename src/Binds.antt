-- ===== src/Binds.antt =====
-- main.go: the binds of the container, of which the last one at a destination counts.
pub mod Last
pub mod Visible
use runclaude.Prelude.{
  ◌≡◌, Bool, true, false, not, ◌||◌, List, [], ◌∷◌, Option, none, some, if◌then◌else◌,
}
use runclaude.Text.{Bytes, bytes_eq, is_empty}

-- `Bind`
pub record Bind : Type 0 where
  pub path : Bytes
  pub target : Bytes
  pub read_only : Bool
  pub tmpfs : Bool

-- `b.dest()`, with the field `Dest` as `target`
unfoldable pub dest : Bind → Bytes
dest b = if not (is_empty b.target) then b.target else b.path

-- `dedupedBinds` after one step of the loop: `seenDest` leads to the entry with the destination of `d`
unfoldable pub place : Bind → List Bind → List Bind
unfolding dest bytes_eq
place d [] = d ∷ []
place d (b ∷ bs) = if bytes_eq (dest b) (dest d) then d ∷ bs else b ∷ place d bs

unfoldable pub dedup_from : List Bind → List Bind → List Bind
unfolding place
dedup_from placed [] = placed
dedup_from placed (d ∷ ds) = dedup_from (place d placed) ds

-- the loop of `childMain` over `cfg.Binds`
unfoldable pub dedup_binds : List Bind → List Bind
unfolding dedup_from
dedup_binds binds = dedup_from [] binds
