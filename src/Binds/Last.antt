-- ===== src/Binds/Last.antt =====
-- main.go, `childMain`: which bind is mounted at a destination.
use runclaude.Prelude.{◌≡◌, refl, ap, ◌∙◌, List, [], ◌∷◌, Option, none, some, if◌then◌else◌, arith}
use runclaude.Text.{Bytes, bytes_eq}
use runclaude.Text.Equality.{bytes_eq_iff}
use runclaude.Dict.{or_lookup}
use runclaude.Binds.{Bind, dest, place, dedup_from, dedup_binds}

-- the first bind at `p`
unfoldable pub first_at : Bytes → List Bind → Option Bind
first_at p [] = none
first_at p (b ∷ bs) = if bytes_eq (dest b) p then some b else first_at p bs

-- the last bind at `p`
unfoldable pub last_at : Bytes → List Bind → Option Bind
last_at p [] = none
last_at p (b ∷ bs) = or_lookup (last_at p bs) (if bytes_eq (dest b) p then some b else none)

first_at-place :
    (p : Bytes) (d : Bind) (bs : List Bind)
    → first_at p (place d bs) ≡ (if bytes_eq (dest d) p then some d else first_at p bs)
unfolding first_at place
first_at-place p d [] = refl
first_at-place p d (b ∷ bs) = ground (
  arith,
  first_at-place p d bs,
  bytes_eq_iff (dest b) (dest d),
  bytes_eq_iff (dest b) p,
  bytes_eq_iff (dest d) p,
)

first_at-dedup_from :
    (p : Bytes) (placed ds : List Bind)
    → first_at p (dedup_from placed ds) ≡ or_lookup (last_at p ds) (first_at p placed)
unfolding dedup_from last_at
first_at-dedup_from p placed [] = refl
first_at-dedup_from p placed (d ∷ ds) =
    first_at-dedup_from p (place d placed) ds
    ∙ (ap (or_lookup (last_at p ds)) (first_at-place p d placed) ∙ step (last_at p ds))
  where
    step :
        (o : Option Bind)
        → or_lookup o (if bytes_eq (dest d) p then some d else first_at p placed)
          ≡ or_lookup
              (or_lookup o (if bytes_eq (dest d) p then some d else none))
              (first_at p placed)
    step none = ground arith
    step (some b) = refl

or_lookup-none : (o : Option Bind) → or_lookup o none ≡ o
or_lookup-none none = refl
or_lookup-none (some v) = refl

-- After the removal of duplicates the bind at a destination is the last one that was given for it,
-- if there was one.
pub first_at-dedup_binds :
    (p : Bytes) (binds : List Bind) → first_at p (dedup_binds binds) ≡ last_at p binds
unfolding dedup_binds first_at
first_at-dedup_binds p binds = first_at-dedup_from p [] binds ∙ or_lookup-none (last_at p binds)
