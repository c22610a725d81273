-- ===== src/Binds/Visible.antt =====
-- main.go, `childMain`: which bind is seen at a path, once the binds are mounted in their order.
use runclaude.Prelude.{
  ◌≡◌, refl, ◌∙◌, true, false, List, [], ◌∷◌, ◌++◌, Option, none, some, if◌then◌else◌, All,
  Bool-cases, inl, inr,
}
use runclaude.Text.{Bytes, bytes_eq}
use runclaude.Text.Equality.{bytes_eq_iff}
use runclaude.Dict.{or_lookup}
use runclaude.Mountinfo.{path_contains}
use runclaude.Binds.{Bind, dest, place, dedup_from}

-- the last bind at `p` or at a directory above it, which hides those that are mounted before it
unfoldable pub visible_at : Bytes → List Bind → Option Bind
visible_at p [] = none
visible_at p (b ∷ bs) =
    or_lookup (visible_at p bs) (if path_contains (dest b) p then some b else none)

-- no bind of the list stands at `p`
abbrev pub Elsewhere : Bytes → List Bind → Type 0
Elsewhere p = All (λ b. bytes_eq (dest b) p ≡ false)

-- no bind of the list stands at `p` or above it
abbrev pub Beside : Bytes → List Bind → Type 0
Beside p = All (λ b. path_contains (dest b) p ≡ false)

pub dedup_from-append :
    (placed a b : List Bind) → dedup_from placed (a ++ b) ≡ dedup_from (dedup_from placed a) b
unfolding dedup_from
dedup_from-append placed [] b = refl
dedup_from-append placed (d ∷ a) b = dedup_from-append (place d placed) a b

pub place-Elsewhere :
    (p : Bytes) (d : Bind) (placed : List Bind)
    → bytes_eq (dest d) p ≡ false
    → Elsewhere p placed
    → Elsewhere p (place d placed)
unfolding place
place-Elsewhere p d [] h k = (h, tt)
place-Elsewhere p d (b ∷ bs) h k = elim (Bool-cases (bytes_eq (dest b) (dest d))) [
  | inl e ↦ rw e (h, k.1)
  | inr e ↦ rw e (k.0, place-Elsewhere p d bs h k.1)
]

pub dedup_from-Elsewhere :
    (p : Bytes) (placed ds : List Bind)
    → Elsewhere p ds
    → Elsewhere p placed
    → Elsewhere p (dedup_from placed ds)
unfolding dedup_from
dedup_from-Elsewhere p placed [] h k = k
dedup_from-Elsewhere p placed (d ∷ ds) h k =
    dedup_from-Elsewhere p (place d placed) ds h.1 (place-Elsewhere p d placed h.0 k)

-- A bind at a new destination is mounted last.
pub visible_at-place_new :
    (p : Bytes) (d : Bind) (placed : List Bind)
    → dest d ≡ p
    → path_contains p p ≡ true
    → Elsewhere p placed
    → visible_at p (place d placed) ≡ some d
unfolding visible_at place
visible_at-place_new p d [] e self k = rw (e, self) refl
visible_at-place_new p d (b ∷ bs) e self k =
    rw (e, k.0, visible_at-place_new p d bs e self k.1) refl

-- A bind beside `p` changes nothing there, new or in the place of another one.
pub visible_at-place_beside :
    (p : Bytes) (d : Bind) (placed : List Bind)
    → path_contains (dest d) p ≡ false
    → visible_at p (place d placed) ≡ visible_at p placed
unfolding visible_at place
visible_at-place_beside p d [] h = rw h refl
visible_at-place_beside p d (b ∷ bs) h = elim (Bool-cases (bytes_eq (dest b) (dest d))) [
  | inl e ↦ rw (e, (bytes_eq_iff (dest b) (dest d)).0 e, h) refl
  | inr e ↦ rw (e, visible_at-place_beside p d bs h) refl
]

pub visible_at-dedup_from :
    (p : Bytes) (placed ds : List Bind)
    → Beside p ds
    → visible_at p (dedup_from placed ds) ≡ visible_at p placed
unfolding dedup_from
visible_at-dedup_from p placed [] h = refl
visible_at-dedup_from p placed (d ∷ ds) h =
    visible_at-dedup_from p (place d placed) ds h.1 ∙ visible_at-place_beside p d placed h.0
