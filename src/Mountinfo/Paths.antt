-- ===== src/Mountinfo/Paths.antt =====
-- mountinfo.go, `pathContains`, against the hierarchy of paths.
use runclaude.Prelude.{
  ◌≡◌, ◌↔◌, sym, ap, ◌∙◌, Bool, true, false, ◌||◌, [], ◌∷◌, ◌++◌, if◌then◌else◌, append_assoc,
  Bool-cases, inl, inr, arith,
}
use runclaude.Text.{Bytes, codes, bytes_eq, has_prefix, is_empty}
use runclaude.Text.Equality.{bytes_eq_iff, bytes_eq_refl}
use runclaude.Text.Affix.{has_prefix-append, has_prefix-split}
use runclaude.Mountinfo.{trim_slashes, path_contains}

-- the path itself, and what stands behind a slash under it; the root is the empty path here
pub data Below (parent : Bytes) : Bytes → Type 0 where
  itself : is_empty parent ≡ false → Below parent parent
  under : (rest : Bytes) → Below parent (parent ++ (codes "/" ++ rest))

Below-cast : {parent a b : Bytes} → a ≡ b → Below parent b → Below parent a
Below-cast {parent} e h = rw e h

-- `pathContains` behind its first line
abbrev at_or_below : Bytes → Bytes → Bool
at_or_below p child =
    if is_empty p
    then has_prefix child (codes "/")
    else bytes_eq child p || has_prefix child (p ++ codes "/")

has_prefix-Below : (p child : Bytes) → has_prefix child (p ++ codes "/") ≡ true → Below p child
has_prefix-Below p child h =
    Below-cast (has_prefix-split child (p ++ codes "/") h ∙ append_assoc p (codes "/") _) (under _)

empty-Below :
    (p child : Bytes) → is_empty p ≡ true → has_prefix child (codes "/") ≡ true → Below p child
empty-Below [] child e h = has_prefix-Below [] child h
empty-Below (x ∷ p) child e h = cc

at_or_below-Below : (p child : Bytes) → at_or_below p child ≡ true → Below p child
at_or_below-Below p child h = elim (Bool-cases (is_empty p)) [
  | inl e ↦ empty-Below p child e (ground (arith, h, e))
  | inr filled ↦ elim (Bool-cases (bytes_eq child p)) [
    | inl same ↦ Below-cast ((bytes_eq_iff child p).0 same) (itself filled)
    | inr other ↦ has_prefix-Below p child (ground (arith, h, filled, other))
  ]
]

has_prefix-under : (p rest : Bytes) → has_prefix (p ++ (codes "/" ++ rest)) (p ++ codes "/") ≡ true
has_prefix-under p rest =
    ap (λ s. has_prefix s (p ++ codes "/")) (sym (append_assoc p (codes "/") rest))
    ∙ has_prefix-append (p ++ codes "/") rest

Below-at_or_below : (p child : Bytes) → Below p child → at_or_below p child ≡ true
Below-at_or_below p _ (itself h) = ground (arith, h, bytes_eq_refl p)
Below-at_or_below [] _ (under rest) = has_prefix-append (codes "/") rest
Below-at_or_below (x ∷ p) _ (under rest) = ground (arith, has_prefix-under (x ∷ p) rest)

-- `pathContains` answers true exactly if the child is the parent, without its trailing slashes, or
-- stands behind a slash under it; every absolute path stands under the root.
pub path_contains_iff :
    (parent child : Bytes) → (path_contains parent child ≡ true) ↔ Below (trim_slashes parent) child
unfolding path_contains
path_contains_iff parent child =
    (at_or_below-Below (trim_slashes parent) child, Below-at_or_below (trim_slashes parent) child)
