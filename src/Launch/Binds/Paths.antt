-- ===== src/Launch/Binds/Paths.antt =====
-- main.go, `pathBinds`: the directories of $PATH that the container is given.
use runclaude.Prelude.{
  ◌≡◌, refl, true, false, not, ◌||◌, List, [], ◌∷◌, map, arith, All, Bool-cases, inl, inr,
}
use runclaude.Text.{Bytes, codes, member, is_empty}
use runclaude.Text.Equality.{bytes_eq_iff, bytes_eq_refl}
use runclaude.Filepath.{is_abs, split_list}
use runclaude.Binds.{Bind}
use runclaude.Launch.Binds.{Host, top_of, resolved, needs_bind, path_binds_from, path_binds}

-- no path stands twice
abbrev pub DistinctPaths : List Bind → Type 0
DistinctPaths [] = Unit
DistinctPaths (b ∷ bs) = (member b.path (map (λ c. c.path) bs) ≡ false) × DistinctPaths bs

-- a bind that `pathBinds` may make
pub record Reachable (h : Host) (needs : List Bytes) (b : Bind) : Type 0 where
  pub is_read_only : b.read_only ≡ true
  pub shares : b.tmpfs ≡ false
  pub in_place : b.target ≡ []
  pub directory : h.is_dir b.path ≡ true
  pub needed : member (top_of h b.path) needs ≡ true

abbrev path_bind : Bytes → Bind
path_bind p = record { path = p; target = []; read_only = true; tmpfs = false }

member_head : (x : Bytes) (l : List Bytes) → member x (x ∷ l) ≡ true
unfolding member
member_head x l = ground (arith, bytes_eq_refl x)

abbrev paths : List Bind → List Bytes
paths = map (λ b. b.path)

module _ (h : Host) (needs : List Bytes) where
  -- what one entry of $PATH makes of the binds of the others
  visit :
      (P : List Bind → Type 0) (seen : List Bytes) (p : Bytes) (ps : List Bytes)
      → P (path_binds_from h needs seen ps)
      → P (path_binds_from h needs (resolved h p ∷ seen) ps)
      → (member (top_of h (resolved h p)) needs ≡ true
          → h.is_dir (resolved h p) ≡ true
          → P (path_bind (resolved h p) ∷ path_binds_from h needs (resolved h p ∷ seen) ps))
      → P (path_binds_from h needs seen (p ∷ ps))
  unfolding path_binds_from
  visit P seen p ps skipped rest kept = elim (Bool-cases (is_empty p || not (is_abs p))) [
    | inl e ↦ rw e skipped
    | inr e ↦ rw e (elim (Bool-cases (member (resolved h p) seen)) [
      | inl f ↦ rw f skipped
      | inr f ↦ rw f (elim (Bool-cases (member (top_of h (resolved h p)) needs)) [
        | inr n ↦ rw n rest
        | inl n ↦ rw n (elim (Bool-cases (h.is_dir (resolved h p))) [
          | inr d ↦ rw d rest
          | inl d ↦ rw d (kept n d)
        ])
      ])
    ])
  ]

  from-Reachable :
      (seen ps : List Bytes) → All (Reachable h needs) (path_binds_from h needs seen ps)
  from-Reachable seen [] = unfold path_binds_from in tt
  from-Reachable seen (p ∷ ps) =
      let rest = from-Reachable (resolved h p ∷ seen) ps in
      visit (All (Reachable h needs)) seen p ps (from-Reachable seen ps) rest (λ n d. (
        record { is_read_only = refl; shares = refl; in_place = refl; directory = d; needed = n },
        rest,
      ))

  from_unseen :
      (x : Bytes) (seen ps : List Bytes)
      → member x seen ≡ true
      → member x (paths (path_binds_from h needs seen ps)) ≡ false
  unfolding path_binds_from member
  from_unseen x seen [] k = refl
  from_unseen x seen (p ∷ ps) k = ground (
    arith,
    from_unseen x seen ps,
    from_unseen x (resolved h p ∷ seen) ps,
    bytes_eq_iff x (resolved h p),
  )

  from-Distinct : (seen ps : List Bytes) → DistinctPaths (path_binds_from h needs seen ps)
  from-Distinct seen [] = unfold path_binds_from in tt
  from-Distinct seen (p ∷ ps) =
      let rest = from-Distinct (resolved h p ∷ seen) ps in
      let here : member (resolved h p) (resolved h p ∷ seen) ≡ true =
        member_head (resolved h p) seen in
      visit DistinctPaths seen p ps (from-Distinct seen ps) rest
        (λ n d. (from_unseen (resolved h p) (resolved h p ∷ seen) ps here, rest))

-- Every bind that `pathBinds` makes is read-only, no tmpfs, at its own path, a directory, and
-- under one of the first directories that the root does not share; and no path is bound twice.
pub path_binds-Reachable :
    (h : Host) (home : Bytes)
    → All (Reachable h (needs_bind h home)) (path_binds h home) × DistinctPaths (path_binds h home)
unfolding path_binds
path_binds-Reachable h home = (
  from-Reachable h (needs_bind h home) [] (split_list (h.getenv (codes "PATH"))),
  from-Distinct h (needs_bind h home) [] (split_list (h.getenv (codes "PATH"))),
)
