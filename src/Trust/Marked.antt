-- ===== src/Trust/Marked.antt =====
-- trust.go: what the new map says, and what it keeps.
use runclaude.Prelude.{
  ◌≡◌, ap, ◌∙◌, ◌&&◌, ◌||◌, true, false, none, some, arith, if◌then◌else◌, Bool-cases, inl, inr,
}
use runclaude.Dict.{Dict, lookup, insert, lookup-insert}
use runclaude.Json.{Json, bool, object, as_map-object}
use runclaude.Text.{Bytes, codes, bytes_eq}
use runclaude.Text.Equality.{bytes_eq_iff, bytes_eq_refl}
use runclaude.Trust.{
  is_true, map_at, accepted_key, onboarded_key, is_trusted, trust_project, trust_root,
}

trust_project-trusted : (proj : Dict Json) → is_trusted (trust_project proj) ≡ true
unfolding is_trusted trust_project is_true bytes_eq
trust_project-trusted proj =
    rw (lookup-insert onboarded_key accepted_key (bool true) (insert accepted_key (bool true) proj))
      (rw (lookup-insert accepted_key accepted_key (bool true) proj) (
        rw (
          lookup-insert onboarded_key onboarded_key (bool true)
            (insert accepted_key (bool true) proj))))

map_at-insert :
    (k j : Bytes) (d m : Dict Json)
    → map_at j (insert k (object d) m) ≡ (if bytes_eq k j then d else map_at j m)
map_at-insert k j d m =
    rw (lookup-insert k j (object d) m)
      (elim (Bool-cases (bytes_eq k j)) [ inl e ↦ rw e (rw (as_map-object d)) | inr e ↦ rw e ])

-- the map of a project
abbrev pub project : Bytes → Dict Json → Dict Json
project j root = map_at j (map_at (codes "projects") root)

-- the map that is written
new_root : Bytes → Dict Json → Dict Json
new_root cwd root =
    insert (codes "projects")
      (object
        (insert cwd (object (trust_project (project cwd root))) (map_at (codes "projects") root)))
      root

project-new_root :
    (cwd j : Bytes) (root : Dict Json)
    → project j (new_root cwd root)
      ≡ (if bytes_eq cwd j then trust_project (project cwd root) else project j root)
unfolding new_root
project-new_root cwd j root =
    ap (map_at j) (
      map_at-insert (codes "projects") (codes "projects") _ root
      ∙ rw (bytes_eq_refl (codes "projects")))
    ∙ map_at-insert cwd j (trust_project (project cwd root)) (map_at (codes "projects") root)

trust_root-eq :
    (cwd : Bytes) (root : Dict Json) {out : Dict Json}
    → trust_root cwd root ≡ some out
    → out ≡ new_root cwd root
unfolding trust_root new_root
trust_root-eq cwd root h = ground arith

marked :
    (cwd : Bytes) (root proj : Dict Json)
    → project cwd root ≡ trust_project proj
    → trust_root cwd root ≡ none
unfolding trust_root
marked cwd root proj e = rw e (rw (trust_project-trusted proj))

-- a key of the project's map after the marks
lookup-trust_project :
    (field : Bytes) (proj : Dict Json)
    → lookup field (trust_project proj) ≡ (
        if bytes_eq accepted_key field || bytes_eq onboarded_key field
        then some (bool true)
        else lookup field proj)
unfolding trust_project
lookup-trust_project field proj = ground (
  arith,
  lookup-insert onboarded_key field (bool true) (insert accepted_key (bool true) proj),
  lookup-insert accepted_key field (bool true) proj,
)

-- Where `ensureProjectTrusted` writes a new map, a second call leaves it as it is; the project of the
-- directory has true under `hasTrustDialogAccepted` and `hasCompletedProjectOnboarding`, and what it
-- had under every other key; every other project has what it had, and so has the map under every key
-- but `projects`.
pub trust_root-marks :
    (cwd j field key : Bytes) (root : Dict Json) {out : Dict Json}
    → trust_root cwd root ≡ some out
    → bytes_eq (codes "projects") key ≡ false
    → (trust_root cwd out ≡ none)
      × (lookup field (project j out) ≡ (
          if bytes_eq cwd j
            && (bytes_eq (codes "hasTrustDialogAccepted") field
                || bytes_eq (codes "hasCompletedProjectOnboarding") field)
          then some (bool true)
          else lookup field (project j root)))
      × (lookup key out ≡ lookup key root)
trust_root-marks cwd j field key root h other = rw (trust_root-eq cwd root h) (
  again,
  elim (Bool-cases (bytes_eq cwd j)) [
    | inl e ↦
        rw (project-new_root cwd j root, e)
          (lookup-trust_project field (project cwd root)
            ∙ ap
                (λ i.
                  if bytes_eq accepted_key field || bytes_eq onboarded_key field
                  then some (bool true)
                  else lookup field (project i root))
                ((bytes_eq_iff cwd j).0 e))
    | inr e ↦ rw (project-new_root cwd j root, e)
  ],
  unfold new_root in (lookup-insert (codes "projects") key _ root ∙ rw other),
)
  where
    again : trust_root cwd (new_root cwd root) ≡ none
    again =
        marked cwd (new_root cwd root) (project cwd root)
          (project-new_root cwd cwd root ∙ rw (bytes_eq_refl cwd))
