-- ===== src/Containment/Sound.antt =====
-- containment.go, `containmentLeak`: the mounts that it lets pass.
use runclaude.Prelude.{
  ◌≡◌, ◌↔◌, refl, ap, ap₂, sym, Bool-cases, ◌∙◌, true, false, ◌⊎◌, inl, inr, List, [], ◌∷◌, Option,
  none, some, map, arith, All,
}
use runclaude.Mountinfo.{MountEntry, path_contains}
use runclaude.Text.{Bytes, bytes_eq}
use runclaude.Text.Equality.{bytes_eq_iff}
use runclaude.Containment.{
  Leak, or_entry, live_entry, add_prot, prots_of, protected_by_id, alias_in, leak_in, with_prots,
  containment_leak,
}

-- `e` shows none of what `p` holds
abbrev pub Apart : MountEntry → MountEntry → Type 0
Apart e p = e.dev ≡ p.dev → path_contains e.root_in_fs p.root_in_fs ≡ false

-- a mount below the root, none of the protected ones, shows no protected one
abbrev pub Harmless : Bytes → List MountEntry → MountEntry → Type 0
Harmless rootfs prots e =
    path_contains rootfs e.mount_point ≡ true
    → protected_by_id e.mount_id prots ≡ false
    → All (Apart e) prots

alias_in-Apart : (e : MountEntry) (ps : List MountEntry) → alias_in e ps ≡ none → All (Apart e) ps
unfolding alias_in
alias_in-Apart e [] h = tt
alias_in-Apart e (p ∷ ps) h = (
  λ same. ground (arith, h, same, bytes_eq_iff e.dev p.dev),
  alias_in-Apart e ps (ground (arith, h)),
)

Apart-alias_in : (e : MountEntry) (ps : List MountEntry) → All (Apart e) ps → alias_in e ps ≡ none
unfolding alias_in
Apart-alias_in e [] h = refl
Apart-alias_in e (p ∷ ps) h = ground (arith, h.0, Apart-alias_in e ps h.1, bytes_eq_iff e.dev p.dev)

module _ (rootfs : Bytes) (prots : List MountEntry) where
  leak_in-Harmless :
      (es : List MountEntry) → leak_in rootfs prots es ≡ none → All (Harmless rootfs prots) es
  unfolding leak_in
  leak_in-Harmless [] h = tt
  leak_in-Harmless (e ∷ es) h = (
    λ below free. alias_in-Apart e prots (ground (arith, h, below, free)),
    leak_in-Harmless es (ground (arith, h)),
  )

  Harmless-leak_in :
      (es : List MountEntry) → All (Harmless rootfs prots) es → leak_in rootfs prots es ≡ none
  unfolding leak_in
  Harmless-leak_in [] h = refl
  Harmless-leak_in (e ∷ es) h =
      let rest : leak_in rootfs prots es ≡ none = Harmless-leak_in es h.1 in
      elim (Bool-cases (path_contains rootfs e.mount_point)) [
        | inr out ↦ rw out rest
        | inl below ↦ elim (Bool-cases (protected_by_id e.mount_id prots)) [
          | inl own ↦ rw below (rw own rest)
          | inr free ↦ rw below (rw free (rw (Apart-alias_in e prots (h.0 below free)) rest))
        ]
      ]

abbrev Mounts : Bytes → Option MountEntry → Type 0
Mounts want o = (e : MountEntry) → o ≡ some e → e.mount_point ≡ want

or_entry-Mounts :
    (want : Bytes) (o : Option MountEntry) (f : MountEntry)
    → Mounts want o
    → f.mount_point ≡ want
    → Mounts want (or_entry o f)
or_entry-Mounts want none f h same e is =
    let found : f ≡ e = cc in ap (λ x. x.mount_point) (sym found) ∙ same
or_entry-Mounts want (some g) f h same e is = h e is

live_entry-Mounts : (want : Bytes) (es : List MountEntry) → Mounts want (live_entry want es)
unfolding live_entry
live_entry-Mounts want [] = λ e is. cc
live_entry-Mounts want (f ∷ es) = elim (Bool-cases (bytes_eq f.mount_point want)) [
  | inl same ↦ rw same (
      or_entry-Mounts want (live_entry want es) f (live_entry-Mounts want es)
        ((bytes_eq_iff f.mount_point want).0 same))
  | inr other ↦ rw other (live_entry-Mounts want es)
]

add_prot-mount_point :
    (want : Bytes) (wants : List Bytes) (o : Option MountEntry) (r : Leak ⊎ List MountEntry)
    → Mounts want o
    → ((ps : List MountEntry) → r ≡ inr ps → map (λ p. p.mount_point) ps ≡ wants)
    → (prots : List MountEntry) → add_prot want o r ≡ inr prots
    → map (λ p. p.mount_point) prots ≡ want ∷ wants
add_prot-mount_point want wants none r a b prots h = cc
add_prot-mount_point want wants (some e) (inl l) a b prots h = cc
add_prot-mount_point want wants (some e) (inr ps) a b prots h =
    let same : e ∷ ps ≡ prots = cc in rw (sym same) (ap₂ ◌∷◌ (a e refl) (b ps refl))

-- what `prots` holds: an entry of every protected mount point
prots_of-mount_point :
    (entries : List MountEntry) (wants : List Bytes) (prots : List MountEntry)
    → prots_of entries wants ≡ inr prots
    → map (λ p. p.mount_point) prots ≡ wants
unfolding prots_of
prots_of-mount_point entries [] = λ prots h. let same : [] ≡ prots = cc in rw (sym same) refl
prots_of-mount_point entries (want ∷ wants) =
    add_prot-mount_point want wants (live_entry want entries) (prots_of entries wants)
      (live_entry-Mounts want entries) (prots_of-mount_point entries wants)

-- If every protected mount point has an entry, the check returns nil exactly if no mount at or
-- below the root, other than a protected one, has the device of a protected mount and a root in
-- the file system that contains the protected one's.
pub containment_leak_iff :
    (entries : List MountEntry) (rootfs : Bytes) (wants : List Bytes) (prots : List MountEntry)
    → prots_of entries wants ≡ inr prots
    → (containment_leak entries rootfs wants ≡ none) ↔ All (Harmless rootfs prots) entries
unfolding containment_leak with_prots
containment_leak_iff entries rootfs wants prots h =
    rw h (leak_in-Harmless rootfs prots entries, Harmless-leak_in rootfs prots entries)
