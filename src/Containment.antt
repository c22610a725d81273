-- ===== src/Containment.antt =====
-- containment.go: a mount below the container's root must not show a protected mount's volume again.
pub mod Sound
use runclaude.Prelude.{
  ◌≡◌, ℕ, Bool, true, false, not, ◌&&◌, ◌||◌, ◌⊎◌, inl, inr, List, [], ◌∷◌, Option, none, some,
  ◌==◌, if◌then◌else◌,
}
use runclaude.Mountinfo.{ℤ, pos, negsuc, MountEntry, path_contains}
use runclaude.Text.{Bytes, bytes_eq}

-- the errors of `containmentLeak`: a protected mount point that is nowhere, and a mount that shows a
-- protected one's contents
pub data Leak : Type 0 where
  not_present : Bytes → Leak
  aliases : MountEntry → MountEntry → Leak

abbrev pub or_entry : Option MountEntry → MountEntry → Option MountEntry
or_entry none e = some e
or_entry (some f) e = some f

-- the last entry whose mount point is `want`
unfoldable pub live_entry : Bytes → List MountEntry → Option MountEntry
unfolding bytes_eq
live_entry want [] = none
live_entry want (e ∷ es) =
    let rest = live_entry want es in if bytes_eq e.mount_point want then or_entry rest e else rest

abbrev pub add_prot : Bytes → Option MountEntry → Leak ⊎ List MountEntry → Leak ⊎ List MountEntry
add_prot want none rest = inl (not_present want)
add_prot want (some e) (inl l) = inl l
add_prot want (some e) (inr ps) = inr (e ∷ ps)

-- `prots`, each with all of its entry
unfoldable pub prots_of : List MountEntry → List Bytes → Leak ⊎ List MountEntry
unfolding live_entry
prots_of entries [] = inr []
prots_of entries (want ∷ wants) = add_prot want (live_entry want entries) (prots_of entries wants)

abbrev pub int_eq : ℤ → ℤ → Bool
int_eq (pos a) (pos b) = a == b
int_eq (negsuc a) (negsuc b) = a == b
int_eq _ _ = false

-- `protectedByID[id]`
unfoldable pub protected_by_id : ℤ → List MountEntry → Bool
protected_by_id id [] = false
protected_by_id id (p ∷ ps) = int_eq p.mount_id id || protected_by_id id ps

-- the inner loop: the first of `ps` whose contents `e` shows
unfoldable pub alias_in : MountEntry → List MountEntry → Option Leak
unfolding bytes_eq path_contains
alias_in e [] = none
alias_in e (p ∷ ps) =
    let rest = alias_in e ps in
    if not (bytes_eq e.dev p.dev)
    then rest
    else if path_contains e.root_in_fs p.root_in_fs
    then some (aliases e p)
    else rest

abbrev pub or_leak : Option Leak → Option Leak → Option Leak
or_leak none rest = rest
or_leak (some l) rest = some l

-- the outer loop
unfoldable pub leak_in : Bytes → List MountEntry → List MountEntry → Option Leak
unfolding path_contains protected_by_id alias_in
leak_in rootfs prots [] = none
leak_in rootfs prots (e ∷ es) =
    let rest = leak_in rootfs prots es in
    if not (path_contains rootfs e.mount_point)
    then rest
    else if protected_by_id e.mount_id prots
    then rest
    else or_leak (alias_in e prots) rest

abbrev pub with_prots : Bytes → List MountEntry → Leak ⊎ List MountEntry → Option Leak
unfolding leak_in
with_prots rootfs entries (inl l) = some l
with_prots rootfs entries (inr prots) = leak_in rootfs prots entries

-- `containmentLeak(entries, rootfs, protectedMountPoints)`; `none` is the error nil
unfoldable pub containment_leak : List MountEntry → Bytes → List Bytes → Option Leak
unfolding prots_of
containment_leak entries rootfs wants = with_prots rootfs entries (prots_of entries wants)

pub data CheckError : Type 0 where
  cannot_parse : CheckError
  leaks : Leak → CheckError
