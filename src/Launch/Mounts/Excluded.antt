-- ===== src/Launch/Mounts/Excluded.antt =====
-- main.go, `childMain`: the directories of the host that the root does not share.
use runclaude.Prelude.{◌≡◌, refl, ◌∙◌, Bool, false, List, [], ◌∷◌, arith}
use runclaude.Text.{Bytes, member}
use runclaude.Launch.Plan.{Op, rbind}
use runclaude.Launch.Plan.Run.{any_op, any_op-append}
use runclaude.Launch.Mounts.{each, Config, Kind, link, directory, other, root_entry, excluded}

-- a mount of one of the host's directories
unfoldable pub mounts_one_of : List Bytes → Op → Bool
unfolding member
mounts_one_of dirs (rbind src d) = member src dirs
mounts_one_of dirs _ = false

none_excluded :
    (cfg : Config) (e : Bytes × Kind)
    → any_op (mounts_one_of (excluded cfg.home)) (root_entry cfg e) ≡ false
unfolding root_entry any_op mounts_one_of
none_excluded cfg (name, link t) = ground arith
none_excluded cfg (name, directory) = ground arith
none_excluded cfg (name, other) = ground arith

-- The loop over the host's root mounts neither the directory that home is in nor /proc, /tmp,
-- /run, /dev, /mnt or /media.
pub root_entries-excluded :
    (cfg : Config) (entries : List (Bytes × Kind))
    → any_op (mounts_one_of (excluded cfg.home)) (each (root_entry cfg) entries) ≡ false
unfolding each any_op
root_entries-excluded cfg [] = refl
root_entries-excluded cfg (e ∷ entries) =
    any_op-append (mounts_one_of (excluded cfg.home)) (root_entry cfg e)
      (each (root_entry cfg) entries)
    ∙ rw (none_excluded cfg e, root_entries-excluded cfg entries)
