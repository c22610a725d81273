-- ===== src/Launch/Mounts/Guarded.antt =====
-- main.go, `childMain`: what has been done when the next stage is started.
use runclaude.Prelude.{◌≡◌, ℕ, Bool, true, false, List, [], ◌∷◌}
use runclaude.Text.{Bytes, member, bytes_eq}
use runclaude.Filepath.{join_path}
use runclaude.Launch.Plan.{Op, rbind, start_init}
use runclaude.Launch.Plan.Run.{any_op}
use runclaude.Launch.Mounts.{Config}

-- the start of the next stage
unfoldable pub is_start : Op → Bool
is_start (start_init n) = true
is_start _ = false

-- a bind mount onto `d`
unfoldable pub binds_onto : Bytes → Op → Bool
unfolding bytes_eq
binds_onto d (rbind src dst) = bytes_eq dst d
binds_onto d _ = false

-- where one of the directories of the cache is mounted in the root
abbrev pub mounted_at : Config → Bytes × Bytes × ℕ → Bytes
mounted_at cfg m = join_path (cfg.rootfs ∷ m.0 ∷ [])

abbrev pub Covered : Config → List Op → List Bytes → Bytes × Bytes × ℕ → Type 0
Covered cfg before prots m =
    (any_op (binds_onto (mounted_at cfg m)) before ≡ true)
    × (member (mounted_at cfg m) prots ≡ true)
