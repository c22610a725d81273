-- ===== src/Launch/Plan.antt =====
-- main.go: the system calls of `childMain` and `initMain` as a list of operations, which ends at the
-- first that fails, except for those whose failure is only logged.
pub mod Run
use runclaude.Prelude.{
  ◌≡◌, ℕ, suc, Bool, true, false, not, ◌&&◌, ◌||◌, List, [], ◌∷◌, ◌++◌, if◌then◌else◌,
}
use runclaude.Text.{Bytes}

pub data Op : Type 0 where
  -- `syscall.Mount` with the flags of each call
  make_private : Op
  bind rbind : Bytes → Bytes → Op
  make_slave : Bytes → Op
  tmpfs devpts proc : Bytes → Op
  remount_read_only : Bytes → Op
  -- the remounts whose failure is tolerated
  try_read_only try_nosuid : Bytes → Op
  -- files and directories
  mkdir mkdir_all create_file stat lstat statfs readlink : Bytes → Op
  symlink : Bytes → Bytes → Op
  chmod : Bytes → ℕ → Op
  write_file : Bytes → Bytes → Op
  -- `checkContainment(rootfs, protected)`
  check_containment : Bytes → List Bytes → Op
  -- the next stage, in a network namespace of its own or not
  start_init : Bool → Op
  -- `initMain`
  chdir : Bytes → Op
  set_hostname pivot_root unmount_old setup_network drop_all_caps : Op
  run_command : List Bytes → Op

-- a failure of the operation ends the stage
unfoldable pub fatal : Op → Bool
fatal (try_read_only d) = false
fatal (try_nosuid d) = false
fatal _ = true

-- the operations that are made, where `fails` tells which fail, each by its number from `n` on
unfoldable pub execute : (ℕ → Op → Bool) → ℕ → List Op → List Op
unfolding fatal
execute fails n [] = []
execute fails n (op ∷ ops) =
    let rest = execute fails (suc n) ops in if fails n op && fatal op then op ∷ [] else op ∷ rest
