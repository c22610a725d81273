-- ===== src/Launch/Init/Reaped.antt =====
-- main.go, `initMain` and `runAsInit`: what the command runs with, and how the container ends.
use runclaude.Prelude.{
  ◌≡◌, ℕ, ◌+◌, Bool, true, false, ◌&&◌, ◌==◌, ==_iff, List, [], ◌∷◌, ◌++◌, some, arith, All,
  if◌then◌else◌,
}
use runclaude.Text.{Bytes}
use runclaude.Launch.Plan.{Op, execute, setup_network, drop_all_caps, run_command}
use runclaude.Launch.Plan.Run.{any_op}
use runclaude.Launch.Init.{
  init_plan, Status, Wait, interrupted, wait_error, ended, exited, signaled, exit_code, code_of,
  reap,
}

-- a result that is not of the child, and no error
abbrev pub OfAnother : ℕ → Wait → Type 0
OfAnother child interrupted = Unit
OfAnother child wait_error = ⊥
OfAnother child (ended pid status) = (pid == child) ≡ false

reap_ended :
    (child : ℕ) (others rest : List Wait) (status : Status)
    → All (OfAnother child) others
    → reap child (others ++ ended child status ∷ rest) ≡ some (exit_code (code_of status))
unfolding reap
reap_ended child [] rest status h = ground (arith, ==_iff child child)
reap_ended child (interrupted ∷ others) rest status h = reap_ended child others rest status h.1
reap_ended child (wait_error ∷ others) rest status h = absurd h.0
reap_ended child (ended pid s ∷ others) rest status h =
    rw h.0 (reap_ended child others rest status h.1)

-- After any interrupted waits and any ends of other processes, `runAsInit` exits with n once the
-- command has ended by an exit with n, and with 128 + n once a signal n has ended it.
pub reap-exit :
    (child n : ℕ) (others rest : List Wait)
    → All (OfAnother child) others
    → (reap child (others ++ ended child (exited n) ∷ rest) ≡ some (exit_code n))
      × (reap child (others ++ ended child (signaled n) ∷ rest) ≡ some (exit_code (128 + n)))
unfolding code_of
reap-exit child n others rest h =
    (reap_ended child others rest (exited n) h, reap_ended child others rest (signaled n) h)

unfoldable pub is_run : Op → Bool
is_run (run_command c) = true
is_run _ = false

-- If `initMain` starts the command, then the capabilities were dropped, as its operation 8 or, without
-- a network to set up, 7; and where the allowlist is enforced the network was set up, as operation 7.
pub init_plan-Confined :
    (fails : ℕ → Op → Bool) (rootfs cwd : Bytes) (enforce : Bool) (command : List Bytes)
    → any_op is_run (execute fails 0 (init_plan rootfs cwd enforce command)) ≡ true
    → (fails (if enforce then 8 else 7) drop_all_caps ≡ false)
      × ((enforce && fails 7 setup_network) ≡ false)
unfolding init_plan any_op is_run execute
init_plan-Confined fails rootfs cwd true command h = ground arith
init_plan-Confined fails rootfs cwd false command h = ground arith
