-- ===== src/Creds/Aws.antt =====
-- creds/aws.go: AWS credentials that are refreshed by a command. What the SDK answers at each call is a
-- parameter, as are the command's exit and the reloaded configuration.
use runclaude.Prelude.{◌≡◌, ◌≢◌, ℕ, Bool, true, Option, none, some, arith, if◌then◌else◌}

pub data AwsError : Type 0 where
  retrieve_failed refresh_failed reload_failed : AwsError

pub data Retrieved (C : Type 0) : Type 0 where
  ok : C → Retrieved C
  err : AwsError → Retrieved C

-- What the environment answers: the configuration's provider before and under the lock, the command,
-- the reload, and the provider of the configuration that it gives.
pub record Answers (C : Type 0) : Type 0 where
  pub first : Option C
  pub again : Option C
  pub command_ok : Bool
  pub reload_ok : Bool
  pub reloaded : Option C

module _ {C : Type 0} where
  of_option : Option C → Retrieved C
  of_option (some c) = ok c
  of_option none = err retrieve_failed

  under_lock : Option C → Answers C → Retrieved C × ℕ
  unfolding of_option
  under_lock (some c) a = (ok c, 0)
  under_lock none a =
      if a.command_ok
      then (if a.reload_ok then of_option a.reloaded else err reload_failed, 1)
      else (err refresh_failed, 1)

  after_first : Option C → Bool → Answers C → Retrieved C × ℕ
  unfolding under_lock
  after_first (some c) has_command a = (ok c, 0)
  after_first none has_command a =
      if has_command then under_lock a.again a else (err retrieve_failed, 0)

  -- `Retrieve(ctx)`: the result, and how often the command ran; the flag is `p.refresh != ""`
  unfoldable pub retrieve : Bool → Answers C → Retrieved C × ℕ
  unfolding after_first
  retrieve has_command a = after_first a.first has_command a

  -- Credentials that can be had without the command, at once or when the lock is taken, are returned
  -- and the command does not run; it runs at most once, and only where one is set and neither try
  -- gave credentials, and then the result is the reloaded configuration's.
  pub retrieve_lem :
      (has_command : Bool) (a : Answers C)
      → ((c : C) → a.first ≡ some c → retrieve has_command a ≡ (ok c, 0))
        × ((c : C)
            → a.first ≡ none
            → has_command ≡ true
            → a.again ≡ some c
            → retrieve has_command a ≡ (ok c, 0))
        × ((retrieve has_command a).1 ≢ 0
            → (has_command ≡ true)
              × (a.first ≡ none)
              × (a.again ≡ none)
              × ((retrieve has_command a).1 ≡ 1))
        × ((c : C)
            → a.first ≡ none
            → has_command ≡ true
            → a.again ≡ none
            → a.command_ok ≡ true
            → a.reload_ok ≡ true
            → a.reloaded ≡ some c
            → retrieve has_command a ≡ (ok c, 1))
  unfolding retrieve
  retrieve_lem has_command a = (
    λ c e. ground arith,
    λ c e h f. ground arith,
    λ h. (ground arith, ground arith, ground arith, ground arith),
    λ c e h f k l m. ground arith,
  )
