-- ===== src/Launch/Environment.antt =====
-- main.go, `mainErr`: the environment that the container is started with, and the command.
pub mod Scrubbed
pub mod Passed
use runclaude.Prelude.{Bool, true, false, not, ◌&&◌, List, [], ◌∷◌, ◌++◌, if◌then◌else◌}
use runclaude.Text.{Bytes, codes, is_empty}
use runclaude.Environ.{env_value, scrub_aws_creds}

-- `NAME=value`, where `os.Getenv` gives a value
abbrev pub when_set : Bytes → Bytes → List Bytes
when_set name r = if not (is_empty r) then (name ++ (codes "=" ++ r)) ∷ [] else []

-- what is added again under Bedrock, from the entries of the host process
unfoldable pub bedrock_vars : Bool → List Bytes → List Bytes
unfolding env_value
bedrock_vars false environ = []
bedrock_vars true environ =
    codes "CLAUDE_CODE_USE_BEDROCK=1"
    ∷ codes "AWS_ACCESS_KEY_ID=AKIA000RUNCLAUDESTUB"
    ∷ codes "AWS_SECRET_ACCESS_KEY=runclaude-stub-secret-do-not-use"
    ∷ (when_set (codes "AWS_REGION") (env_value (codes "AWS_REGION") environ)
        ++ when_set (codes "AWS_DEFAULT_REGION") (env_value (codes "AWS_DEFAULT_REGION") environ))

-- `childEnv`
abbrev pub child_env : Bytes
child_env = codes "_RUNCLAUDE_CHILD"

-- `cmd.Env`, from `os.Environ()` and `encodeConfig(cfg)`
unfoldable pub container_env : Bool → Bool → Bytes → List Bytes → List Bytes
unfolding scrub_aws_creds bedrock_vars
container_env claude_like use_bedrock config environ =
    (if claude_like then scrub_aws_creds environ else environ)
    ++ (bedrock_vars use_bedrock environ ++ (child_env ++ (codes "=" ++ config)) ∷ [])

abbrev pub or_bash : List Bytes → List Bytes
or_bash [] = codes "bash" ∷ []
or_bash (a ∷ args) = a ∷ args

-- `cfg.Command`, from the flags --claude and --claude-flag and the arguments
unfoldable pub start_command : Bool → Bool → Bool → List Bytes → List Bytes → List Bytes
start_command claude_like claude_mode merge claude_flags args =
    if claude_like && claude_mode
    then codes "claude"
      ∷ codes "--dangerously-skip-permissions"
      ∷ ((if merge then codes "--setting-sources" ∷ codes "user" ∷ [] else [])
          ++ (claude_flags ++ args))
    else or_bash args
