-- ===== src/Environ.antt =====
-- main.go, `scrubAWSCreds`: the variables that the container's environment leaves out.
pub mod Scrubbed
use runclaude.Prelude.{◌≡◌, Bool, true, false, List, [], ◌∷◌, Option, none, some, if◌then◌else◌}
use runclaude.Text.{Bytes, codes, member, cut_byte, bytes_eq}

-- `skip`
abbrev pub aws_env_skip : List Bytes
aws_env_skip =
    codes "AWS_ACCESS_KEY_ID"
    ∷ codes "AWS_SECRET_ACCESS_KEY"
    ∷ codes "AWS_SESSION_TOKEN"
    ∷ codes "AWS_SECURITY_TOKEN"
    ∷ codes "AWS_PROFILE"
    ∷ codes "AWS_CONFIG_FILE"
    ∷ codes "AWS_SHARED_CREDENTIALS_FILE"
    ∷ codes "CLAUDE_CODE_USE_BEDROCK"
    ∷ codes "AWS_REGION"
    ∷ codes "AWS_DEFAULT_REGION"
    ∷ []

-- what stands before the first `=`, or all of an entry without one
abbrev pub name_of : Bytes → Bytes
unfolding cut_byte
name_of e = (cut_byte 61 e).0

abbrev pub or_no_value : Option Bytes → Bytes
or_no_value none = []
or_no_value (some v) = v

-- `os.Getenv(n)` of a process with these entries
unfoldable pub env_value : Bytes → List Bytes → Bytes
unfolding name_of bytes_eq
env_value n [] = []
env_value n (e ∷ env) =
    let rest = env_value n env in
    if bytes_eq (name_of e) n then or_no_value ((cut_byte 61 e).1) else rest

-- the loop, that skips the variables `skip`
unfoldable pub skip_names : List Bytes → List Bytes → List Bytes
unfolding name_of member
skip_names skip [] = []
skip_names skip (e ∷ env) =
    let rest = skip_names skip env in if member (name_of e) skip then rest else e ∷ rest

-- `scrubAWSCreds(env)`
unfoldable pub scrub_aws_creds : List Bytes → List Bytes
unfolding skip_names
scrub_aws_creds env = skip_names aws_env_skip env
