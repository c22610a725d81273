-- ===== src/Environ/Scrubbed.antt =====
-- main.go, `scrubAWSCreds`: which variables are left, and that they keep their entries.
use runclaude.Prelude.{◌≡◌, List, [], ◌∷◌, if◌then◌else◌, arith}
use runclaude.Text.{Bytes, bytes_eq, member}
use runclaude.Text.Equality.{bytes_eq_iff}
use runclaude.Environ.{aws_env_skip, name_of, skip_names, scrub_aws_creds}

-- the entries of a variable, in their order
unfoldable pub entries_of : Bytes → List Bytes → List Bytes
entries_of n [] = []
entries_of n (e ∷ env) =
    let rest = entries_of n env in if bytes_eq (name_of e) n then e ∷ rest else rest

entries_of-skip_names :
    (skip : List Bytes) (n : Bytes) (env : List Bytes)
    → entries_of n (skip_names skip env) ≡ (if member n skip then [] else entries_of n env)
unfolding entries_of skip_names
entries_of-skip_names skip n [] = ground arith
entries_of-skip_names skip n (e ∷ env) =
    ground (arith, entries_of-skip_names skip n env, bytes_eq_iff (name_of e) n)

-- `scrubAWSCreds` leaves no entry of a variable of its list, and all entries of every other
-- variable, in their order.
pub entries_of-scrub_aws_creds :
    (n : Bytes) (env : List Bytes)
    → entries_of n (scrub_aws_creds env) ≡ (if member n aws_env_skip then [] else entries_of n env)
unfolding scrub_aws_creds
entries_of-scrub_aws_creds n env = entries_of-skip_names aws_env_skip n env
