-- ===== src/Launch/Tests.antt =====
-- The start of a container at concrete inputs.
mod Stages
use runclaude.Prelude.{
  ◌≡◌, refl, ℕ, Bool, true, false, not, ◌&&◌, ◌||◌, List, [], ◌∷◌, ◌++◌, Option, none, some, All,
  arith, if◌then◌else◌,
}
use runclaude.Text.{Bytes, codes, bytes_eq, member, has_byte, has_prefix, cut_byte, trim_prefix}
use runclaude.Proxy.Match.{match_domain}
use runclaude.Proxy.Allowlist.{allows}
use runclaude.Filepath.{is_abs, dir_of, join_path}
use runclaude.Filepath.Names.{Name, is_name, is_name-Name}
use runclaude.Mountinfo.{path_contains}
use runclaude.Binds.{Bind, dest, dedup_binds}
use runclaude.Binds.Visible.{visible_at, Elsewhere}
use runclaude.Environ.{aws_env_skip}
use runclaude.Environ.Scrubbed.{entries_of}
use runclaude.Launch.Auth.{Auth, no_credentials}
use runclaude.Launch.Domains.{DomainList, base_domains, choose_domains, start_allowlist}
use runclaude.Launch.Domains.Exact.{choose_domains-exact, injected}
use runclaude.Launch.Domains.Listed.{mitm_listed}
use runclaude.Launch.Binds.{Host, needs_bind, path_binds, workspace_binds, jj_config_binds}
use runclaude.Launch.Binds.Claude.{
  claude_dir, claude_binds, extra_binds, tmpfs_at, outside, shared_entries, live_state_binds,
}
use runclaude.Launch.Binds.Hidden.{claude_binds-Apart}
use runclaude.Launch.Binds.Order.{Start, workspace_part, settings_part, start_binds}
use runclaude.Launch.Binds.Paths.{Reachable, DistinctPaths, path_binds-Reachable}
use runclaude.Launch.Binds.Scratch.{scratch-mounted}
use runclaude.Launch.Environment.{container_env}
use runclaude.Launch.Environment.Scrubbed.{bedrock_entries, entries_of-container_env_aws}
use runclaude.Launch.Environment.Passed.{command_env-host}
use runclaude.Launch.Init.{env_map, command_env}
use runclaude.Dict.{lookup}

abbrev bedrock : Auth
bedrock = record { use_bedrock = true; credentials = no_credentials }

abbrev flag_domains : DomainList
flag_domains = record { items = codes "example.org" ∷ []; set = true }

abbrev test_host : Bytes
test_host = codes "fake.test"

choose_domains-exact_example :
    (match_domain test_host (choose_domains flag_domains bedrock (test_host ∷ [])).mitm
      ≡ injected bedrock (test_host ∷ []) test_host)
    × (match_domain test_host (choose_domains flag_domains bedrock (test_host ∷ [])).allowed ≡ (
        match_domain test_host (base_domains flag_domains)
        || injected bedrock (test_host ∷ []) test_host))
unfolding has_byte
choose_domains-exact_example =
    choose_domains-exact flag_domains bedrock (test_host ∷ []) test_host (refl, tt)

mitm_listed_example :
    allows 7
      (start_allowlist (choose_domains flag_domains bedrock (test_host ∷ [])))
      (codes "bedrock-runtime.us-east-1.amazonaws.com")
    ≡ true
unfolding has_byte choose_domains match_domain
mitm_listed_example =
    mitm_listed flag_domains bedrock (test_host ∷ [])
      (codes "bedrock-runtime.us-east-1.amazonaws.com") 7 (refl, tt) refl

-- a host with a home of three entries, and claude on the path
abbrev home : Bytes
home = codes "/home/u"

abbrev entries : List Bytes
entries = codes ".credentials.json" ∷ codes "projects" ∷ codes "cache" ∷ []

abbrev host : Host
host = record {
  read_dir = λ d. some entries;
  exists = λ p. true;
  is_dir = λ p. true;
  read_file = λ p. none;
  look_path = λ p. some (codes "/usr/bin/claude");
  eval_symlinks = λ p. none;
  getenv = λ k. codes "/home/u/bin:/usr/bin:/home/u/bin";
  user_home = some home;
}

claude_binds-Apart_example :
    All
      (λ (b : Bind).
        path_contains b.path (join_path (claude_dir home ∷ codes ".credentials.json" ∷ [])) ≡ false)
      (claude_binds host home)
unfolding is_abs member is_name join_path path_contains dir_of
claude_binds-Apart_example =
    claude_binds-Apart home (codes ".credentials.json") refl refl host
      (
        is_name-Name (codes ".credentials.json") refl,
        (is_name-Name (codes "projects") refl, (is_name-Name (codes "cache") refl, tt)),
      )
      (refl, tt)

abbrev start : Start
start = record {
  home = home;
  cwd = codes "/home/u/src";
  cwd_cache = codes "/cache";
  exposed = [];
  only = [];
  map_path = true;
  map_workspace = true;
  claude_like = true;
  merged = some (codes "/tmp/claude-merged");
  exclude_binds = [];
  settings_binds = [];
  runclaude_json = codes "/tmp/runclaude.json";
}

abbrev is_elsewhere : Bytes → List Bind → Bool
is_elsewhere p [] = true
is_elsewhere p (b ∷ bs) = not (bytes_eq (dest b) p) && is_elsewhere p bs

is_elsewhere-Elsewhere : (p : Bytes) (bs : List Bind) → is_elsewhere p bs ≡ true → Elsewhere p bs
is_elsewhere-Elsewhere p [] h = tt
is_elsewhere-Elsewhere p (b ∷ bs) h = (ground arith, is_elsewhere-Elsewhere p bs (ground arith))

scratch-mounted_example :
    visible_at
      (join_path (claude_dir home ∷ codes "cache" ∷ []))
      (dedup_binds (start_binds host start))
    ≡ some (tmpfs_at (join_path (claude_dir home ∷ codes "cache" ∷ [])))
unfolding is_abs member settings_part workspace_part dest join_path path_binds cut_byte trim_prefix
    workspace_binds jj_config_binds extra_binds outside claude_binds shared_entries live_state_binds
    path_contains
scratch-mounted_example =
    scratch-mounted host start (codes "cache") refl refl refl
      (is_elsewhere-Elsewhere (join_path (claude_dir home ∷ codes "cache" ∷ []))
        (workspace_part host start ++ extra_binds host start.home start.merged) refl)
      (refl, tt)

path_binds-Reachable_example :
    All (Reachable host (needs_bind host home)) (path_binds host home)
    × DistinctPaths (path_binds host home)
path_binds-Reachable_example = path_binds-Reachable host home

abbrev environ : List Bytes
environ =
    codes "AWS_ACCESS_KEY_ID=AKIAREAL"
    ∷ codes "AWS_REGION=eu-west-1"
    ∷ codes "ANTHROPIC_API_KEY=sk-ant"
    ∷ codes "HOME=/home/u"
    ∷ []

entries_of-container_env_aws_example :
    entries_of (codes "AWS_REGION") (container_env true true (codes "{}") environ)
    ≡ (if true then bedrock_entries (codes "AWS_REGION") environ else [])
unfolding bytes_eq member
entries_of-container_env_aws_example =
    entries_of-container_env_aws (codes "AWS_REGION") refl true (codes "{}") environ refl

command_env-host_example :
    lookup (codes "ANTHROPIC_API_KEY") (
      command_env
        (container_env true true (codes "{}") environ)
        (codes "{}")
        (some (codes "http://127.0.0.1:80"))
        (codes "/b")
        [])
    ≡ lookup (codes "ANTHROPIC_API_KEY") (env_map environ)
unfolding bytes_eq member
command_env-host_example =
    command_env-host (codes "ANTHROPIC_API_KEY") refl true (codes "{}") (codes "{}") environ
      (some (codes "http://127.0.0.1:80")) (codes "/b") [] refl
