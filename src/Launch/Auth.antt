-- ===== src/Launch/Auth.antt =====
-- main.go, `mainErr`: which credentials the proxy injects. The file system, the decoding of the
-- credentials file and of settings.json, and the environment are parameters.
pub mod Chosen
use runclaude.Prelude.{
  Bool, true, false, not, ◌&&◌, ◌||◌, List, [], ◌∷◌, ◌++◌, Option, none, some, if◌then◌else◌,
}
use runclaude.Text.{Bytes, codes, bytes_eq, is_empty}
use runclaude.Dict.{Dict, lookup, insert}
use runclaude.Creds.Load.{AnthropicCredentials, Parsed, load_anthropic_credentials}

-- `os.Getenv(k)`, on the environment as a map
unfoldable pub getenv : Bytes → Dict Bytes → Bytes
unfolding lookup
getenv k env = elim (lookup k env) [ none ↦ [] | some v ↦ v ]

-- the body of the loop of `applyClaudeSettingsEnv`: the environment, and the keys applied
unfoldable pub apply_var : Bytes → Bytes → Dict Bytes × List Bytes → Dict Bytes × List Bytes
unfolding getenv insert
apply_var k v (env, applied) =
    if not (is_empty (getenv k env)) then (env, applied) else (insert k v env, applied ++ k ∷ [])

-- `applyClaudeSettingsEnv(env)`, from the process's environment; the `range` goes over the list
unfoldable pub apply_claude_settings_env :
    Dict Bytes → Dict Bytes × List Bytes → Dict Bytes × List Bytes
unfolding apply_var
apply_claude_settings_env [] out = out
apply_claude_settings_env ((k, v) ∷ env) out = apply_claude_settings_env env (apply_var k v out)

-- the flags --claude, --claude-config and --anthropic-…
pub record AuthFlags : Type 0 where
  pub claude_mode : Bool
  pub claude_config : Bool
  pub anthropic_key : Bytes
  pub anthropic_bearer : Bytes
  pub anthropic_refresh : Bytes

-- the variables `useBedrock`, `apiKey`, `bearer`, `refreshToken` and `credPath`
pub record Auth : Type 0 where
  pub use_bedrock : Bool
  pub credentials : AnthropicCredentials

abbrev pub no_credentials : AnthropicCredentials
no_credentials = record { api_key = []; bearer = []; refresh_token = []; path = [] }

-- what `readClaudeAuth` returns: empty strings with an error
abbrev pub or_none : Option AnthropicCredentials → AnthropicCredentials
or_none none = no_credentials
or_none (some c) = c

abbrev pub claude_like : AuthFlags → Bool
claude_like flags = flags.claude_mode || flags.claude_config

abbrev pub has_explicit_anthropic_creds : AuthFlags → Bool
has_explicit_anthropic_creds flags =
    not (is_empty flags.anthropic_key) || not (is_empty flags.anthropic_bearer)

module _ (read_file : Bytes → Option Bytes) (decode : Bytes → Option Parsed) where
  -- `readClaudeAuth(home)`
  unfoldable pub read_claude_auth : Bytes → Dict Bytes → AnthropicCredentials
  unfolding load_anthropic_credentials getenv
  read_claude_auth home env =
      or_none
        (load_anthropic_credentials read_file decode home (getenv (codes "ANTHROPIC_API_KEY") env))

  -- the environment of the process behind `applyClaudeSettingsEnv`
  unfoldable pub host_env : AuthFlags → Dict Bytes → Dict Bytes → Dict Bytes
  unfolding apply_claude_settings_env
  host_env flags settings_env env =
      if claude_like flags then (apply_claude_settings_env settings_env (env, [])).0 else env

  -- the choice, in an environment that `applyClaudeSettingsEnv` has filled
  unfoldable pub choose_auth : AuthFlags → Bytes → Dict Bytes → Auth
  unfolding read_claude_auth getenv bytes_eq
  choose_auth flags home env =
      let bedrock =
        claude_like flags
        && not (has_explicit_anthropic_creds flags)
        && bytes_eq (getenv (codes "CLAUDE_CODE_USE_BEDROCK") env) (codes "1") in
      record {
        use_bedrock = bedrock;
        credentials =
            if has_explicit_anthropic_creds flags
            then record {
              api_key = flags.anthropic_key;
              bearer = flags.anthropic_bearer;
              refresh_token = flags.anthropic_refresh;
              path = [];
            }
            else if claude_like flags && not bedrock
            then read_claude_auth home env
            else no_credentials;
      }
