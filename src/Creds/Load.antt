-- ===== src/Creds/Load.antt =====
-- creds/load.go: where the Anthropic credentials come from. `read_file` is `os.ReadFile`, `decode` the
-- decoding of the file's JSON; `none` is an error of either.
pub mod Choice
use runclaude.Prelude.{
  Bool, true, false, not, List, [], ◌∷◌, ◌++◌, Option, none, some, if◌then◌else◌,
}
use runclaude.Text.{Bytes, codes, is_empty}

-- `AnthropicCredentials`
pub record AnthropicCredentials : Type 0 where
  pub api_key : Bytes
  pub bearer : Bytes
  pub refresh_token : Bytes
  pub path : Bytes

-- the fields read from the file
pub record Parsed : Type 0 where
  pub access_token : Bytes
  pub refresh_token : Bytes
  pub api_key : Bytes

abbrev pub key_only : Bytes → AnthropicCredentials
key_only k = record { api_key = k; bearer = []; refresh_token = []; path = [] }

module _ (read_file : Bytes → Option Bytes) (decode : Bytes → Option Parsed) where
  -- the body of the loop, on what the file at `p` decodes to
  unfoldable from_parsed : Bytes → Option Parsed → Option AnthropicCredentials
  from_parsed p none = none
  from_parsed p (some parsed) =
      if not (is_empty parsed.access_token)
      then some (record {
        api_key = [];
        bearer = parsed.access_token;
        refresh_token = parsed.refresh_token;
        path = p;
      })
      else if not (is_empty parsed.api_key)
      then some (key_only parsed.api_key)
      else none

  unfoldable from_file : Bytes → Option Bytes → Option AnthropicCredentials
  unfolding from_parsed
  from_file p none = none
  from_file p (some data_of) = from_parsed p (decode data_of)

  unfoldable or_else :
      Option AnthropicCredentials → Option AnthropicCredentials → Option AnthropicCredentials
  or_else (some c) rest = some c
  or_else none rest = rest

  unfoldable from_names : List Bytes → Bytes → Option AnthropicCredentials
  unfolding from_file or_else
  from_names [] env_key = if is_empty env_key then none else some (key_only env_key)
  from_names (p ∷ ps) env_key = or_else (from_file p (read_file p)) (from_names ps env_key)

  -- `LoadAnthropicCredentials(home)`, with $ANTHROPIC_API_KEY; `none` is the error
  unfoldable pub load_anthropic_credentials : Bytes → Bytes → Option AnthropicCredentials
  unfolding from_names
  load_anthropic_credentials home env_key =
      from_names
        ((home ++ codes "/.claude/.credentials.json")
          ∷ (home ++ codes "/.claude/credentials.json")
          ∷ [])
        env_key
