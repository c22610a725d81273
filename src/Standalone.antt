-- ===== src/Standalone.antt =====
-- cmd/runclaude-proxy/main.go: the proxy without the sandbox. It has the allowlist, the injection and
-- the handlers of package proxy; what AWS's configuration gives is a parameter.
pub mod Intercepted
use runclaude.Prelude.{
  Bool, true, false, not, ◌&&◌, ◌||◌, List, [], ◌∷◌, ◌++◌, Option, none, some, if◌then◌else◌,
}
use runclaude.Text.{Bytes, codes, cut_byte, is_empty}
use runclaude.Dict.{Dict, insert}
use runclaude.Creds.Load.{AnthropicCredentials, Parsed, load_anthropic_credentials}
use runclaude.Proxy.Match.{match_domain, default_allowed_domains}
use runclaude.Proxy.Header.{Header}
use runclaude.Inject.{Secrets, inject}
use runclaude.Launch.Auth.{no_credentials}
use runclaude.Launch.Domains.{
  Domains, add_domain, api_host, bedrock_pattern, with_api, with_upstreams,
}

abbrev pub split_spec : Bytes × Option Bytes → Option (Bytes × Bytes)
split_spec (host, none) = none
split_spec (host, some url) = if is_empty host then none else some (host, url)

abbrev pub add_spec : Option (Bytes × Bytes) → Dict Bytes → Option (Dict Bytes)
add_spec none out = none
add_spec (some (host, url)) out = some (insert host url out)

-- `parseMitmUpstream(specs)`, from the map so far; `none` is the error
unfoldable pub parse_specs : List Bytes → Dict Bytes → Option (Dict Bytes)
parse_specs [] out = some out
parse_specs (s ∷ specs) out = elim (add_spec (split_spec (cut_byte b'=' s)) out) [
  | none ↦ none
  | some next ↦ parse_specs specs next
]

-- the pattern of Bedrock's hosts
unfoldable pub with_bedrock_host : Bool → Domains → Domains
with_bedrock_host false d = d
with_bedrock_host true d = record {
  allowed =
      if not (match_domain (codes "bedrock-runtime.us-east-1.amazonaws.com") d.allowed)
      then d.allowed ++ bedrock_pattern ∷ []
      else d.allowed;
  mitm = d.mitm ++ bedrock_pattern ∷ [];
}

-- the lists of domains, where at least one of --anthropic and --bedrock is set; `hosts` are those of
-- --mitm-upstream
unfoldable pub proxy_domains : Bool → Bool → Bool → List Bytes → List Bytes → Option Domains
proxy_domains anthropic bedrock defaults allow hosts =
    if not anthropic && not bedrock
    then none
    else some (
        with_upstreams hosts (
          with_bedrock_host bedrock (
            with_api anthropic (record {
              allowed = (if defaults then default_allowed_domains else []) ++ allow;
              mitm = [];
            }))))

-- what `loadCreds` returns: the Anthropic credentials, and whether there are AWS credentials; `none`
-- is an error
abbrev pub loaded_aws : Bool → Bool → AnthropicCredentials → Option (AnthropicCredentials × Bool)
loaded_aws want retrieves a = if want && not retrieves then none else some (a, want)

abbrev pub loaded_creds :
    Bool → Bool → Option AnthropicCredentials → Option (AnthropicCredentials × Bool)
loaded_creds want retrieves none = none
loaded_creds want retrieves (some a) = loaded_aws want retrieves a

module _ (read_file : Bytes → Option Bytes) (decode : Bytes → Option Parsed) where
  -- `loadCreds(wantAnthropic, wantBedrock, home)`; `retrieves` tells whether AWS credentials are got
  unfoldable pub load_creds :
      Bool → Bool → Bool → Bytes → Bytes → Option (AnthropicCredentials × Bool)
  load_creds want_anthropic want_bedrock retrieves home env_key =
      if want_anthropic
      then loaded_creds want_bedrock retrieves
          (load_anthropic_credentials read_file decode home env_key)
      else loaded_aws want_bedrock retrieves no_credentials

-- `setup.Inject`, the closure of main.go again
unfoldable pub inject_standalone : Secrets → (Header → Header) → Bytes → Header → Header
inject_standalone = inject
