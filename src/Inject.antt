-- ===== src/Inject.antt =====
-- main.go, `setup.Inject`: the credential that a request to api.anthropic.com gets. The other host that
-- gets one is left to the injection for Bedrock.
pub mod Single
use runclaude.Prelude.{
  Bool, true, false, not, ◌&&◌, ◌||◌, List, [], ◌∷◌, ◌++◌, Option, none, some, if◌then◌else◌,
}
use runclaude.Text.{Bytes, codes, bytes_eq, is_empty}
use runclaude.Creds.TokenSource.{TokenSource, bearer}
use runclaude.Proxy.Bedrock.{is_bedrock_host}
use runclaude.Proxy.Header.{Header, get_header, set_header, del_header}

-- the variables that the closure holds
pub record Secrets : Type 0 where
  pub api_key : Bytes
  pub bearer_token : Bytes
  pub tokens : Option TokenSource
  pub has_aws : Bool

-- the inner `switch`
unfoldable pub credential_from : Option TokenSource → Secrets → Header → Header
unfolding set_header
credential_from (some t) s h = set_header (codes "Authorization") (codes "Bearer " ++ bearer t) h
credential_from none s h =
    if not (is_empty s.bearer_token)
    then set_header (codes "Authorization") (codes "Bearer " ++ s.bearer_token) h
    else set_header (codes "x-api-key") s.api_key h

-- the case of api.anthropic.com
unfoldable pub inject_anthropic : Secrets → Header → Header
unfolding credential_from del_header get_header set_header
inject_anthropic s h =
    let set =
      credential_from s.tokens s
        (del_header (codes "x-api-key") (del_header (codes "Authorization") h)) in
    if is_empty (get_header (codes "anthropic-version") set)
    then set_header (codes "anthropic-version") (codes "2023-06-01") set
    else set

-- `setup.Inject(host, r)`; `bedrock` is `InjectBedrock` for the host
unfoldable pub inject : Secrets → (Header → Header) → Bytes → Header → Header
unfolding inject_anthropic is_bedrock_host bytes_eq
inject s bedrock host h =
    if bytes_eq host (codes "api.anthropic.com")
      && (not (is_empty s.bearer_token) || not (is_empty s.api_key))
    then inject_anthropic s h
    else if is_bedrock_host host && s.has_aws
    then bedrock h
    else h
