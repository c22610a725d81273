-- ===== src/Launch/Domains.antt =====
-- main.go, `mainErr`, and network.go: the domains that the container may reach, those whose TLS the
-- proxy ends, and the allowlist made of both.
pub mod Exact
pub mod Listed
use runclaude.Prelude.{ℕ, Bool, true, false, not, ◌&&◌, ◌||◌, List, [], ◌∷◌, ◌++◌, if◌then◌else◌}
use runclaude.Text.{Bytes, codes, is_empty}
use runclaude.Dict.{Dict}
use runclaude.Proxy.Match.{match_domain, default_allowed_domains}
use runclaude.Proxy.Allowlist.{Allowlist, new_allowlist, add}
use runclaude.Creds.Load.{AnthropicCredentials}
use runclaude.Launch.Auth.{Auth}

-- `domainList`
pub record DomainList : Type 0 where
  pub items : List Bytes
  pub set : Bool

-- `d.Set(v)`
unfoldable pub set_domain : Bytes → DomainList → DomainList
set_domain v d = record {
  items = if not (is_empty v) then d.items ++ v ∷ [] else d.items;
  set = true;
}

-- `allowedDomains` as the flag leaves it
unfoldable pub base_domains : DomainList → List Bytes
base_domains allow_domain =
    if not allow_domain.set then default_allowed_domains else allow_domain.items

-- `if !proxy.MatchDomain(host, domains) { domains = append(domains, host) }`
unfoldable pub add_domain : Bytes → List Bytes → List Bytes
unfolding match_domain
add_domain host domains = if not (match_domain host domains) then domains ++ host ∷ [] else domains

-- `allowedDomains` and `mitmDomains`
pub record Domains : Type 0 where
  pub allowed : List Bytes
  pub mitm : List Bytes

abbrev pub api_host : Bytes
api_host = codes "api.anthropic.com"

abbrev pub bedrock_pattern : Bytes
bedrock_pattern = codes "bedrock-runtime.*.amazonaws.com"

-- `apiKey != "" || bearer != ""`
abbrev pub has_credentials : AnthropicCredentials → Bool
has_credentials c = not (is_empty c.api_key) || not (is_empty c.bearer)

unfoldable pub with_api : Bool → Domains → Domains
unfolding add_domain
with_api false d = d
with_api true d = record { allowed = add_domain api_host d.allowed; mitm = d.mitm ++ api_host ∷ [] }

-- the loop over the hosts of `parseMitmUpstream(mitmUpstream)`
unfoldable pub with_upstreams : List Bytes → Domains → Domains
unfolding add_domain
with_upstreams [] d = d
with_upstreams (host ∷ hosts) d =
    with_upstreams hosts
      (record { allowed = add_domain host d.allowed; mitm = add_domain host d.mitm })

unfoldable pub with_bedrock : Bool → Domains → Domains
with_bedrock false d = d
with_bedrock true d = record {
  allowed = d.allowed ++ bedrock_pattern ∷ [];
  mitm = d.mitm ++ bedrock_pattern ∷ [];
}

unfoldable pub choose_domains : DomainList → Auth → List Bytes → Domains
unfolding base_domains with_api with_upstreams with_bedrock
choose_domains allow_domain auth hosts = with_bedrock auth.use_bedrock (
    with_upstreams hosts (
      with_api (has_credentials auth.credentials)
        (record { allowed = base_domains allow_domain; mitm = [] })))

-- `enforceAllowlist(cfg)`
unfoldable pub enforce_allowlist : Bool → Domains → Bool
enforce_allowlist restrict_net d =
    restrict_net && (not (is_empty d.allowed) || not (is_empty d.mitm))

-- the loop of `allowlist.Add`
unfoldable pub add_domains : List Bytes → Allowlist → Allowlist
unfolding add
add_domains [] a = a
add_domains (d ∷ ds) a = add_domains ds (add d a).0

-- the `allowlist` of the proxy and of the DNS server
unfoldable pub start_allowlist : Domains → Allowlist
unfolding add_domains
start_allowlist d = add_domains d.mitm (new_allowlist d.allowed)
