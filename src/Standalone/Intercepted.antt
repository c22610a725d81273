-- ===== src/Standalone/Intercepted.antt =====
-- cmd/runclaude-proxy/main.go: which hosts the proxy injects credentials for, and which it lets pass.
use runclaude.Prelude.{
  ◌≡◌, ap, ◌∙◌, Bool, true, false, ◌&&◌, ◌||◌, List, [], ◌∷◌, ◌++◌, some, arith, All, if◌then◌else◌,
}
use runclaude.Text.{Bytes}
use runclaude.Proxy.Match.{match_domain, default_allowed_domains}
use runclaude.Proxy.Match.Domain.{match_domain-append}
use runclaude.Launch.Domains.{Domains, api_host, bedrock_pattern, with_api, with_upstreams}
use runclaude.Launch.Domains.Exact.{
  Plain, same_host, any_host, with_upstreams-match, with_api-match, match_none,
}
use runclaude.Standalone.{with_bedrock_host, proxy_domains}

with_bedrock_host-mitm :
    (host : Bytes) (bedrock : Bool) (d : Domains)
    → match_domain host (with_bedrock_host bedrock d).mitm
      ≡ (match_domain host d.mitm || (bedrock && match_domain host (bedrock_pattern ∷ [])))
unfolding with_bedrock_host
with_bedrock_host-mitm host false d = ground arith
with_bedrock_host-mitm host true d = match_domain-append host d.mitm (bedrock_pattern ∷ [])

with_bedrock_host-keeps :
    (host : Bytes) (bedrock : Bool) (d : Domains)
    → match_domain host d.allowed ≡ true
    → match_domain host (with_bedrock_host bedrock d).allowed ≡ true
unfolding with_bedrock_host
with_bedrock_host-keeps host false d h = h
with_bedrock_host-keeps host true d h =
    ground (arith, h, match_domain-append host d.allowed (bedrock_pattern ∷ []))

-- Where the hosts of --mitm-upstream hold no star, the stand-alone proxy ends TLS for exactly
-- these hosts: those of --mitm-upstream, api.anthropic.com with --anthropic and those of Bedrock's
-- pattern with --bedrock, each in any case.
pub proxy_domains-mitm :
    (anthropic bedrock defaults : Bool) (allow hosts : List Bytes) (host : Bytes) {d : Domains}
    → All Plain hosts
    → proxy_domains anthropic bedrock defaults allow hosts ≡ some d
    → match_domain host d.mitm ≡ (
        (anthropic && same_host host api_host)
        || (bedrock && match_domain host (bedrock_pattern ∷ []))
        || any_host host hosts)
unfolding proxy_domains
proxy_domains-mitm anthropic bedrock defaults allow hosts host {d} plain h =
    let start : Domains = record {
      allowed = (if defaults then default_allowed_domains else []) ++ allow;
      mitm = [];
    } in
    let api = with_api anthropic start in
    let e : with_upstreams hosts (with_bedrock_host bedrock api) ≡ d = ground (arith, h) in
    rw (← e) (
      (with_upstreams-match host hosts (with_bedrock_host bedrock api) plain).1
      ∙ ap (λ t. t || any_host host hosts)
          (with_bedrock_host-mitm host bedrock api
            ∙ ap (λ t. t || (bedrock && match_domain host (bedrock_pattern ∷ [])))
                ((with_api-match host anthropic start).1
                  ∙ ap (λ t. t || (anthropic && same_host host api_host)) (match_none host))))
