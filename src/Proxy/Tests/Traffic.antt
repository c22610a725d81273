-- ===== src/Proxy/Tests/Traffic.antt =====
-- The handling of requests at concrete inputs.
use runclaude.Prelude.{
  ℕ, ◌≡◌, refl, ◌↔◌, ◌⊎◌, true, false, ◌||◌, List, [], ◌∷◌, some, if◌then◌else◌,
}
use runclaude.Text.{Bytes, codes, has_byte, has_prefix, has_suffix, trim_prefix, trim_suffix}
use runclaude.Proxy.Match.{match_domain}
use runclaude.Proxy.Allowlist.{allows}
use runclaude.Proxy.Approver.{Approver, new_approver, record_denial}
use runclaude.Proxy.Header.{Header}
use runclaude.Proxy.Bedrock.{Request, content, bedrock_region, inject_bedrock_at}
use runclaude.Proxy.Bedrock.Signing.{IsClean, SentFor, inject_bedrock_at-IsClean}
use runclaude.Proxy.Server.{request_host, serve, deny, intercept, inject_and_forward}
use runclaude.Proxy.Server.Decision.{serve-outcome}
use runclaude.Proxy.Tests.{two_patterns, example}

abbrev approver : Approver
approver = new_approver two_patterns

abbrev mitm : List Bytes
mitm = codes "api.anthropic.com" ∷ []

abbrev field : Bytes
field = codes "example.com:443"

abbrev connect : Bytes
connect = codes "CONNECT"

serve-outcome_example :
    (((serve mitm connect field 5 approver).1 ≡ deny (request_host field)) ↔ (
      (match_domain (request_host field) mitm ≡ false)
      × (allows 5 two_patterns (request_host field) ≡ false)))
    × ((((serve mitm connect field 5 approver).1 ≡ intercept (request_host field))
          ⊎ ((serve mitm connect field 5 approver).1 ≡ inject_and_forward (request_host field)))
        ↔ (match_domain (request_host field) mitm ≡ true))
    × ((serve mitm connect field 5 approver).0 ≡ (
        if match_domain (request_host field) mitm || allows 5 two_patterns (request_host field)
        then approver
        else record_denial (request_host field) 5 approver))
serve-outcome_example = serve-outcome mitm connect field 5 approver

request_host_run : request_host field ≡ example
unfolding request_host
request_host_run = refl

abbrev signed_header : Header
signed_header =
    (codes "Connection", (codes "x-trace, close" ∷ []))
    ∷ (codes "X-Trace", (codes "1" ∷ []))
    ∷ (codes "Authorization", (codes "stolen" ∷ []))
    ∷ []

abbrev bedrock_host : Bytes
bedrock_host = codes "bedrock-runtime.eu-west-1.amazonaws.com"

abbrev bedrock_request : Request
bedrock_request = record { header = signed_header; body = content (1 ∷ []); content_length = 1 }

abbrev mark : ℕ → Request → Bytes → Bytes → Bytes → ℕ → Request
mark key r hash service region now = record r { content_length = key }

inject_bedrock_at-IsClean_example :
    (s : Request) × IsClean signed_header s
    × (s.body ≡ bedrock_request.body)
    × SentFor
        (some 42)
        (λ b. b)
        mark
        s
        (bedrock_region bedrock_host)
        9
        (inject_bedrock_at (some 42) (λ b. b) mark bedrock_host 9 bedrock_request)
unfolding bedrock_region has_prefix has_suffix has_byte trim_suffix trim_prefix
inject_bedrock_at-IsClean_example =
    inject_bedrock_at-IsClean (some 42) (λ b. b) mark bedrock_host 9 bedrock_request refl
