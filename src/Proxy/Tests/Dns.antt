-- ===== src/Proxy/Tests/Dns.antt =====
-- The DNS server at concrete requests.
use runclaude.Prelude.{
  ◌<◌, ◌≡◌, ◌≢◌, refl, ◌↔◌, true, List, [], ◌∷◌, ◌++◌, none, some, arith, length, All,
  if◌then◌else◌,
}
use runclaude.Bits.{put_uint16}
use runclaude.Text.{Bytes, codes, join}
use runclaude.Proxy.Allowlist.{allows}
use runclaude.Proxy.Dns.{
  ok, Query, Resolver, parse_dns_query, question_end, build_dns_answer, handle_dns_query, rdata,
}
use runclaude.Proxy.Dns.Question.{encode_query, parse-encode_query}
use runclaude.Proxy.Dns.Framing.{read_message, serve_dns_tcp, serve_dns_tcp-roundtrip}
use runclaude.Proxy.Dns.Total.{handle_dns_query-none_iff}
use runclaude.Proxy.Dns.Answer.{handle_dns_query-resolver}
use runclaude.Proxy.Tests.{two_patterns}

abbrev labels : List Bytes
labels = codes "evil" ∷ codes "com" ∷ []

abbrev six : Bytes
six = 0 ∷ 0 ∷ 0 ∷ 0 ∷ 0 ∷ 0 ∷ []

abbrev request : Bytes
request = encode_query 7 256 six labels 1 1 []

abbrev query : Query
query = record { id = 7; name = join (codes ".") labels; qtype = 1 }

abbrev leaky : Resolver
leaky network name = some ((1 ∷ 2 ∷ 3 ∷ 4 ∷ []) ∷ [])

abbrev silent : Resolver
silent network name = if allows 0 two_patterns name then leaky network name else none

parse_run : parse_dns_query request ≡ ok query
unfolding parse_dns_query join
parse_run = refl

parse-encode_query_example : parse_dns_query request ≡ ok query
parse-encode_query_example =
    parse-encode_query 7 256 six labels 1 1 [] (omega arith) (omega arith) refl
      ((omega arith, omega arith), ((omega arith, omega arith), tt))

abbrev two_bytes : Bytes
two_bytes = 1 ∷ 2 ∷ []

handle_dns_query-none_iff_example :
    (handle_dns_query leaky 0 two_patterns two_bytes ≡ none) ↔ (length two_bytes < 4)
handle_dns_query-none_iff_example = handle_dns_query-none_iff leaky 0 two_patterns two_bytes

agree :
    (network name : Bytes)
    → allows 0 two_patterns name ≡ true
    → leaky network name ≡ silent network name
agree network name h = rw h refl

handle_dns_query-resolver_example :
    handle_dns_query leaky 0 two_patterns request ≡ handle_dns_query silent 0 two_patterns request
handle_dns_query-resolver_example =
    handle_dns_query-resolver leaky silent 0 two_patterns request agree

abbrev address : List Bytes
address = (1 ∷ 2 ∷ 3 ∷ 4 ∷ []) ∷ []

address_fits : All (λ ip. rdata ip 1 ≢ none) address
unfolding rdata
address_fits = ((λ e. cc), tt)

abbrev short_query : Bytes
short_query = 7 ∷ 7 ∷ 1 ∷ 0 ∷ 0 ∷ []

abbrev short_answer : Bytes
short_answer = 7 ∷ 7 ∷ 129 ∷ 129 ∷ 0 ∷ []

serve_dns_tcp-roundtrip_example :
    read_message (
      serve_dns_tcp leaky 0 two_patterns
        (put_uint16 (length short_query) ++ (short_query ++ 9 ∷ [])))
    ≡ some short_answer
unfolding handle_dns_query runclaude.Proxy.Dns.build_dns_error
serve_dns_tcp-roundtrip_example =
    serve_dns_tcp-roundtrip leaky 0 two_patterns short_query (9 ∷ []) (omega arith) refl
      (omega arith)
