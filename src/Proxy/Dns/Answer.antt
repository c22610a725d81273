-- ===== src/Proxy/Dns/Answer.antt =====
-- What the responses say, and when the host's resolver is asked.
use Prim.Native.Nat.{bit_or}
use runclaude.Prelude.{
  if◌then◌else◌, ℕ, zero, suc, ◌+◌, ◌*◌, ◌%◌, ◌≤◌, ◌<◌, ◌≡◌, ◌≢◌, refl, ap₂, ◌∙◌, ◌⊎◌, true, false,
  List, [], ◌∷◌, ◌++◌, none, some, arith, length, take, drop, All, length-append, ◌==◌, length-drop,
  length-take,
}
use runclaude.Bits.{uint16}
use runclaude.Text.{Bytes, codes, trim_suffix}
use runclaude.Proxy.Allowlist.{Allowlist, allows}
use runclaude.Proxy.Dns.{
  Parsed, ok, err, Query, parse_dns_query, question_end, rdata, resource_record, answers, put_at,
  build_dns_answer, build_dns_error, Resolver, network_of, handle_parsed, handle_dns_query,
}
use runclaude.Proxy.Dns.Total.{question_end-parse}

-- The response to `buf` depends on what the resolver answers for allowed names alone: two resolvers
-- that agree on those give the same response.
pub handle_dns_query-resolver :
    (resolve other : Resolver) (now : ℕ) (allowed : Allowlist) (buf : Bytes)
    → ((network name : Bytes)
        → allows now allowed name ≡ true
        → resolve network name ≡ other network name)
    → handle_dns_query resolve now allowed buf ≡ handle_dns_query other now allowed buf
unfolding handle_dns_query
handle_dns_query-resolver resolve other now allowed buf agree = parsed (parse_dns_query buf)
  where
    same :
        (q : Query)
        → handle_parsed resolve now allowed buf (ok q) ≡ handle_parsed other now allowed buf (ok q)
    same q =
        let name = trim_suffix q.name (codes ".") in
        unfold handle_parsed in ground (arith, agree (network_of q.qtype) name)

    parsed :
        (p : Parsed Query)
        → handle_parsed resolve now allowed buf p ≡ handle_parsed other now allowed buf p
    parsed (err e) = unfold handle_parsed in refl
    parsed (ok q) = same q

-- A query for a name that is not allowed is answered by NXDOMAIN, whatever its type.
pub handle_dns_query-deny :
    (resolve : Resolver) (now : ℕ) (allowed : Allowlist) (buf : Bytes) (q : Query)
    → parse_dns_query buf ≡ ok q
    → allows now allowed (trim_suffix q.name (codes ".")) ≡ false
    → handle_dns_query resolve now allowed buf ≡ build_dns_error buf 3
unfolding handle_dns_query
handle_dns_query-deny resolve now allowed buf q p h = rw p (unfold handle_parsed in ground arith)

pub build_dns_error_lem :
    (req : Bytes) (rcode : ℕ)
    → 4 ≤ length req
    → (r : Bytes) × (build_dns_error req rcode ≡ some r)
      × (length r ≡ length req)
      × (take 2 r ≡ take 2 req)
      × (drop 4 r ≡ drop 4 req)
unfolding build_dns_error
build_dns_error_lem (a ∷ b ∷ c ∷ d ∷ req) rcode h =
    (put_at 2 (bit_or 0x8180 rcode) (a ∷ b ∷ c ∷ d ∷ req), ground arith, refl, refl, refl)
build_dns_error_lem _ rcode h = absurd (omega arith)

-- the bytes of a record in front of its data
abbrev record_size : ℕ → ℕ
record_size qtype = if qtype == 28 then 28 else 16

rdata-size :
    (ip : Bytes) (qtype : ℕ)
    → (qtype ≡ 1) ⊎ (qtype ≡ 28)
    → rdata ip qtype ≢ none
    → length (resource_record (rdata ip qtype)) ≡ record_size qtype
unfolding rdata
rdata-size ip qtype h found = ground (arith, length-drop 12 ip)

answers_cons :
    (ip : Bytes) (ips : List Bytes) (qtype : ℕ)
    → length (answers (ip ∷ ips) qtype)
      ≡ length (resource_record (rdata ip qtype)) + length (answers ips qtype)
unfolding answers
answers_cons ip ips qtype = length-append (resource_record (rdata ip qtype)) (answers ips qtype)

answers-size :
    (ips : List Bytes) (qtype : ℕ)
    → (qtype ≡ 1) ⊎ (qtype ≡ 28)
    → All (λ ip. rdata ip qtype ≢ none) ips
    → length (answers ips qtype) ≡ length ips * record_size qtype
answers-size [] qtype h found = unfold answers in omega arith
answers-size (ip ∷ ips) qtype h found =
    answers_cons ip ips qtype
    ∙ ap₂ ◌+◌ (rdata-size ip qtype h found.0) (answers-size ips qtype h found.1)
    ∙ grind arith

uint16-take : (e : ℕ) (req : Bytes) → 2 ≤ e → uint16 (take e req) ≡ uint16 req
uint16-take zero req h = absurd (omega arith)
uint16-take (suc zero) req h = absurd (omega arith)
uint16-take (suc (suc e)) (a ∷ b ∷ req) h = refl
uint16-take (suc (suc e)) (a ∷ []) h = refl
uint16-take (suc (suc e)) [] h = refl

header_fields :
    (out : Bytes) (flags n : ℕ) (rest : Bytes)
    → 8 ≤ length out
    → n < 65536
    → (uint16 (put_at 6 n (put_at 2 flags out) ++ rest) ≡ uint16 out)
      × (uint16 (drop 6 (put_at 6 n (put_at 2 flags out) ++ rest)) ≡ n)
      × (length (put_at 6 n (put_at 2 flags out) ++ rest) ≡ length out + length rest)
header_fields (a ∷ b ∷ c ∷ d ∷ f ∷ g ∷ h ∷ i ∷ out) flags n rest le few =
    (refl, omega arith, omega (arith, length-append out rest))
header_fields _ flags n rest le few = absurd (omega arith)

build_dns_answer-eq :
    (req : Bytes) (ips : List Bytes) (qtype e : ℕ)
    → question_end req ≡ some e
    → e ≤ length req
    → build_dns_answer req ips qtype
      ≡ some (put_at 6 (length ips % 65536) (put_at 2 0x8180 (take e req)) ++ answers ips qtype)
unfolding build_dns_answer
build_dns_answer-eq req ips qtype e s l = rw s (ground arith)

-- For a query that parses and addresses of the type that it asks for, fewer than 65536 of them, the
-- answer has the id of the request, counts the addresses in its header, and holds behind the
-- question one record of 16 bytes (A) or 28 bytes (AAAA) for each.
pub build_dns_answer_lem :
    (req : Bytes) (ips : List Bytes) (q : Query)
    → parse_dns_query req ≡ ok q
    → (q.qtype ≡ 1) ⊎ (q.qtype ≡ 28)
    → All (λ ip. rdata ip q.qtype ≢ none) ips
    → length ips < 65536
    → (r : Bytes) × (e : ℕ) × (build_dns_answer req ips q.qtype ≡ some r)
      × (question_end req ≡ some e)
      × (uint16 r ≡ uint16 req)
      × (uint16 (drop 6 r) ≡ length ips)
      × (length r ≡ e + length ips * (if q.qtype == 28 then 28 else 16))
build_dns_answer_lem req ips q p h found few =
    let (e, s, (far, l)) = question_end-parse req p in
    let kept = take e req in
    let taken : length kept ≡ e = omega (arith, length-take e req) in
    let small : length ips % 65536 < 65536 = omega arith in
    let (id, count, size) =
      header_fields kept 0x8180 (length ips % 65536) (answers ips q.qtype) (omega arith) small in
    (
      put_at 6 (length ips % 65536) (put_at 2 0x8180 kept) ++ answers ips q.qtype,
      e,
      build_dns_answer-eq req ips q.qtype e s l,
      s,
      id ∙ uint16-take e req (omega arith),
      omega arith,
      omega (arith, answers-size ips q.qtype h found),
    )
