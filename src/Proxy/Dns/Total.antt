-- ===== src/Proxy/Dns/Total.antt =====
-- For which requests the handler of a DNS query returns, and the fuel of its parser.
use runclaude.Prelude.{
  ℕ, zero, suc, ◌+◌, ◌≤◌, ◌<◌, ◌≡◌, ◌≢◌, ◌↔◌, ◌⊎◌, refl, inl, inr, List, [], ◌∷◌, ◌++◌, Option,
  none, some, arith, Bool-cases, length, take, drop, length-drop, ltb, ◌==◌,
}
use runclaude.Bits.{uint16}
use runclaude.Text.{Bytes, codes, trim_suffix}
use runclaude.Proxy.Allowlist.{Allowlist}
use runclaude.Proxy.Dns.{
  Parsed, ok, err, Query, out_of_fuel, too_short, network_of, read_labels, parse_question,
  parse_dns_query, skip_labels, question_end, build_dns_answer, build_dns_error, Resolver,
  answer_lookup, handle_parsed, handle_dns_query,
}

-- `questionEnd` stops where the parser stopped.
skip-read :
    (f : ℕ) (rest : Bytes) (parts : List Bytes) (pos : ℕ) {ps : List Bytes} {left : Bytes}
    → read_labels f rest parts ≡ ok (ps, left)
    → (e : ℕ) × (skip_labels f rest pos ≡ some e)
      × (e + length left ≡ pos + length rest + 4)
      × (pos + 5 ≤ e)
unfolding read_labels skip_labels
skip-read zero rest parts pos h = cc
skip-read (suc f) [] parts pos h = cc
skip-read (suc f) (n ∷ rest) parts pos {ps} {left} h = elim (Bool-cases (n == 0)) [
  | inl z ↦ (pos + 1 + 4, rw z refl, ground arith, omega arith)
  | inr z ↦
      let (e, s, l, far) =
        skip-read f (drop n rest) (parts ++ take n rest ∷ []) (pos + 1 + n) {ps = ps} {left = left}
          (ground arith) in
      let fits : n ≤ length rest = ground arith in
      (e, rw z s, omega (arith, length-drop n rest), omega arith)
]

parse_question-ok :
    (id : ℕ) (r : Parsed (List Bytes × Bytes)) {q : Query}
    → parse_question id r ≡ ok q
    → (ps : List Bytes) × (left : Bytes) × (r ≡ ok (ps, left)) × (4 ≤ length left)
unfolding parse_question
parse_question-ok id (err e) h = cc
parse_question-ok id (ok (ps, left)) h = (ps, left, refl, ground arith)

parse_dns_query-ok :
    (buf : Bytes) {q : Query}
    → parse_dns_query buf ≡ ok q
    → (12 ≤ length buf)
      × (parse_question (uint16 buf) (read_labels (length buf) (drop 12 buf) []) ≡ ok q)
unfolding parse_dns_query
parse_dns_query-ok buf h = ground arith

-- After a parse that succeeds `questionEnd` stays in the request.
pub question_end-parse :
    (buf : Bytes) {q : Query}
    → parse_dns_query buf ≡ ok q
    → (e : ℕ) × (question_end buf ≡ some e) × ((17 ≤ e) × (e ≤ length buf))
unfolding question_end
question_end-parse buf h =
    let (long, p) = parse_dns_query-ok buf h in
    let (ps, left, r, four) = parse_question-ok _ _ p in
    let (e, s, l, far) = skip-read (length buf) (drop 12 buf) [] 12 r in
    (e, s, (omega (arith, length-drop 12 buf), omega (arith, length-drop 12 buf)))

build_dns_error-some : (buf : Bytes) (rcode : ℕ) → 4 ≤ length buf → build_dns_error buf rcode ≢ none
unfolding build_dns_error
build_dns_error-some buf rcode h e = ground arith

build_dns_error-none : (buf : Bytes) (rcode : ℕ) → length buf < 4 → build_dns_error buf rcode ≡ none
unfolding build_dns_error
build_dns_error-none buf rcode h = ground arith

build_dns_answer-some :
    (buf : Bytes) (ips : List Bytes) (qtype : ℕ) {q : Query}
    → parse_dns_query buf ≡ ok q
    → build_dns_answer buf ips qtype ≢ none
unfolding build_dns_answer
build_dns_answer-some buf ips qtype h n =
    let (e, s, (far, l)) = question_end-parse buf h in ground arith

answer_lookup-some :
    (buf : Bytes) (qtype : ℕ) (found : Option (List Bytes)) {q : Query}
    → 4 ≤ length buf
    → parse_dns_query buf ≡ ok q
    → answer_lookup buf qtype found ≢ none
unfolding answer_lookup
answer_lookup-some buf qtype none four h = build_dns_error-some buf 2 four
answer_lookup-some buf qtype (some ips) four h = build_dns_answer-some buf ips qtype h

handle_parsed-some :
    (resolve : Resolver) (now : ℕ) (allowed : Allowlist) (buf : Bytes) (p : Parsed Query)
    → 4 ≤ length buf
    → parse_dns_query buf ≡ p
    → handle_parsed resolve now allowed buf p ≢ none
unfolding handle_parsed
handle_parsed-some resolve now allowed buf (err e) four h n = build_dns_error-some buf 1 four n
handle_parsed-some resolve now allowed buf (ok q) four h n =
    let name = trim_suffix q.name (codes ".") in
    ground (
      arith,
      build_dns_error-some buf 3 four,
      build_dns_error-some buf 4 four,
      answer_lookup-some buf q.qtype (resolve (network_of q.qtype) name) four h,
    )

parse_dns_query_short : (buf : Bytes) → length buf < 12 → parse_dns_query buf ≡ err too_short
unfolding parse_dns_query
parse_dns_query_short buf h = ground arith

handle_short :
    (resolve : Resolver) (now : ℕ) (allowed : Allowlist) (buf : Bytes)
    → length buf < 4
    → handle_parsed resolve now allowed buf (parse_dns_query buf) ≡ none
handle_short resolve now allowed buf h =
    rw (parse_dns_query_short buf (omega arith))
      (unfold handle_parsed in build_dns_error-none buf 1 h)

le_or_lt : (a b : ℕ) → (a ≤ b) ⊎ (b < a)
le_or_lt a b = elim (Bool-cases (ltb b a)) [
  | inl h ↦ inr (ground (arith, h))
  | inr h ↦ inl (ground (arith, h))
]

-- `HandleDNSQuery` fails to return a response, by a panic, exactly for a request of fewer than four
-- bytes, whatever the resolver answers and the list allows.
pub handle_dns_query-none_iff :
    (resolve : Resolver) (now : ℕ) (allowed : Allowlist) (buf : Bytes)
    → (handle_dns_query resolve now allowed buf ≡ none) ↔ (length buf < 4)
unfolding handle_dns_query
handle_dns_query-none_iff resolve now allowed buf = (
  λ e. elim (le_or_lt 4 (length buf)) [
    | inl long ↦
        absurd (handle_parsed-some resolve now allowed buf (parse_dns_query buf) long refl e)
    | inr short ↦ short
  ],
  λ h. handle_short resolve now allowed buf h,
)

read_labels-fuel :
    (f : ℕ) (rest : Bytes) (parts : List Bytes)
    → length rest < f
    → read_labels f rest parts ≢ err out_of_fuel
unfolding read_labels
read_labels-fuel zero rest parts h = elim h [ ]
read_labels-fuel (suc f) [] parts h = λ e. cc
read_labels-fuel (suc f) (n ∷ rest) parts h =
    ground (arith, read_labels-fuel f (drop n rest) (parts ++ take n rest ∷ []), length-drop n rest)

parse_question-fuel :
    (id : ℕ) (r : Parsed (List Bytes × Bytes))
    → r ≢ err out_of_fuel
    → parse_question id r ≢ err out_of_fuel
unfolding parse_question
parse_question-fuel id (err e) h = λ q. h (ground arith)
parse_question-fuel id (ok (ps, left)) h = λ q. ground arith

-- The fuel of the parser is enough for every request.
pub parse_dns_query-fuel : (buf : Bytes) → parse_dns_query buf ≢ err out_of_fuel
unfolding parse_dns_query
parse_dns_query-fuel buf e =
    let labels = read_labels (length buf) (drop 12 buf) [] in
    elim (Bool-cases (ltb (length buf) 12)) [
      | inl short ↦ ground arith
      | inr long ↦
          let enough : length (drop 12 buf) < length buf = ground (arith, length-drop 12 buf) in
          let fine = read_labels-fuel (length buf) (drop 12 buf) [] enough in
          ground (arith, parse_question-fuel (uint16 buf) labels fine)
    ]
