-- ===== src/Proxy/Dns.antt =====
-- proxy/dns.go: the DNS server of the sandbox. A slice that is read from a position on is the rest of
-- the buffer there. `none` stands for the panic of an index or slice out of range.
pub mod Question
pub mod Total
pub mod Answer
pub mod Framing
use Prim.Native.Nat.{bit_or}
use runclaude.Prelude.{
  ℕ, zero, suc, ◌+◌, ◌*◌, ◌/◌, ◌%◌, Bool, true, false, not, ◌&&◌, List, [], ◌∷◌, ◌++◌, Option, none,
  some, ltb, leb, ◌==◌, if◌then◌else◌, length, take, drop,
}
use runclaude.Text.{Bytes, codes, bytes_eq, join, trim_suffix}
use runclaude.Bits.{put_uint16, put_uint32, uint16}
use runclaude.Proxy.Allowlist.{Allowlist, allows}

-- The errors of `parseDNSQuery`; `out_of_fuel` belongs to the model only.
pub data ParseError : Type 0 where
  too_short qdcount name_truncated compression label_truncated question_truncated out_of_fuel :
      ParseError

pub data Parsed (A : Type 0) : Type 0 where
  ok : A → Parsed A
  err : ParseError → Parsed A

-- The loop over the labels: the parts, and what stands behind the null label.
read_labels : ℕ → Bytes → List Bytes → Parsed (List Bytes × Bytes)
read_labels zero rest parts = err out_of_fuel
read_labels (suc f) [] parts = err name_truncated
read_labels (suc f) (n ∷ rest) parts =
    let next = read_labels f (drop n rest) (parts ++ take n rest ∷ []) in
    if n == 0
    then ok (parts, rest)
    else if not (n / 64 % 4 == 0)
    then err compression
    else if ltb (length rest) n
    then err label_truncated
    else next

pub record Query : Type 0 where
  pub id : ℕ
  pub name : Bytes
  pub qtype : ℕ

parse_question : ℕ → Parsed (List Bytes × Bytes) → Parsed Query
parse_question id (err e) = err e
parse_question id (ok (parts, rest)) =
    if ltb (length rest) 4
    then err question_truncated
    else ok (record { id = id; name = join (codes ".") parts; qtype = uint16 rest })

-- `parseDNSQuery(buf)`
unfoldable pub parse_dns_query : Bytes → Parsed Query
unfolding read_labels parse_question join
parse_dns_query buf =
    if ltb (length buf) 12
    then err too_short
    else if not (uint16 (drop 4 buf) == 1)
    then err qdcount
    else parse_question (uint16 buf) (read_labels (length buf) (drop 12 buf) [])

-- the loop of `questionEnd`, at the position `pos` with `rest` behind it
skip_labels : ℕ → Bytes → ℕ → Option ℕ
skip_labels zero rest pos = none
skip_labels (suc f) [] pos = none
skip_labels (suc f) (n ∷ rest) pos =
    let next = skip_labels f (drop n rest) (pos + 1 + n) in
    if n == 0 then some (pos + 1 + 4) else next

-- `questionEnd(buf)`; the loop goes at most once for each byte
unfoldable pub question_end : Bytes → Option ℕ
unfolding skip_labels
question_end buf = skip_labels (length buf) (drop 12 buf) 12

-- ::ffff:0:0/96, before the four bytes of an IPv4 address
abbrev pub v4_in_v6 : Bytes
v4_in_v6 = 0 ∷ 0 ∷ 0 ∷ 0 ∷ 0 ∷ 0 ∷ 0 ∷ 0 ∷ 0 ∷ 0 ∷ 255 ∷ 255 ∷ []

-- `ip.To4()`, `ip.To16()`
unfoldable pub to4 : Bytes → Option Bytes
unfolding bytes_eq
to4 ip =
    if length ip == 4
    then some ip
    else if length ip == 16 && bytes_eq (take 12 ip) v4_in_v6
    then some (drop 12 ip)
    else none

unfoldable pub to16 : Bytes → Option Bytes
to16 ip =
    if length ip == 4 then some (v4_in_v6 ++ ip) else if length ip == 16 then some ip else none

rdata_v4 : Option Bytes → ℕ → Option (Bytes × ℕ)
rdata_v4 (some v4) qtype = if qtype == 1 then some (v4, 1) else none
rdata_v4 none qtype = none

rdata_v6 : Option Bytes → Option Bytes → ℕ → Option (Bytes × ℕ)
rdata_v6 (some v6) none qtype = if qtype == 28 then some (v6, 28) else none
rdata_v6 _ _ qtype = none

-- the branches of the loop in `buildDNSAnswer`: the data of a record and its type
unfoldable pub rdata : Bytes → ℕ → Option (Bytes × ℕ)
unfolding rdata_v4 rdata_v6 to4 to16
rdata ip qtype = elim (rdata_v4 (to4 ip) qtype) [
  | some r ↦ some r
  | none ↦ rdata_v6 (to16 ip) (to4 ip) qtype
]

abbrev pub resource_record : Option (Bytes × ℕ) → Bytes
resource_record none = []
resource_record (some (rdata, rtype)) =
    0xc0
    ∷ 0x0c
    ∷ (put_uint16 rtype
        ++ (put_uint16 1 ++ (put_uint32 60 ++ (put_uint16 (length rdata) ++ rdata))))

unfoldable pub answers : List Bytes → ℕ → Bytes
unfolding rdata
answers [] qtype = []
answers (ip ∷ ips) qtype = resource_record (rdata ip qtype) ++ answers ips qtype

-- `out[i:i+2] = n`, at a position inside the buffer
abbrev pub put_at : ℕ → ℕ → Bytes → Bytes
put_at i n out = take i out ++ (put_uint16 n ++ drop (i + 2) out)

answer_behind : Bytes → List Bytes → ℕ → Option ℕ → Option Bytes
answer_behind req ips qtype none = none
answer_behind req ips qtype (some qend) =
    if ltb (length req) qend
    then none
    else some (put_at 6 (length ips % 65536) (put_at 2 0x8180 (take qend req)) ++ answers ips qtype)

-- `buildDNSAnswer(req, ips, qtype)`; its request was parsed, and is longer than its header
unfoldable pub build_dns_answer : Bytes → List Bytes → ℕ → Option Bytes
unfolding answer_behind question_end answers
build_dns_answer req ips qtype = answer_behind req ips qtype (question_end req)

-- `buildDNSError(req, rcode)`: `out[2:4]` is out of range in a request of fewer than four bytes.
unfoldable pub build_dns_error : Bytes → ℕ → Option Bytes
build_dns_error req rcode =
    if ltb (length req) 4 then none else some (put_at 2 (bit_or 0x8180 rcode) req)

-- `net.DefaultResolver.LookupIP(network, name)`: the addresses, or none on an error
abbrev pub Resolver : Type 0
Resolver = Bytes → Bytes → Option (List Bytes)

abbrev pub network_of : ℕ → Bytes
network_of qtype = if qtype == 28 then codes "ip6" else codes "ip4"

answer_lookup : Bytes → ℕ → Option (List Bytes) → Option Bytes
answer_lookup buf qtype none = build_dns_error buf 2
answer_lookup buf qtype (some ips) = build_dns_answer buf ips qtype

-- `HandleDNSQuery` behind the parsing, at the time `now`
unfoldable pub handle_parsed : Resolver → ℕ → Allowlist → Bytes → Parsed Query → Option Bytes
unfolding answer_lookup trim_suffix
handle_parsed resolve now allowed buf (err e) = build_dns_error buf 1
handle_parsed resolve now allowed buf (ok q) =
    let name = trim_suffix q.name (codes ".") in
    if not (allows now allowed name)
    then build_dns_error buf 3
    else if not (q.qtype == 1) && not (q.qtype == 28)
    then build_dns_error buf 4
    else answer_lookup buf q.qtype (resolve (network_of q.qtype) name)

-- `HandleDNSQuery(buf, allowed)` at the time `now`
unfoldable pub handle_dns_query : Resolver → ℕ → Allowlist → Bytes → Option Bytes
unfolding handle_parsed parse_dns_query
handle_dns_query resolve now allowed buf =
    handle_parsed resolve now allowed buf (parse_dns_query buf)
