-- ===== src/Proxy/Dns/Question.antt =====
-- The parser of questions against their wire format.
use runclaude.Prelude.{
  ℕ, zero, suc, ◌≤◌, ◌<◌, ◌≡◌, refl, ◌∙◌, List, [], ◌∷◌, ◌++◌, arith, length, All, drop, append-nil,
  append_assoc, length-append, take-length-append, drop-length-append,
}
use runclaude.Bits.{put_uint16, uint16, uint16-put_uint16}
use runclaude.Text.{Bytes, codes, join}
use runclaude.Proxy.Dns.{ok, read_labels, parse_question, parse_dns_query}

-- RFC 1035: a label has one to 63 bytes.
abbrev pub IsLabel : Bytes → Type 0
IsLabel l = (1 ≤ length l) × (length l ≤ 63)

abbrev pub encode_labels : List Bytes → Bytes → Bytes
encode_labels [] rest = 0 ∷ rest
encode_labels (l ∷ ls) rest = length l ∷ (l ++ encode_labels ls rest)

-- A query with one question: the flags and the three other counts are any six bytes and two.
abbrev pub encode_query : ℕ → ℕ → Bytes → List Bytes → ℕ → ℕ → Bytes → Bytes
encode_query id flags counts labels qtype qclass rest =
    put_uint16 id
    ++ (put_uint16 flags
        ++ (put_uint16 1
            ++ (counts ++ encode_labels labels (put_uint16 qtype ++ (put_uint16 qclass ++ rest)))))

read_labels-encode :
    (f : ℕ) (ls parts : List Bytes) (rest : Bytes)
    → length ls < f
    → All IsLabel ls
    → read_labels f (encode_labels ls rest) parts ≡ ok (parts ++ ls, rest)
unfolding read_labels
read_labels-encode zero ls parts rest h v = elim h [ ]
read_labels-encode (suc f) [] parts rest h v = rw append-nil
read_labels-encode (suc f) (l ∷ ls) parts rest h ((one, max), v) = ground (
  arith,
  take-length-append l (encode_labels ls rest),
  drop-length-append l (encode_labels ls rest),
  length-append l (encode_labels ls rest),
  append_assoc parts (l ∷ []) ls,
  read_labels-encode f ls (parts ++ l ∷ []) rest (omega arith) v,
)

length-encode_labels : (ls : List Bytes) (rest : Bytes) → length ls ≤ length (encode_labels ls rest)
length-encode_labels [] rest = omega arith
length-encode_labels (l ∷ ls) rest =
    omega (arith, length-encode_labels ls rest, length-append l (encode_labels ls rest))

parse-encode :
    (id : ℕ) (ls : List Bytes) (qtype qclass f : ℕ) (rest : Bytes)
    → qtype < 65536
    → length ls < f
    → All IsLabel ls
    → parse_question id
        (read_labels f (encode_labels ls (put_uint16 qtype ++ (put_uint16 qclass ++ rest))) [])
      ≡ ok (record { id = id; name = join (codes ".") ls; qtype = qtype })
unfolding parse_question
parse-encode id ls qtype qclass f rest hq hf v =
    rw (read_labels-encode f ls [] (put_uint16 qtype ++ (put_uint16 qclass ++ rest)) hf v)
      (ground arith)

parse_dns_query_long :
    (buf : Bytes)
    → 12 ≤ length buf
    → uint16 (drop 4 buf) ≡ 1
    → parse_dns_query buf ≡ parse_question (uint16 buf) (read_labels (length buf) (drop 12 buf) [])
unfolding parse_dns_query
parse_dns_query_long buf h e = ground arith

-- `parseDNSQuery` reads back the id, the name with its labels joined by dots, and the type of any
-- query with one question and labels of one to 63 bytes, whatever its flags, its other counts and
-- what follows the question.
pub parse-encode_query :
    (id flags : ℕ) (counts : Bytes) (ls : List Bytes) (qtype qclass : ℕ) (rest : Bytes)
    → id < 65536
    → qtype < 65536
    → length counts ≡ 6
    → All IsLabel ls
    → parse_dns_query (encode_query id flags counts ls qtype qclass rest)
      ≡ ok (record { id = id; name = join (codes ".") ls; qtype = qtype })
parse-encode_query id flags (a ∷ b ∷ c ∷ d ∷ e ∷ f ∷ []) ls qtype qclass rest hi hq hc v =
    let question = put_uint16 qtype ++ (put_uint16 qclass ++ rest) in
    let buf = encode_query id flags (a ∷ b ∷ c ∷ d ∷ e ∷ f ∷ []) ls qtype qclass rest in
    parse_dns_query_long buf (omega arith) refl
    ∙ rw (uint16-put_uint16 id (drop 2 buf) hi) (
        parse-encode id ls qtype qclass (length buf) rest hq
          (omega (arith, length-encode_labels ls question)) v)
parse-encode_query id flags _ ls qtype qclass rest hi hq hc v = absurd (omega arith)
