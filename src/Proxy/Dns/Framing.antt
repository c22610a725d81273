-- ===== src/Proxy/Dns/Framing.antt =====
-- proxy/dns.go, `ServeDNSTCP` and `ServeDNSUDP`: the framing of messages on a connection. The deadline
-- and the writes are left out.
use runclaude.Prelude.{
  ◌≡◌, sym, ap, ◌∙◌, append-nil, length-append, ℕ, ◌+◌, ◌*◌, ◌/◌, ◌%◌, ◌<◌, [], ◌∷◌, ◌++◌, Option,
  none, some, ltb, arith, length, take, take-length-append, if◌then◌else◌,
}
use runclaude.Text.{Bytes}
use runclaude.Bits.{put_uint16}
use runclaude.Proxy.Allowlist.{Allowlist}
use runclaude.Proxy.Dns.{Resolver, handle_dns_query}

-- `io.ReadFull` of the length, and then of as many bytes; `none` where the connection ends before
unfoldable pub read_message : Bytes → Option Bytes
read_message [] = none
read_message (a ∷ []) = none
read_message (a ∷ b ∷ rest) =
    if ltb (length rest) (a * 256 + b) then none else some (take (a * 256 + b) rest)

-- what is written
abbrev pub framed : Option Bytes → Bytes
framed none = []
framed (some resp) = put_uint16 (length resp) ++ resp

module _ (resolve : Resolver) (now : ℕ) (allowed : Allowlist) where
  abbrev pub answer_message : Option Bytes → Bytes
  answer_message none = []
  answer_message (some msg) = framed (handle_dns_query resolve now allowed msg)

  -- a connection of `ServeDNSTCP`: from what the client sends, what is written
  unfoldable pub serve_dns_tcp : Bytes → Bytes
  unfolding read_message
  serve_dns_tcp sent = answer_message (read_message sent)

  -- a datagram of `ServeDNSUDP`, of which 1500 bytes are read: the answer, or `none`
  unfoldable pub serve_dns_udp : Bytes → Option Bytes
  serve_dns_udp sent = handle_dns_query resolve now allowed (take 1500 sent)

read_prefixed :
    (a b : ℕ) (msg rest : Bytes)
    → a * 256 + b ≡ length msg
    → read_message (a ∷ b ∷ (msg ++ rest)) ≡ some msg
unfolding read_message
read_prefixed a b msg rest e =
    rw (e, take-length-append msg rest) (ground (arith, length-append msg rest))

-- a message behind its length is read back, whatever follows
read_message-framed :
    (msg rest : Bytes)
    → length msg < 65536
    → read_message (put_uint16 (length msg) ++ (msg ++ rest)) ≡ some msg
read_message-framed msg rest h =
    read_prefixed (length msg / 256 % 256) (length msg % 256) msg rest (omega arith)

module _ (resolve : Resolver) (now : ℕ) (allowed : Allowlist) where
  -- For a query and an answer shorter than 65536 bytes, what `ServeDNSTCP` writes to a connection
  -- that sends the query behind its length, and anything after it, is read back by the same
  -- framing as the answer of `HandleDNSQuery`.
  pub serve_dns_tcp-roundtrip :
      (query rest : Bytes) {resp : Bytes}
      → length query < 65536
      → handle_dns_query resolve now allowed query ≡ some resp
      → length resp < 65536
      → read_message
          (serve_dns_tcp resolve now allowed (put_uint16 (length query) ++ (query ++ rest)))
        ≡ some resp
  unfolding serve_dns_tcp
  serve_dns_tcp-roundtrip query rest {resp} h answered k = rw (read_message-framed query rest h) (
      rw answered (
        ap (λ m. read_message (put_uint16 (length resp) ++ m)) (sym (append-nil resp))
        ∙ read_message-framed resp [] k))
