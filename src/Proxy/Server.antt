-- ===== src/Proxy/Server.antt =====
-- proxy/server.go: the decision on each request to the proxy, and the rewriting of intercepted ones.
-- Dialling, copying and TLS are left out: an outcome names what is done with the request.
pub mod Decision
pub mod Director
use runclaude.Prelude.{
  ℕ, Bool, true, false, not, ◌&&◌, ◌||◌, List, [], ◌∷◌, Option, none, some, if◌then◌else◌,
}
use runclaude.Dict.{insert}
use runclaude.Text.{Bytes, codes, bytes_eq, has_byte, cut_byte, is_empty}
use runclaude.Proxy.Match.{match_domain}
use runclaude.Proxy.Allowlist.{allows}
use runclaude.Proxy.Approver.{Approver, record_denial}
use runclaude.Proxy.Header.{Header, del_header, canonical}

-- What stands before the last colon, and what stands behind it.
last_colon : Bytes → Option (Bytes × Bytes)
last_colon [] = none
last_colon (c ∷ s) = elim (last_colon s) [
  | some (host, port) ↦ some (c ∷ host, port)
  | none ↦ if bytes_eq (c ∷ []) (codes ":") then some ([], s) else none
]

-- `[host]:port`, with the opening bracket gone
bracketed : Bytes × Option Bytes → Option Bytes
bracketed (host, none) = none
bracketed (host, some []) = none
bracketed (host, some (c ∷ port)) =
    if bytes_eq (c ∷ []) (codes ":")
      && not (has_byte b':' port || has_byte b'[' host || has_byte b'[' port || has_byte b']' port)
    then some host
    else none

plain_host : Option (Bytes × Bytes) → Option Bytes
plain_host none = none
plain_host (some (host, port)) =
    if has_byte b':' host
      || has_byte b'[' host
      || has_byte b'[' port
      || has_byte b']' host
      || has_byte b']' port
    then none
    else some host

-- the host of `net.SplitHostPort(hostport)`; `none` on an error
unfoldable pub split_host_port : Bytes → Option Bytes
unfolding last_colon bracketed plain_host has_byte cut_byte bytes_eq
split_host_port [] = none
split_host_port (c ∷ s) =
    if bytes_eq (c ∷ []) (codes "[")
    then bracketed (cut_byte b']' s)
    else plain_host (last_colon (c ∷ s))

-- What the handler does with a request for a host.
pub data Outcome : Type 0 where
  -- `Inject`, then `proxyHTTP`
  inject_and_forward : Bytes → Outcome
  -- `proxyMitm`
  intercept : Bytes → Outcome
  -- `proxyConnect`
  tunnel : Bytes → Outcome
  -- `proxyHTTP`
  forward : Bytes → Outcome
  -- 403, and `OnDeny`
  deny : Bytes → Outcome

abbrev host_or : Bytes → Option Bytes → Bytes
host_or s none = s
host_or s (some h) = h

-- the host of the request, from its Host field
unfoldable pub request_host : Bytes → Bytes
unfolding split_host_port
request_host host = host_or host (split_host_port host)

-- the handler of `Serve`, with `p.OnDeny` the approver's `Record` and `p.Allow` its allowlist, as
-- `mainErr` sets them; the state after it, and the outcome
unfoldable pub serve_host : List Bytes → Bytes → Bytes → ℕ → Approver → Approver × Outcome
serve_host mitm method host now ap =
    let connect = bytes_eq method (codes "CONNECT") in
    if match_domain host mitm
    then (ap, if connect then intercept host else inject_and_forward host)
    else if allows now ap.allow host
    then (ap, if connect then tunnel host else forward host)
    else (record_denial host now ap, deny host)

unfoldable pub serve : List Bytes → Bytes → Bytes → ℕ → Approver → Approver × Outcome
serve mitm method host_field now ap = serve_host mitm method (request_host host_field) now ap

-- The part of a request that the director touches.
pub record Outgoing : Type 0 where
  pub host : Bytes
  pub header : Header

-- `rp.Director` of `NewMitmReverseProxy`; `original` is the director of `httputil`. The header
-- X-Forwarded-For has no values at the end, by which `httputil` is told to add none.
unfoldable pub direct :
    (Outgoing → Outgoing) → (Bytes → Outgoing → Outgoing) → Bytes → Outgoing → Outgoing
direct original inject host req =
    let req1 = original req in
    let req2 = record req1 {
      host = host;
      header = del_header (codes "Proxy-Connection") req1.header;
    } in
    let req3 = inject host req2 in
    record req3 { header = insert (codes "X-Forwarded-For") [] req3.header }
