-- ===== src/Proxy/Handlers.antt =====
-- proxy/server.go: what the handlers do with the connections that they open and take over. The system's
-- answers are given; what is done is a list of actions in their order.
pub mod Closed
use runclaude.Prelude.{
  ◌≡◌, ℕ, Bool, true, false, not, List, [], ◌∷◌, ◌++◌, Option, none, some, map, if◌then◌else◌,
}
use runclaude.Text.{Bytes, codes, is_empty}
use runclaude.Dict.{Dict}
use runclaude.Proxy.Ca.{Certificate, LeafCache, get_leaf}

pub data Connection : Type 0 where
  client upstream tls : Connection

-- `http.Error` with a status, the opening and closing of connections, the line that answers CONNECT,
-- the copying in both directions until one ends, and the inner server on the TLS connection
pub data Action : Type 0 where
  http_error : ℕ → Action
  opened closed : Connection → Action
  answered_connect : Action
  copied : Action
  served : Bytes → Action

-- `hj, ok := w.(http.Hijacker)`, and `hj.Hijack()`
pub data Hijack : Type 0 where
  unsupported refused taken : Hijack

abbrev pub connect_over : Hijack → List Action
connect_over unsupported = closed upstream ∷ http_error 500 ∷ []
connect_over refused = closed upstream ∷ []
connect_over taken =
    opened client ∷ answered_connect ∷ copied ∷ closed upstream ∷ closed client ∷ []

-- `proxyConnect`; `dialled` tells whether `net.DialTimeout` connects
unfoldable pub proxy_connect : Bool → Hijack → List Action
proxy_connect dialled hijack =
    if not dialled then http_error 502 ∷ [] else opened upstream ∷ connect_over hijack

-- a header's fields are written one by one: `w.Header().Add` for each value
unfoldable pub copied_header : Dict (List Bytes) → List (Bytes × Bytes)
copied_header [] = []
copied_header ((k, vs) ∷ h) = map (λ v. (k, v)) vs ++ copied_header h

-- the answer of the transport: an error, or a status, the header and the body
pub data Reply : Type 0 where
  no_reply : Reply
  reply : ℕ → Dict (List Bytes) → Bytes → Reply

-- what the client gets: status, fields and body
pub data Written : Type 0 where
  error_page : ℕ → Written
  written : ℕ → List (Bytes × Bytes) → Bytes → Written

-- `proxyHTTP`
unfoldable pub proxy_http : Reply → Written
unfolding copied_header
proxy_http no_reply = error_page 502
proxy_http (reply status header body) = written status (copied_header header) body

-- `targetStr`
unfoldable pub target_url : Bytes → Bytes → Bytes
target_url host override = if not (is_empty override) then override else codes "https://" ++ host

-- `singleConnListener`: whether its connection is still to be accepted, and whether it is closed
pub record SingleConn : Type 0 where
  pub waiting : Bool
  pub shut : Bool

-- the result of `Accept`: the connection, a wait for `Close`, or the error `io.EOF`
pub data Accepted : Type 0 where
  conn blocks eof : Accepted

-- `l.Accept()`
unfoldable pub accept : SingleConn → SingleConn × Accepted
accept l =
    if l.waiting then (record l { waiting = false }, conn) else (l, if l.shut then eof else blocks)

-- `l.Close()`, which `sync.Once` makes one
unfoldable pub close : SingleConn → SingleConn
close l = record l { shut = true }

module _ {Key Der : Type 0} (create : Bytes → Der → Key → Key → Option Der) where
  -- behind the leaf: the handshake, and `url.Parse` of the target
  abbrev pub mitm_tls : Bool → (Bytes → Bool) → Bytes → List Action
  mitm_tls shakes parses target =
      if not shakes
      then closed tls ∷ []
      else if not (parses target)
      then []
      else served target ∷ closed tls ∷ []

  abbrev pub mitm_leaf : Bool → (Bytes → Bool) → Bytes → Option (Certificate Key Der) → List Action
  mitm_leaf shakes parses target none = closed client ∷ []
  mitm_leaf shakes parses target (some leaf) = opened tls ∷ mitm_tls shakes parses target

  -- `proxyMitm`: the cache behind it, and what is done; the TLS connection takes over the client's
  unfoldable pub proxy_mitm :
      Hijack
      → Bool
      → (Bytes → Bool)
      → Bytes
      → Bytes
      → Option Key
      → LeafCache Key Der
      → LeafCache Key Der × List Action
  unfolding get_leaf target_url
  proxy_mitm unsupported shakes parses host override generate c = (c, http_error 500 ∷ [])
  proxy_mitm refused shakes parses host override generate c = (c, [])
  proxy_mitm taken shakes parses host override generate c =
      let r = get_leaf Key Der create host generate c in
      (
        r.0,
        opened client ∷ answered_connect ∷ mitm_leaf shakes parses (target_url host override) (r.1),
      )
