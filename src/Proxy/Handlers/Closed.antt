-- ===== src/Proxy/Handlers/Closed.antt =====
-- proxy/server.go: which connections are open when a handler returns.
use runclaude.Prelude.{
  ◌≡◌, refl, ℕ, suc, ◌≤◌, Bool, true, false, not, ◌&&◌, List, [], ◌∷◌, Option, none, some,
  if◌then◌else◌, arith, Bool-cases, inl, inr,
}
use runclaude.Text.{Bytes}
use runclaude.Dict.{is_some}
use runclaude.Proxy.Ca.{Certificate, LeafCache, get_leaf}
use runclaude.Proxy.Handlers.{
  client, upstream, tls, Action, opened, closed, Hijack, unsupported, refused, taken, proxy_connect,
  target_url, proxy_mitm, mitm_leaf, SingleConn, Accepted, conn, accept, close,
}

-- the number of open sockets to the client and to the upstream server; the TLS connection is the
-- client's
pub record Open : Type 0 where
  pub clients : ℕ
  pub upstreams : ℕ

unfoldable pub perform : Action → Open → Open
perform (opened client) o = record o { clients = 1 }
perform (opened upstream) o = record o { upstreams = 1 }
perform (opened tls) o = o
perform (closed client) o = record o { clients = 0 }
perform (closed upstream) o = record o { upstreams = 0 }
perform (closed tls) o = record o { clients = 0 }
perform _ o = o

unfoldable pub perform_all : List Action → Open → Open
unfolding perform
perform_all [] o = o
perform_all (a ∷ actions) o = perform_all actions (perform a o)

-- when a handler is called, the client's connection is open and the HTTP server's
abbrev pub at_request : Open
at_request = record { clients = 1; upstreams = 0 }

abbrev is_taken : Hijack → Bool
is_taken taken = true
is_taken _ = false

-- When `proxyConnect` returns, no connection to the upstream server is open, on every branch, and
-- the client's is closed if the handler has taken it over.
pub proxy_connect-closed :
    (dialled : Bool) (hijack : Hijack)
    → perform_all (proxy_connect dialled hijack) at_request
      ≡ record { clients = if dialled && is_taken hijack then 0 else 1; upstreams = 0 }
unfolding proxy_connect perform_all
proxy_connect-closed false hijack = refl
proxy_connect-closed true unsupported = refl
proxy_connect-closed true refused = refl
proxy_connect-closed true taken = refl

-- the ways in which the client's connection is open when `proxyMitm` returns: it was not taken over, or
-- the target is no URL
unfoldable pub left_open :
    {Key Der : Type 0} → Hijack → Bool → Bool → Option (Certificate Key Der) → Bool
left_open taken shakes parsed leaf = is_some leaf && shakes && not parsed
left_open _ shakes parsed leaf = true

module _ {Key Der : Type 0} (create : Bytes → Der → Key → Key → Option Der) where
  leaf_closed :
      (leaf : Option (Certificate Key Der)) (shakes : Bool) (parses : Bytes → Bool) (target : Bytes)
      → (perform_all
          (mitm_leaf create shakes parses target leaf)
          (record { clients = 1; upstreams = 0 })).clients
        ≡ (if is_some leaf && shakes && not (parses target) then 1 else 0)
  unfolding perform_all
  leaf_closed none shakes parses target = refl
  leaf_closed (some leaf) false parses target = refl
  leaf_closed (some leaf) true parses target = elim (Bool-cases (parses target)) [
    | inl e ↦ rw e
    | inr e ↦ rw e
  ]

  -- When `proxyMitm` returns, the client's connection is open exactly if it was not taken over, and
  -- so is the HTTP server's still, or if the handshake succeeded and the target is no URL.
  pub proxy_mitm-closed :
      (hijack : Hijack) (shakes : Bool) (parses : Bytes → Bool) (host override : Bytes)
      (generate : Option Key) (c : LeafCache Key Der)
      → (perform_all
          (proxy_mitm create hijack shakes parses host override generate c).1
          at_request).clients
        ≡ (if left_open hijack shakes
              (parses (target_url host override))
              (get_leaf Key Der create host generate c).1
            then 1
            else 0)
  unfolding proxy_mitm perform_all left_open
  proxy_mitm-closed unsupported shakes parses host override generate c = refl
  proxy_mitm-closed refused shakes parses host override generate c = refl
  proxy_mitm-closed taken shakes parses host override generate c =
      leaf_closed (get_leaf Key Der create host generate c).1 shakes parses
        (target_url host override)

-- the calls of a sequence, `true` standing for `Accept` and `false` for `Close`
unfoldable pub answers : List Bool → SingleConn → List Accepted
unfolding accept close
answers [] l = []
answers (true ∷ calls) l = let r = accept l in r.1 ∷ answers calls r.0
answers (false ∷ calls) l = answers calls (close l)

-- how often the connection is handed out
unfoldable pub conns : List Accepted → ℕ
conns [] = 0
conns (conn ∷ rest) = suc (conns rest)
conns (a ∷ rest) = conns rest

answers_none :
    (calls : List Bool) (l : SingleConn) → l.waiting ≡ false → conns (answers calls l) ≡ 0
unfolding answers conns
answers_none [] l h = refl
answers_none (true ∷ calls) l h = ground (arith, answers_none calls l h)
answers_none (false ∷ calls) l h = answers_none calls (close l) (unfold close in h)

-- However `Accept` and `Close` are called, the listener hands its connection out once at most.
pub answers_once : (calls : List Bool) (l : SingleConn) → conns (answers calls l) ≤ 1
unfolding answers conns
answers_once [] l = ground arith
answers_once (true ∷ calls) l = elim (Bool-cases l.waiting) [
  | inl e ↦ ground (arith, e, answers_none calls (record l { waiting = false }) refl)
  | inr e ↦ ground (arith, e, answers_none calls l e)
]
answers_once (false ∷ calls) l = answers_once calls (close l)
