-- ===== src/Creds/Transport.antt =====
-- creds/anthropic.go, `RefreshTransport`: one 401 from upstream leads to a refresh and one retry.
pub mod Retry
use runclaude.Prelude.{
  ℕ, ◌+◌, ◌≡◌, Bool, true, false, not, List, [], ◌∷◌, ◌++◌, Option, none, some, ◌==◌, if◌then◌else◌,
  length,
}
use runclaude.Text.{Bytes, codes}
use runclaude.Creds.TokenSource.{TokenSource, World, Environment, RefreshError, bearer, refresh}

-- `req.Body`: nil, what it reads to, or a body whose reading fails
pub data Body : Type 0 where
  no_body : Body
  readable : Bytes → Body
  broken : Body

-- What the transport reads and sets of a request; `rest` is the request's line and its headers.
pub record Request : Type 0 where
  pub rest : List (Bytes × Bytes)
  pub body : Body
  pub content_length : ℕ

pub record Response : Type 0 where
  pub status : ℕ
  pub header : List (Bytes × Bytes)
  pub body : Bytes

-- the credential, and the requests sent upstream so far (the latest first)
pub record Link : Type 0 where
  pub creds : World
  pub sent : List Request

-- `base n req` answers the request number n, with `none` for an error. `reinject` sees the credential.
pub record Upstream : Type 0 where
  pub base : ℕ → Request → Option Response
  pub reinject : TokenSource → Request → Request

-- the response made up when the refresh fails
unfoldable pub refused : Response
refused = record {
  status = 401;
  header = (codes "Content-Type", codes "application/json") ∷ [];
  body = codes "{\"error\":\"runclaude: token refresh failed\"}";
}

-- the body of the retry
unfoldable pub replay : Body → Request → Request
replay (readable b) req = record req { body = readable b; content_length = length b }
replay no_body req = req
replay broken req = req

module _ (up : Upstream) (env : Environment) (now : ℕ) where
  -- `t.Base.RoundTrip(req)`
  abbrev pub send : Request → Link → Link × Option Response
  send req l = (record l { sent = req ∷ l.sent }, up.base (length l.sent) req)

  -- the retry, or the response made up
  unfoldable after_refresh : Option RefreshError → Request → Link → Link × Option Response
  unfolding refused replay
  after_refresh (some e) req l = (l, some refused)
  after_refresh none req l = send (up.reinject l.creds.source (replay req.body req)) l

  -- after the first answer, with the bearer that was current before it
  unfoldable after_answer : Bytes → Option Response → Request → Link → Link × Option Response
  unfolding after_refresh refresh
  after_answer stale none req l = (l, none)
  after_answer stale (some resp) req l =
      if not (resp.status == 401)
      then (l, some resp)
      else let out = refresh env stale now l.creds in
        after_refresh (out.1) req (record l { creds = out.0 })

  unfoldable after_read : Body → Request → Link → Link × Option Response
  unfolding after_answer
  after_read broken req l = (l, none)
  after_read b req l =
      let out = send req l in after_answer (bearer l.creds.source) (out.1) req (out.0)

  -- `RoundTrip(req)`; `none` is an error
  unfoldable pub round_trip : Request → Link → Link × Option Response
  unfolding after_read
  round_trip req l = after_read req.body req l
