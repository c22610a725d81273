-- ===== src/Creds/Transport/Retry.antt =====
-- creds/anthropic.go, `RoundTrip`: when a request is sent again, and what the client gets.
use runclaude.Prelude.{
  ℕ, ◌+◌, ◌≡◌, ◌≢◌, ◌≤◌, refl, sym, ap, Bool, true, false, not, ◌&&◌, ◌==◌, List, ◌∷◌, Option, none,
  some, length, arith, if◌then◌else◌, Bool-cases, inl, inr,
}
use runclaude.Text.{Bytes}
use runclaude.Creds.TokenSource.{World, Environment, RefreshError, bearer, refresh}
use runclaude.Creds.Transport.{
  Body, no_body, readable, broken, Request, Response, Link, Upstream, refused, replay, send,
  after_refresh, after_answer, after_read, round_trip,
}

module _ (up : Upstream) (env : Environment) (now : ℕ) where
  after_read-answer :
      (b : Body) (req : Request) (l : Link)
      → b ≢ broken
      → after_read up env now b req l
        ≡ after_answer up env now
            (bearer l.creds.source)
            (up.base (length l.sent) req)
            req
            (record l { sent = req ∷ l.sent })
  unfolding after_read
  after_read-answer no_body req l h = refl
  after_read-answer (readable b) req l h = refl
  after_read-answer broken req l h = ground (arith, h)

  -- all that follows the first answer
  round_trip-after_answer :
      (req : Request) (l : Link)
      → req.body ≢ broken
      → round_trip up env now req l
        ≡ after_answer up env now
            (bearer l.creds.source)
            (up.base (length l.sent) req)
            req
            (record l { sent = req ∷ l.sent })
  unfolding round_trip
  round_trip-after_answer req l h = after_read-answer req.body req l h

  abbrev is_broken : Body → Bool
  is_broken broken = true
  is_broken _ = false

  abbrev is_401 : Option Response → Bool
  is_401 none = false
  is_401 (some resp) = resp.status == 401

  abbrev succeeded : Option RefreshError → Bool
  succeeded none = true
  succeeded (some e) = false

  -- the first answer, whether it is a 401, and the credential after the refresh
  abbrev pub first : Request → Link → Option Response
  first req l = up.base (length l.sent) req

  abbrev pub rejects : Request → Link → Bool
  rejects req l = not (is_broken req.body) && is_401 (first req l)

  abbrev pub refreshed : Link → World × Option RefreshError
  refreshed l = refresh env (bearer l.creds.source) now l.creds

  abbrev pub retries : Request → Link → Bool
  retries req l = rejects req l && succeeded (refreshed l).1

  abbrev pub sent_once : Request → Link → List Request
  sent_once req l = if is_broken req.body then l.sent else req ∷ l.sent

  -- the length that the retry declares
  abbrev pub declared : Body → ℕ → ℕ
  declared (readable b) n = length b
  declared no_body n = n
  declared broken n = n

  abbrev pub Retried : Request → Link → Request → Link × Option Response → Type 0
  Retried req l again out =
      (again.rest ≡ req.rest)
      × (again.body ≡ req.body)
      × (again.content_length ≡ declared req.body req.content_length)
      × (out.0.creds ≡ (if rejects req l then (refreshed l).0 else l.creds))
      × (out.0.sent ≡ (
          if retries req l
          then up.reinject (refreshed l).0.source again ∷ req ∷ l.sent
          else sent_once req l))
      × (out.1 ≡ (
          if retries req l
          then up.base (length l.sent + 1) (up.reinject (refreshed l).0.source again)
          else if rejects req l
          then some refused
          else if is_broken req.body
          then none
          else first req l))

  replay_same :
      (b : Body) (req : Request)
      → req.body ≡ b
      → ((replay b req).rest ≡ req.rest)
        × ((replay b req).body ≡ req.body)
        × ((replay b req).content_length ≡ declared b req.content_length)
  unfolding replay
  replay_same no_body req e = (refl, refl, refl)
  replay_same (readable c) req e = (refl, sym e, refl)
  replay_same broken req e = (refl, refl, refl)

  abbrev Ends : Option Response → Request → Link → Link × Option Response → Type 0
  Ends o req l out =
      (out.0.creds ≡ (if is_401 o then (refreshed l).0 else l.creds))
      × (out.0.sent ≡ (
          if is_401 o && succeeded (refreshed l).1
          then up.reinject (refreshed l).0.source (replay req.body req) ∷ req ∷ l.sent
          else req ∷ l.sent))
      × (out.1 ≡ (
          if is_401 o && succeeded (refreshed l).1
          then up.base (length l.sent + 1)
              (up.reinject (refreshed l).0.source (replay req.body req))
          else if is_401 o
          then some refused
          else o))

  after_401 :
      (r : World × Option RefreshError) (resp : Response) (req : Request) (l : Link)
      → refreshed l ≡ r
      → (resp.status == 401) ≡ true
      → Ends
          (some resp)
          req
          l
          (after_refresh up env now r.1 req (record { creds = r.0; sent = req ∷ l.sent }))
  unfolding after_refresh
  after_401 (w, none) resp req l e f =
      rw (e, f)
        (refl, refl, ap (λ n. up.base n (up.reinject w.source (replay req.body req))) (omega arith))
  after_401 (w, some err) resp req l e f = rw (e, f) (refl, refl, refl)

  answered :
      (o : Option Response) (req : Request) (l : Link)
      → Ends o req l
          (after_answer up env now (bearer l.creds.source) o req (record l { sent = req ∷ l.sent }))
  unfolding after_answer
  answered none req l = (refl, refl, refl)
  answered (some resp) req l = elim (Bool-cases (resp.status == 401)) [
    | inl e ↦ rw e (rw e at (after_401 (refreshed l) resp req l refl e))
    | inr e ↦ rw e (refl, refl, refl)
  ]

  nothing_sent :
      (b : Body) (req : Request) (l : Link)
      → is_broken b ≡ true
      → after_read up env now b req l ≡ (l, none)
  unfolding after_read
  nothing_sent broken req l h = refl
  nothing_sent no_body req l h = cc
  nothing_sent (readable c) req l h = cc

  not_broken : (b : Body) → is_broken b ≡ false → b ≢ broken
  not_broken broken h e = cc
  not_broken no_body h e = cc
  not_broken (readable c) h e = cc

  all_branches :
      (req : Request) (l : Link)
      → ((round_trip up env now req l).0.creds
          ≡ (if rejects req l then (refreshed l).0 else l.creds))
        × ((round_trip up env now req l).0.sent ≡ (
            if retries req l
            then up.reinject (refreshed l).0.source (replay req.body req) ∷ req ∷ l.sent
            else sent_once req l))
        × ((round_trip up env now req l).1 ≡ (
            if retries req l
            then up.base
                (length l.sent + 1)
                (up.reinject (refreshed l).0.source (replay req.body req))
            else if rejects req l
            then some refused
            else if is_broken req.body
            then none
            else first req l))
  unfolding round_trip
  all_branches req l = elim (Bool-cases (is_broken req.body)) [
    | inl e ↦ rw (nothing_sent req.body req l e, e) (refl, refl, refl)
    | inr e ↦
        rw (round_trip-after_answer req l (not_broken req.body e), e) (answered (first req l) req l)
  ]

  -- Whatever the answers: the credential is refreshed exactly if the body can be read and the first
  -- answer is a 401, and then a second request is sent exactly if the refresh succeeds. It has the
  -- line, the headers and the body of the first, with the length of that body, and is injected anew
  -- from the refreshed source, and its answer is the result. Otherwise the result is the first answer,
  -- the made-up 401 if the refresh failed, or an error with nothing sent if the body cannot be read.
  pub round_trip-retry :
      (req : Request) (l : Link)
      → (again : Request) × Retried req l again (round_trip up env now req l)
  round_trip-retry req l =
      let k = replay_same req.body req refl in
      let r = all_branches req l in (replay req.body req, (k.0, k.1, k.2, r.0, r.1, r.2))

  after_refresh-sent :
      (o : Option RefreshError) (req : Request) (l : Link)
      → length ((after_refresh up env now o req l).0.sent) ≤ length l.sent + 1
  unfolding after_refresh
  after_refresh-sent none req l = omega arith
  after_refresh-sent (some e) req l = omega arith

  after_answer-sent :
      (stale : Bytes) (o : Option Response) (req : Request) (l : Link)
      → length ((after_answer up env now stale o req l).0.sent) ≤ length l.sent + 1
  unfolding after_answer
  after_answer-sent stale none req l = omega arith
  after_answer-sent stale (some resp) req l =
      let out = refresh env stale now l.creds in
      ground (arith, after_refresh-sent (out.1) req (record l { creds = out.0 }))

  after_read-sent :
      (b : Body) (req : Request) (l : Link)
      → length ((after_read up env now b req l).0.sent) ≤ length l.sent + 2
  unfolding after_read
  after_read-sent no_body req l =
      let out = send up env now req l in
      ground (arith, after_answer-sent (bearer l.creds.source) (out.1) req (out.0))
  after_read-sent (readable b) req l =
      let out = send up env now req l in
      ground (arith, after_answer-sent (bearer l.creds.source) (out.1) req (out.0))
  after_read-sent broken req l = omega arith

  pub round_trip-sent :
      (req : Request) (l : Link) → length ((round_trip up env now req l).0.sent) ≤ length l.sent + 2
  unfolding round_trip
  round_trip-sent req l = after_read-sent req.body req l
