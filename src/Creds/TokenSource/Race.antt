-- ===== src/Creds/TokenSource/Race.antt =====
-- creds/anthropic.go: two calls of `Refresh` at once. The mutex is held by `snapshot` and by `commit`, each
-- of them a step, and not while the endpoint is called between them.
use runclaude.Prelude.{ℕ, ◌≡◌, refl, true, false, ◌||◌, List, [], ◌∷◌, some, arith}
use runclaude.Text.{Bytes, bytes_eq, is_empty}
use runclaude.Creds.TokenSource.{
  TokenSource, no_refresh_token, rotated, proceed, snapshot, commit, TokenReply, reply, Post,
  Environment,
}
use runclaude.Creds.TokenSource.Refresh.{post_of}

-- where a call is: before `snapshot`, with the answer of the endpoint awaited, or at its end
pub data Phase : Type 0 where
  waiting : Bytes → Phase
  posting : Post → Phase
  finished : Phase

-- the source that both calls share, the calls of the endpoint (the latest first), and the two calls
pub record Race : Type 0 where
  pub source : TokenSource
  pub posts : List Post
  pub left : Phase
  pub right : Phase

-- One call's next step, on what it shares with the other.
pub data Advance (env : Environment) (t : TokenSource) (posts : List Post)
    : Phase → TokenSource → List Post → Phase → Type 0 where
  skips :
      (stale : Bytes)
      → snapshot stale t ≡ rotated
      → Advance env t posts (waiting stale) t posts finished
  fails :
      (stale : Bytes)
      → snapshot stale t ≡ no_refresh_token
      → Advance env t posts (waiting stale) t posts finished
  sends :
      (stale : Bytes)
      → snapshot stale t ≡ proceed t.refresh_token t.client_id t.token_url
      → Advance env t posts (waiting stale) t (post_of t ∷ posts) (posting (post_of t))
  commits :
      (p : Post) (r : TokenReply) (now : ℕ)
      → env.endpoint p ≡ reply 200 (some r)
      → is_empty r.access_token ≡ false
      → Advance env t posts (posting p) (commit r.access_token r.refresh_token now t) posts finished
  gives_up : (p : Post) → Advance env t posts (posting p) t posts finished

-- The steps of both calls, in any order.
pub data Run (env : Environment) (from : Race) : Race → Type 0 where
  here : Run env from from
  left_step :
      {r : Race} {t : TokenSource} {ps : List Post} {ph : Phase}
      → Run env from r
      → Advance env r.source r.posts r.left t ps ph
      → Run env from (record { source = t; posts = ps; left = ph; right = r.right })
  right_step :
      {r : Race} {t : TokenSource} {ps : List Post} {ph : Phase}
      → Run env from r
      → Advance env r.source r.posts r.right t ps ph
      → Run env from (record { source = t; posts = ps; left = r.left; right = ph })

-- both calls at their start, for the same stale bearer
abbrev pub start : Bytes → TokenSource → Race
start stale t = record { source = t; posts = []; left = waiting stale; right = waiting stale }

snapshot-proceed :
    (stale : Bytes) (t : TokenSource)
    → is_empty t.refresh_token ≡ false
    → (is_empty stale || bytes_eq stale t.access_token) ≡ true
    → snapshot stale t ≡ proceed t.refresh_token t.client_id t.token_url
unfolding snapshot
snapshot-proceed stale t has same = ground (arith, has, same)

-- Two calls of `Refresh` at once can both call the endpoint: for a source with a refresh token, a
-- stale bearer that is empty or the current access token, and an endpoint that grants the source's
-- call, some order of their steps ends with both finished and the same call made twice.
pub Run-posts :
    (env : Environment) (stale : Bytes) (now : ℕ) (t : TokenSource) (r : TokenReply)
    → is_empty t.refresh_token ≡ false
    → (is_empty stale || bytes_eq stale t.access_token) ≡ true
    → env.endpoint (post_of t) ≡ reply 200 (some r)
    → is_empty r.access_token ≡ false
    → (e : Race) × Run env (start stale t) e
      × (e.posts ≡ post_of t ∷ post_of t ∷ [])
      × (e.left ≡ finished)
      × (e.right ≡ finished)
Run-posts env stale now t r has same grants filled =
    let p = post_of t in
    let both = p ∷ p ∷ [] in
    let renewed = commit r.access_token r.refresh_token now t in
    let go = snapshot-proceed stale t has same in
    let one : Run env (start stale t)
        (record { source = t; posts = p ∷ []; left = posting p; right = waiting stale }) =
      left_step here (sends stale go) in
    let two : Run env (start stale t)
        (record { source = t; posts = both; left = posting p; right = posting p }) =
      right_step one (sends stale go) in
    let three : Run env (start stale t)
        (record { source = renewed; posts = both; left = finished; right = posting p }) =
      left_step two (commits p r now grants filled) in
    let four : Run env (start stale t) (record {
      source = commit r.access_token r.refresh_token now renewed;
      posts = both;
      left = finished;
      right = finished;
    }) =
      right_step three (commits p r now grants filled) in
    (_, four, refl, refl, refl)

Advance-refresh_token :
    {env : Environment} {t u : TokenSource} {ps qs : List Post} {ph qh : Phase}
    → Advance env t ps ph u qs qh
    → is_empty t.refresh_token ≡ false
    → is_empty u.refresh_token ≡ false
unfolding commit
Advance-refresh_token (skips stale e) h = h
Advance-refresh_token (fails stale e) h = h
Advance-refresh_token (sends stale e) h = h
Advance-refresh_token (commits p r now e f) h = ground (arith, h)
Advance-refresh_token (gives_up p) h = h

-- No order of the steps of two calls loses the refresh token.
pub Run-refresh_token :
    {env : Environment} {from e : Race}
    → Run env from e
    → is_empty from.source.refresh_token ≡ false
    → is_empty e.source.refresh_token ≡ false
Run-refresh_token here h = h
Run-refresh_token (left_step r a) h = Advance-refresh_token a (Run-refresh_token r h)
Run-refresh_token (right_step r a) h = Advance-refresh_token a (Run-refresh_token r h)
