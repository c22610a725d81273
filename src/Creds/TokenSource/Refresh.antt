-- ===== src/Creds/TokenSource/Refresh.antt =====
-- creds/anthropic.go, `Refresh`: which calls of the token endpoint are made, and what they leave.
use runclaude.Prelude.{
  ◌≡◌, refl, ◌≢◌, ℕ, true, false, ◌||◌, ◌∷◌, Option, none, some, if◌then◌else◌, arith,
}
use runclaude.Text.{Bytes, bytes_eq, is_empty}
use runclaude.Text.Equality.{bytes_eq_iff}
use runclaude.Creds.TokenSource.{
  TokenSource, Snapshot, no_refresh_token, rotated, proceed, snapshot, commit, TokenReply, Exchange,
  unreachable, reply, RefreshError, write_failed, Post, World, Environment, settle, refresh_from,
  refresh,
}

-- the call that a source makes
abbrev pub post_of : TokenSource → Post
post_of t = record {
  refresh_token = t.refresh_token;
  client_id = t.client_id;
  token_url = t.token_url;
}

-- a usable reply
pub data Grants (r : TokenReply) : Exchange → Type 0 where
  granted : is_empty r.access_token ≡ false → Grants r (reply 200 (some r))

module _ (env : Environment) (stale : Bytes) (now : ℕ) (w : World) where
  pub refresh-rotated :
      is_empty (w.source.refresh_token) ≡ false
      → is_empty stale ≡ false
      → stale ≢ w.source.access_token
      → refresh env stale now w ≡ (w, none)
  unfolding refresh refresh_from snapshot
  refresh-rotated has ne other =
      ground (arith, has, ne, other, bytes_eq_iff stale (w.source.access_token))

  refresh-settle :
      is_empty (w.source.refresh_token) ≡ false
      → (is_empty stale || bytes_eq stale (w.source.access_token)) ≡ true
      → refresh env stale now w
        ≡ settle env
            (env.endpoint (post_of (w.source)))
            now
            (record w { posts = post_of (w.source) ∷ w.posts })
  unfolding refresh refresh_from snapshot
  refresh-settle has same = ground (arith, has, same)

-- the source that a grant leaves
abbrev pub renewed : TokenReply → ℕ → TokenSource → TokenSource
renewed r now t = record t {
  access_token = r.access_token;
  refresh_token = if is_empty r.refresh_token then t.refresh_token else r.refresh_token;
  last_refresh = now;
}

module _ (env : Environment) (stale : Bytes) (now : ℕ) (w : World) where
  -- Where there is a refresh token, the stale bearer is empty or the current access token, and the
  -- endpoint answers 200 with an access token, `Refresh` makes one call, with the source's own
  -- refresh token, client and URL. The source then has the new access token and the new refresh
  -- token, or the old one if none came; the result is nil unless there is a path and writing it
  -- fails.
  pub refresh-grant :
      (r : TokenReply)
      → is_empty (w.source.refresh_token) ≡ false
      → (is_empty stale || bytes_eq stale (w.source.access_token)) ≡ true
      → env.endpoint (post_of (w.source)) ≡ reply 200 (some r)
      → is_empty r.access_token ≡ false
      → ((refresh env stale now w).0.source ≡ renewed r now (w.source))
        × ((refresh env stale now w).0.posts ≡ post_of (w.source) ∷ w.posts)
        × ((refresh env stale now w).1 ≡ (
            if is_empty (w.source.path) || env.persists (w.source.path)
            then none
            else some write_failed))
  unfolding settle commit
  refresh-grant r has same grants nonempty =
      rw (refresh-settle env stale now w has same) (rw grants (ground (arith, nonempty)))

  -- Where there is a refresh token and the stale bearer is the current access token and not empty,
  -- and the endpoint grants another access token, a second `Refresh` for the same stale bearer, at
  -- any later or earlier time, makes no call, changes nothing and returns nil.
  pub refresh-single :
      (r : TokenReply) (later : ℕ)
      → is_empty (w.source.refresh_token) ≡ false
      → is_empty stale ≡ false
      → stale ≡ w.source.access_token
      → env.endpoint (post_of (w.source)) ≡ reply 200 (some r)
      → is_empty r.access_token ≡ false
      → stale ≢ r.access_token
      → refresh env stale later ((refresh env stale now w).0) ≡ ((refresh env stale now w).0, none)
  refresh-single r later has filled same grants nonempty other =
      let done =
        refresh-grant r has
          (ground (arith, filled, bytes_eq_iff stale (w.source.access_token), same)) grants
          nonempty in
      refresh-rotated env stale later ((refresh env stale now w).0)
        (rw (done.0) (ground (arith, has))) filled (rw (done.0) other)

-- an error other than a failed write leaves the source and the files alone
abbrev Intact : World → World × Option RefreshError → Type 0
Intact w out =
    (e : RefreshError)
    → out.1 ≡ some e
    → e ≢ write_failed
    → (out.0.source ≡ w.source) × (out.0.written ≡ w.written)

module _ (env : Environment) (now : ℕ) where
  settle-Intact : (x : Exchange) (w : World) → Intact w (settle env x now w)
  unfolding settle
  settle-Intact unreachable w e is other = (refl, refl)
  settle-Intact (reply status none) w e is other = (refl, refl)
  settle-Intact (reply status (some r)) w e is other = ground (arith, is, other)

  refresh_from-Intact : (s : Snapshot) (w : World) → Intact w (refresh_from env s now w)
  unfolding refresh_from
  refresh_from-Intact no_refresh_token w e is other = (refl, refl)
  refresh_from-Intact rotated w e is other = (refl, refl)
  refresh_from-Intact (proceed rt client_id url) w e is other =
      let post : Post = record { refresh_token = rt; client_id = client_id; token_url = url } in
      settle-Intact (env.endpoint post) (record w { posts = post ∷ w.posts }) e is other

  -- Where `Refresh` ends with an error other than that of writing the file, the source is what it
  -- was, and no file was written.
  pub refresh-error :
      (stale : Bytes) (w : World) (e : RefreshError)
      → (refresh env stale now w).1 ≡ some e
      → e ≢ write_failed
      → ((refresh env stale now w).0.source ≡ w.source)
        × ((refresh env stale now w).0.written ≡ w.written)
  unfolding refresh
  refresh-error stale w = refresh_from-Intact (snapshot stale (w.source)) w
