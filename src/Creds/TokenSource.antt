-- ===== src/Creds/TokenSource.antt =====
-- creds/anthropic.go: the live OAuth credential. `snapshot` and `commit` are one step each, as under
-- `mu`. The token endpoint and the file system are parameters.
pub mod Refresh
pub mod Redact
pub mod Race
use runclaude.Prelude.{
  ◌||◌, ℕ, ◌+◌, Bool, true, false, not, ◌&&◌, List, [], ◌∷◌, ◌++◌, Option, none, some, ltb, leb,
  ◌==◌, if◌then◌else◌, length, take,
}
use runclaude.Bits.{is_pos_int64}
use runclaude.Text.{contains, to_lower, Bytes, codes, bytes_eq, is_empty}

-- the UTF-8 bytes of the ellipsis
abbrev pub ellipsis : Bytes
ellipsis = 0xe2 ∷ 0x80 ∷ 0xa6 ∷ []

-- `redactToken(tok)`; `decimal` prints a number
unfoldable pub redact_token : (ℕ → Bytes) → Bytes → Bytes
redact_token decimal tok =
    if is_empty tok
    then codes "<empty>"
    else if ltb 8 (length tok)
    then take 8 tok ++ (ellipsis ++ (codes "(len=" ++ (decimal (length tok) ++ codes ")")))
    else ellipsis ++ (codes "(len=" ++ (decimal (length tok) ++ codes ")"))

-- `truncate(s, n)`
unfoldable pub truncate : Bytes → ℕ → Bytes
truncate s n = if leb (length s) n then s else take n s ++ (ellipsis ++ codes "(truncated)")

-- `isMostlyPrintable(s)`: a rune below 0x20, or 0x7f, is one byte
unfoldable pub is_mostly_printable : Bytes → Bool
is_mostly_printable [] = true
is_mostly_printable (r ∷ s) =
    let rest = is_mostly_printable s in
    if r == 9 || r == 10 || r == 13 then rest else if ltb r 32 || r == 127 then false else rest

abbrev pub gzip_magic : Bytes → Bool
gzip_magic (a ∷ b ∷ s) = a == 0x1f && b == 0x8b
gzip_magic _ = false

abbrev pub unzipped_or : Bytes → Option Bytes → Bytes
unzipped_or body none = body
unzipped_or body (some dec) = dec

-- `logBody(body, contentEncoding)`; `gunzip` reads a gzip stream to its end, `quote` is `strconv.Quote`
unfoldable pub log_body : (Bytes → Option Bytes) → (Bytes → Bytes) → Bytes → Bytes → Bytes
unfolding contains to_lower is_mostly_printable
log_body gunzip quote body content_encoding =
    let zipped = contains (to_lower content_encoding) (codes "gzip") || gzip_magic body in
    let s = if zipped then unzipped_or body (gunzip body) else body in
    if is_mostly_printable s then s else quote s

-- `TokenSource`, without its client and logger
pub record TokenSource : Type 0 where
  pub access_token : Bytes
  pub refresh_token : Bytes
  pub path : Bytes
  pub client_id : Bytes
  pub token_url : Bytes
  pub last_refresh : ℕ

-- `NewTokenSource(accessToken, refreshToken, path, logger)`, with the two environment variables
unfoldable pub new_token_source : Bytes → Bytes → Bytes → Bytes → Bytes → TokenSource
new_token_source env_client_id env_token_url access refresh path = record {
  access_token = access;
  refresh_token = refresh;
  path = path;
  client_id =
      if is_empty env_client_id
      then codes "9d1c250a-e61b-44d9-88ed-5944d1962f5e"
      else env_client_id;
  token_url =
      if is_empty env_token_url
      then codes "https://console.anthropic.com/v1/oauth/token"
      else env_token_url;
  last_refresh = 0;
}

-- `Bearer()`
abbrev pub bearer : TokenSource → Bytes
bearer t = t.access_token

-- the results of `snapshot`
pub data Snapshot : Type 0 where
  no_refresh_token : Snapshot
  rotated : Snapshot
  proceed : Bytes → Bytes → Bytes → Snapshot

-- `snapshot(staleBearer)`
unfoldable pub snapshot : Bytes → TokenSource → Snapshot
snapshot stale t =
    if is_empty t.refresh_token
    then no_refresh_token
    else if not (is_empty stale) && not (bytes_eq stale t.access_token)
    then rotated
    else proceed t.refresh_token t.client_id t.token_url

-- `commit(newAccess, newRefresh, …)` at the time `now`: the source after it
unfoldable pub commit : Bytes → Bytes → ℕ → TokenSource → TokenSource
commit new_access new_refresh now t = record t {
  access_token = new_access;
  refresh_token = if is_empty new_refresh then t.refresh_token else new_refresh;
  last_refresh = now;
}

-- the body of a response of the token endpoint
pub record TokenReply : Type 0 where
  pub access_token : Bytes
  pub refresh_token : Bytes
  pub expires_in : ℕ

-- What the endpoint answers: nothing, also where no request can be made for the URL, or a status and a
-- body that may not be the JSON expected.
pub data Exchange : Type 0 where
  unreachable : Exchange
  reply : ℕ → Option TokenReply → Exchange

pub data RefreshError : Type 0 where
  no_refresh request_failed bad_status unparsable empty_access_token write_failed : RefreshError

-- A call of the endpoint: the refresh token, the client and the URL.
pub record Post : Type 0 where
  pub refresh_token : Bytes
  pub client_id : Bytes
  pub token_url : Bytes

-- The credential, the calls of the endpoint made so far (the latest first), and the files written.
pub record World : Type 0 where
  pub source : TokenSource
  pub posts : List Post
  pub written : List (Bytes × Bytes × Bytes × ℕ)

-- `endpoint` answers a call, `deadline` is the time in milliseconds at which a positive `expires_in`
-- runs out, `persists` tells whether `writeCredentialsFile` returns nil.
pub record Environment : Type 0 where
  pub endpoint : Post → Exchange
  pub deadline : ℕ → ℕ
  pub persists : Bytes → Bool

module _ (env : Environment) where
  abbrev expires_at : ℕ → ℕ
  expires_at expires_in = if is_pos_int64 expires_in then env.deadline expires_in else 0

  -- the end of `Refresh`, on the source that `commit` left
  abbrev persist : TokenSource → ℕ → World → World × Option RefreshError
  persist t expires w =
      if is_empty t.path
      then (record w { source = t }, none)
      else if env.persists t.path
      then (
        record w {
          source = t;
          written = (t.path, t.access_token, t.refresh_token, expires) ∷ w.written;
        },
        none,
      )
      else (record w { source = t }, some write_failed)

  unfoldable settle : Exchange → ℕ → World → World × Option RefreshError
  settle unreachable now w = (w, some request_failed)
  settle (reply status none) now w = (w, some (if status == 200 then unparsable else bad_status))
  settle (reply status (some r)) now w =
      if not (status == 200)
      then (w, some bad_status)
      else if is_empty r.access_token
      then (w, some empty_access_token)
      else persist (commit r.access_token r.refresh_token now w.source) (expires_at r.expires_in) w

  unfoldable refresh_from : Snapshot → ℕ → World → World × Option RefreshError
  unfolding settle
  refresh_from no_refresh_token now w = (w, some no_refresh)
  refresh_from rotated now w = (w, none)
  refresh_from (proceed rt client_id url) now w =
      let post : Post = record { refresh_token = rt; client_id = client_id; token_url = url } in
      settle (env.endpoint post) now (record w { posts = post ∷ w.posts })

  -- `Refresh(ctx, staleBearer)` at the time `now`; `none` is the error nil
  unfoldable pub refresh : Bytes → ℕ → World → World × Option RefreshError
  unfolding refresh_from snapshot commit
  refresh stale now w = refresh_from (snapshot stale w.source) now w
