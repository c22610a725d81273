-- ===== src/Fakeapi/Server/Accepts.antt =====
-- fakeapi/fake.go with main.go and creds/anthropic.go: the requests that the proxy makes, at the server.
use runclaude.Prelude.{
  ◌≡◌, ap, ◌∙◌, ℕ, Bool, true, false, ◌||◌, [], ◌∷◌, Option, none, some, arith, if◌then◌else◌,
}
use runclaude.Text.{Bytes, codes, bytes_eq, is_empty}
use runclaude.Text.Equality.{bytes_eq_iff, bytes_eq_refl}
use runclaude.Dict.{lookup}
use runclaude.Proxy.Header.{Header, canonical}
use runclaude.Inject.{Secrets, inject_anthropic, inject}
use runclaude.Inject.Single.{token_of, authorization, api_key_header, lookup-inject_anthropic}
use runclaude.Creds.TokenSource.{TokenSource, World, Environment, Post, Exchange, reply, refresh}
use runclaude.Creds.TokenSource.Refresh.{post_of, refresh-grant}
use runclaude.Fakeapi.Server.{
  Config, Answer, http_error, json_reply, event_stream, granted, TokenRequest, presented_key,
  anthropic_messages, oauth_token,
}

abbrev pub key_or : Bytes → Option Bytes → Bytes
key_or key none = key
key_or key (some t) = t

presented_key-or :
    (key : Bytes) (o : Option Bytes) (h : Header)
    → lookup (codes "Authorization") h ≡ authorization o
    → lookup (codes "X-Api-Key") h ≡ api_key_header key o
    → presented_key h ≡ key_or key o
unfolding presented_key canonical bytes_eq
presented_key-or [] none h a k = rw (a, k)
presented_key-or (c ∷ key) none h a k = rw k
presented_key-or key (some t) h a k = rw (a, k)

presented_key-injected :
    (s : Secrets) (h : Header)
    → presented_key (inject_anthropic s h) ≡ key_or s.api_key (token_of s)
presented_key-injected s h =
    let sent = lookup-inject_anthropic s h in
    presented_key-or s.api_key (token_of s) (inject_anthropic s h) sent.0 sent.1

-- A request that the proxy injects is accepted exactly if the injected credential is the server's
-- key.
pub anthropic_messages-injected :
    (cfg : Config) (streaming : Bytes → Bool) (s : Secrets) (h : Header) (request : Bytes)
    → is_empty cfg.api_key ≡ false
    → anthropic_messages cfg streaming (inject_anthropic s h) request ≡ (
        if bytes_eq (key_or s.api_key (token_of s)) cfg.api_key
        then (if streaming request then event_stream else json_reply)
        else http_error 401)
unfolding anthropic_messages
anthropic_messages-injected cfg streaming s h request filled =
    ground (arith, presented_key-injected s h)

-- the endpoint that the server is for `Refresh`
abbrev pub exchange_of : Answer → Exchange
exchange_of (granted g) = reply 200 (
    some (record {
      access_token = g.access_token;
      refresh_token = g.refresh_token;
      expires_in = g.expires_in;
    }))
exchange_of (http_error status) = reply status none
exchange_of _ = reply 200 none

-- what `Refresh` posts
abbrev pub request_of : Post → TokenRequest
request_of p = record {
  grant_type = codes "refresh_token";
  refresh_token = p.refresh_token;
  client_id = p.client_id;
}

oauth_token-grants :
    (cfg : Config) (p : Post)
    → is_empty cfg.oauth_refresh_token ≡ false
    → p.refresh_token ≡ cfg.oauth_refresh_token
    → exchange_of (oauth_token cfg (some (request_of p)))
      ≡ reply 200 (
          some (record {
            access_token = cfg.api_key;
            refresh_token =
                if is_empty cfg.oauth_new_refresh
                then cfg.oauth_refresh_token
                else cfg.oauth_new_refresh;
            expires_in = 28800;
          }))
unfolding oauth_token bytes_eq
oauth_token-grants cfg p filled same =
    rw filled (ground (arith, same, bytes_eq_refl cfg.oauth_refresh_token))

-- what the closure of main.go holds where there is a bearer and a token source for it
abbrev pub with_tokens : Bytes → Bytes → TokenSource → Bool → Secrets
with_tokens key bearer_token t has_aws = record {
  api_key = key;
  bearer_token = bearer_token;
  tokens = some t;
  has_aws = has_aws;
}

inject-api :
    (s : Secrets) (bedrock : Header → Header) (h : Header)
    → is_empty s.bearer_token ≡ false
    → inject s bedrock (codes "api.anthropic.com") h ≡ inject_anthropic s h
unfolding inject
inject-api s bedrock h filled = ground (arith, filled, bytes_eq_refl (codes "api.anthropic.com"))

-- a source with the right access token
source-accepted :
    (cfg : Config) (streaming : Bytes → Bool) (t : TokenSource) (key bearer_token : Bytes)
    (has_aws : Bool) (bedrock : Header → Header) (h : Header) (request : Bytes)
    → is_empty cfg.api_key ≡ false
    → is_empty bearer_token ≡ false
    → t.access_token ≡ cfg.api_key
    → anthropic_messages cfg streaming
        (inject (with_tokens key bearer_token t has_aws) bedrock (codes "api.anthropic.com") h)
        request
      ≡ (if streaming request then event_stream else json_reply)
source-accepted cfg streaming t key bearer_token has_aws bedrock h request filled some_bearer same =
    ap (λ (g : Header). anthropic_messages cfg streaming g request)
      (inject-api (with_tokens key bearer_token t has_aws) bedrock h some_bearer)
    ∙ (anthropic_messages-injected cfg streaming (with_tokens key bearer_token t has_aws) h request
          filled
        ∙ rw ((bytes_eq_iff t.access_token cfg.api_key).1 same))

-- Against the fake server, for a proxy with a bearer and a token source, as main.go makes it, where the
-- source has the server's refresh token and the stale bearer is empty or the current access token:
-- after one `Refresh`, a request to api.anthropic.com that `setup.Inject` has rewritten is accepted,
-- whatever credentials the client sent.
pub refresh-accepted :
    (cfg : Config) (env : Environment) (stale : Bytes) (now : ℕ) (w : World)
    (streaming : Bytes → Bool) (key bearer_token : Bytes) (has_aws : Bool)
    (bedrock : Header → Header) (h : Header) (request : Bytes)
    → is_empty cfg.api_key ≡ false
    → is_empty cfg.oauth_refresh_token ≡ false
    → is_empty bearer_token ≡ false
    → w.source.refresh_token ≡ cfg.oauth_refresh_token
    → (is_empty stale || bytes_eq stale w.source.access_token) ≡ true
    → ((p : Post) → env.endpoint p ≡ exchange_of (oauth_token cfg (some (request_of p))))
    → anthropic_messages cfg streaming
        (inject
          (with_tokens key bearer_token (refresh env stale now w).0.source has_aws)
          bedrock
          (codes "api.anthropic.com")
          h)
        request
      ≡ (if streaming request then event_stream else json_reply)
refresh-accepted cfg env stale now w streaming key bearer_token has_aws bedrock h request filled
      token some_bearer same stale_is endpoint =
    let post = post_of w.source in
    let grant =
      refresh-grant env stale now w _ (ap is_empty same ∙ token) stale_is
        (endpoint post ∙ oauth_token-grants cfg post token same) filled in
    source-accepted cfg streaming (refresh env stale now w).0.source key bearer_token has_aws
      bedrock h request filled some_bearer (ap (λ (t : TokenSource). t.access_token) grant.0)
