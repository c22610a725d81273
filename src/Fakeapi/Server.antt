-- ===== src/Fakeapi/Server.antt =====
-- fakeapi/fake.go: the API server that tests are run against. The JSON codec, the clock's format and
-- the signer are parameters; what is written on success is named, not spelled out.
pub mod Accepts
use runclaude.Prelude.{
  ℕ, Bool, true, false, not, ◌&&◌, ◌||◌, List, [], ◌∷◌, ◌++◌, Option, none, some, if◌then◌else◌,
}
use runclaude.Text.{Bytes, codes, bytes_eq, has_prefix, has_suffix, trim_prefix, is_empty}
use runclaude.Proxy.Header.{Header, get_header, del_header}

-- `Config`, without its logger
pub record Config : Type 0 where
  pub api_key : Bytes
  pub aws_access_key : Bytes
  pub aws_secret_key : Bytes
  pub aws_session_token : Bytes
  pub aws_region : Bytes
  pub oauth_refresh_token : Bytes
  pub oauth_new_refresh : Bytes

-- the JSON of a grant
pub record Grant : Type 0 where
  pub access_token : Bytes
  pub refresh_token : Bytes
  pub expires_in : ℕ

-- what is answered: an error with its status, `writeAnthropicJSON` or `writeBedrockJSON`, the two
-- streams, a grant, or the body of `catchAllBody`
pub data Answer : Type 0 where
  http_error : ℕ → Answer
  json_reply : Answer
  event_stream : Answer
  bedrock_stream : Answer
  granted : Grant → Answer
  body : Bytes → Answer

-- `catchAllBody(path)`
unfoldable pub catch_all_body : Bytes → Bytes
catch_all_body path =
    if has_prefix path (codes "/mcp-registry/")
    then codes "{\"servers\":[]}"
    else if has_prefix path (codes "/api/oauth/profile") || has_prefix path (codes "/api/account")
    then codes
        "{\"uuid\":\"fake-uuid\",\"email_address\":\"fake@example.com\",\"full_name\":\"Fake User\",\"organization\":{\"uuid\":\"fake-org\",\"name\":\"Fake Org\"}}"
    else if has_prefix path (codes "/api/organizations")
    then codes "[{\"uuid\":\"fake-org\",\"name\":\"Fake Org\"}]"
    else codes "{\"ok\":true}"

-- `got`: the key of a request, in either header
unfoldable pub presented_key : Header → Bytes
unfolding get_header has_prefix trim_prefix
presented_key h =
    let key = get_header (codes "x-api-key") h in
    let authorization = get_header (codes "Authorization") h in
    if not (is_empty key)
    then key
    else if has_prefix authorization (codes "Bearer ")
    then trim_prefix authorization (codes "Bearer ")
    else []

-- `anthropicMessages(cfg)`; `streaming` is `bodyIsStreaming` of the body
unfoldable pub anthropic_messages : Config → (Bytes → Bool) → Header → Bytes → Answer
unfolding presented_key bytes_eq
anthropic_messages cfg streaming h request =
    if is_empty cfg.api_key
    then http_error 500
    else if not (bytes_eq (presented_key h) cfg.api_key)
    then http_error 401
    else if streaming request
    then event_stream
    else json_reply

-- the fields of the request that `oauthToken` decodes
pub record TokenRequest : Type 0 where
  pub grant_type : Bytes
  pub refresh_token : Bytes
  pub client_id : Bytes

abbrev pub grant_for : Config → TokenRequest → Answer
grant_for cfg req =
    if not (bytes_eq req.grant_type (codes "refresh_token"))
      || not (bytes_eq req.refresh_token cfg.oauth_refresh_token)
    then http_error 401
    else granted (record {
      access_token = cfg.api_key;
      refresh_token =
          if is_empty cfg.oauth_new_refresh then cfg.oauth_refresh_token else cfg.oauth_new_refresh;
      expires_in = 28800;
    })

abbrev pub decoded_grant : Config → Option TokenRequest → Answer
decoded_grant cfg none = http_error 400
decoded_grant cfg (some req) = grant_for cfg req

-- `oauthToken(cfg)`, on what the body decodes to
unfoldable pub oauth_token : Config → Option TokenRequest → Answer
oauth_token cfg req =
    if is_empty cfg.oauth_refresh_token then http_error 404 else decoded_grant cfg req

-- `parse_time` reads the date header; `sign` gives the headers of the request signed at that time with
-- the configured key, `none` for an error
module _ (parse_time : Bytes → Option ℕ) (sign : ℕ → Header → Bytes → Option Header) where
  abbrev pub same_authorization : Bytes → Option Header → Bool
  same_authorization auth none = false
  same_authorization auth (some signed) = bytes_eq (get_header (codes "Authorization") signed) auth

  abbrev pub verify_at : Bytes → Header → Bytes → Option ℕ → Bool
  verify_at auth h request none = false
  verify_at auth h request (some t) = same_authorization auth (
      sign t (del_header (codes "X-Amz-Content-Sha256") (del_header (codes "Authorization") h))
        request)

  -- `verifySigV4` returns nil
  unfoldable pub verify_sig_v4 : Header → Bytes → Bool
  verify_sig_v4 h request =
      let auth = get_header (codes "Authorization") h in
      let date = get_header (codes "X-Amz-Date") h in
      not (is_empty auth || is_empty date) && verify_at auth h request (parse_time date)

  -- `bedrockInvoke(cfg)`
  unfoldable pub bedrock_invoke : Config → Bytes → Header → Bytes → Answer
  bedrock_invoke cfg path h request =
      if is_empty cfg.aws_secret_key
      then http_error 500
      else if not (verify_sig_v4 h request)
      then http_error 403
      else if has_suffix path (codes "/invoke-with-response-stream")
      then bedrock_stream
      else json_reply

  -- `Handler(cfg)`: the route of a path
  unfoldable pub handle :
      Config → (Bytes → Bool) → (Bytes → Option TokenRequest) → Bytes → Header → Bytes → Answer
  handle cfg streaming decode path h request =
      if bytes_eq path (codes "/v1/messages")
      then anthropic_messages cfg streaming h request
      else if bytes_eq path (codes "/v1/oauth/token")
      then oauth_token cfg (decode request)
      else if has_prefix path (codes "/model/")
      then bedrock_invoke cfg path h request
      else body (catch_all_body path)
