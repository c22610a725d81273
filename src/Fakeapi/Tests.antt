-- ===== src/Fakeapi/Tests.antt =====
-- The fake server's theorems at concrete inputs.
use runclaude.Prelude.{◌≡◌, refl, Bool, true, false, [], ◌∷◌, some, if◌then◌else◌}
use runclaude.Text.{Bytes, codes, bytes_eq}
use runclaude.Proxy.Header.{Header}
use runclaude.Inject.{inject}
use runclaude.Creds.TokenSource.{World, Environment, refresh}
use runclaude.Fakeapi.Server.{Config, oauth_token, anthropic_messages, event_stream, json_reply}
use runclaude.Fakeapi.Server.Accepts.{exchange_of, request_of, with_tokens, refresh-accepted}

abbrev cfg : Config
cfg = record {
  api_key = codes "new";
  aws_access_key = [];
  aws_secret_key = [];
  aws_session_token = [];
  aws_region = [];
  oauth_refresh_token = codes "again";
  oauth_new_refresh = [];
}

abbrev env : Environment
env = record {
  endpoint = λ p. exchange_of (oauth_token cfg (some (request_of p)));
  deadline = λ n. n;
  persists = λ p. true;
}

abbrev world : World
world = record {
  source = record {
    access_token = codes "old";
    refresh_token = codes "again";
    path = [];
    client_id = [];
    token_url = [];
    last_refresh = 0;
  };
  posts = [];
  written = [];
}

abbrev streaming : Bytes → Bool
streaming b = true

abbrev client_header : Header
client_header = (codes "X-Api-Key", codes "stolen" ∷ []) ∷ []

refresh-accepted_example :
    anthropic_messages cfg streaming
      (inject
        (with_tokens [] (codes "old") (refresh env (codes "old") 5 world).0.source false)
        (λ h. h)
        (codes "api.anthropic.com")
        client_header)
      (codes "{}")
    ≡ (if streaming (codes "{}") then event_stream else json_reply)
unfolding bytes_eq
refresh-accepted_example =
    refresh-accepted cfg env (codes "old") 5 world streaming [] (codes "old") false (λ h. h)
      client_header (codes "{}") refl refl refl refl refl (λ p. refl)
