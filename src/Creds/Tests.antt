-- ===== src/Creds/Tests.antt =====
-- The refresh of tokens and the retry of requests at concrete inputs.
use runclaude.Prelude.{◌++◌, ℕ, ◌≡◌, refl, true, false, [], ◌∷◌, Option, none, some}
use runclaude.Dict.{Dict}
use runclaude.Json.{Json}
use runclaude.Text.{Bytes, codes, bytes_eq}
use runclaude.Creds.TokenSource.{
  TokenSource, new_token_source, TokenReply, unreachable, reply, World, Environment, refresh,
}
use runclaude.Creds.TokenSource.Refresh.{post_of, refresh-single}
use runclaude.Creds.Load.{AnthropicCredentials, Parsed, load_anthropic_credentials}
use runclaude.Creds.TokenSource.Race.{Race, Run, start, finished, Run-posts}
use runclaude.Creds.Transport.{readable, Request, Response, Link, Upstream, round_trip}
use runclaude.Creds.Transport.Retry.{Retried, round_trip-retry}
use runclaude.Creds.File.{Disk, Calls, update_credentials, write_credentials_file}
use runclaude.Creds.File.Update.{After, write_credentials_file-Atomic}

abbrev old : Bytes
old = 1 ∷ []

abbrev fresh : Bytes
fresh = 2 ∷ []

abbrev source : TokenSource
source = new_token_source [] [] old (codes "again") []

abbrev world : World
world = record { source = source; posts = []; written = [] }

abbrev granted : TokenReply
granted = record { access_token = fresh; refresh_token = []; expires_in = 60 }

abbrev env : Environment
env = record { endpoint = λ p. reply 200 (some granted); deadline = λ n. n; persists = λ p. true }

abbrev offline : Environment
offline = record { endpoint = λ p. unreachable; deadline = λ n. n; persists = λ p. true }

refresh-single_example :
    refresh env old 6 (refresh env old 5 world).0 ≡ ((refresh env old 5 world).0, none)
unfolding new_token_source
refresh-single_example = refresh-single env old 5 world granted 6 refl refl refl refl refl (λ e. cc)

abbrev request : Request
request = record { rest = []; body = readable (1 ∷ 2 ∷ []); content_length = 2 }

abbrev denied : Response
denied = record { status = 401; header = []; body = [] }

abbrev upstream : Upstream
upstream = record { base = λ n r. some denied; reinject = λ t r. r }

abbrev link : Link
link = record { creds = world; sent = [] }

abbrev after : World
after = (refresh env old 5 world).0

round_trip-retry_example :
    (again : Request) × Retried upstream env 5 request link again
      (round_trip upstream env 5 request link)
round_trip-retry_example = round_trip-retry upstream env 5 request link

abbrev disk : Disk
disk = record { file = some (codes "{}"); temporary = none }

abbrev fine : Calls
fine = record {
  creates = true;
  writes = true;
  chmods = true;
  closes = true;
  renames = true;
  removes = true;
  partial = [];
}

abbrev no_space : Calls
no_space = record {
  creates = true;
  writes = false;
  chmods = true;
  closes = true;
  renames = true;
  removes = false;
  partial = codes "{";
}

abbrev decimal : ℕ → Bytes
decimal n = n ∷ []

-- a codec for one map
abbrev one_map : Dict Json
one_map = update_credentials decimal fresh [] 9 []

abbrev decode : Bytes → Option (Dict Json)
decode [] = some one_map
decode (c ∷ s) = none

abbrev encode : Dict Json → Bytes
encode m = []

write_credentials_file-Atomic_example :
    After decimal decode encode no_space fresh [] 9 disk
      (write_credentials_file decimal decode encode no_space fresh [] 9 disk)
write_credentials_file-Atomic_example =
    write_credentials_file-Atomic decimal decode encode no_space fresh [] 9 disk refl

abbrev access_key : Bytes
access_key = codes "accessToken"

abbrev parsed : Parsed
parsed = record { access_token = fresh; refresh_token = old; api_key = [] }

abbrev loaded : AnthropicCredentials
loaded = record {
  api_key = [];
  bearer = fresh;
  refresh_token = old;
  path = codes "/h" ++ codes "/.claude/.credentials.json";
}

load_run :
    load_anthropic_credentials (λ p. some []) (λ b. some parsed) (codes "/h") [] ≡ some loaded
unfolding load_anthropic_credentials
load_run = refl

Run-posts_example :
    (e : Race) × Run env (start old source) e
    × (e.posts ≡ post_of source ∷ post_of source ∷ [])
    × (e.left ≡ finished)
    × (e.right ≡ finished)
unfolding new_token_source bytes_eq
Run-posts_example = Run-posts env old 5 source granted refl refl refl refl
