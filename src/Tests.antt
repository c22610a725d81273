-- ===== src/Tests.antt =====
-- The sandbox's set-up at concrete inputs.
mod Gitconfigs
mod Projects
use runclaude.Prelude.{
  ◌≡◌, refl, ◌↔◌, true, false, ◌||◌, List, [], ◌∷◌, none, some, if◌then◌else◌, arith, length, All,
}
use runclaude.Dict.{insert, delete, has_key, Dict, lookup, or_lookup}
use runclaude.Json.{as_map, Json, str, null, object}
use runclaude.Text.{
  Bytes, codes, bytes_eq, member, split, trim_space, trim_left, trim_right, has_byte,
}
use runclaude.Binds.{Bind, dedup_binds}
use runclaude.Binds.Last.{first_at, last_at, first_at-dedup_binds}
use runclaude.Claudemerge.{merge_settings}
use runclaude.Claudemerge.Layers.{merge_settings-Scrubbed, lookup-merge_settings}
use runclaude.Claudesettings.{strip_keys, strip_env, sanitize_settings, settings_has_aws}
use runclaude.Claudesettings.Scrub.{sanitize_settings-Scrubbed, Scrubbed, sanitize_settings-has_aws}
use runclaude.Containment.{prots_of, containment_leak, live_entry}
use runclaude.Containment.Sound.{Harmless, containment_leak_iff}
use runclaude.Environ.{aws_env_skip, scrub_aws_creds}
use runclaude.Environ.Scrubbed.{entries_of, entries_of-scrub_aws_creds}
use runclaude.Inject.{Secrets, inject_anthropic}
use runclaude.Inject.Single.{token_of, authorization, api_key_header, lookup-inject_anthropic}
use runclaude.Mountinfo.{pos, MountEntry, unescape_octal, trim_slashes, path_contains}
use runclaude.Mountinfo.Escape.{escape, unescape_octal-escape}
use runclaude.Mountinfo.Paths.{Below, path_contains_iff}
use runclaude.Proxy.Header.{Header}
use runclaude.Session.{
  SessionInfo, DirEntry, live_sessions, approvable, run_approve, failed_posts, failed_at,
}
use runclaude.Session.Live.{IsLive, live_sessions-IsLive, run_approve-approved}
use runclaude.Vcs.{any_line, exclude_copy}
use runclaude.Vcs.Exclude.{exclude_copy-any_line}

abbrev secrets : Secrets
secrets = record { api_key = codes "key"; bearer_token = []; tokens = none; has_aws = false }

abbrev client_header : Header
client_header = (codes "Authorization", codes "Bearer stolen" ∷ []) ∷ []

lookup-inject_anthropic_example :
    (lookup (codes "Authorization") (inject_anthropic secrets client_header)
      ≡ authorization (token_of secrets))
    × (lookup (codes "X-Api-Key") (inject_anthropic secrets client_header)
        ≡ api_key_header (codes "key") (token_of secrets))
lookup-inject_anthropic_example = lookup-inject_anthropic secrets client_header

abbrev settings : Dict Json
settings =
    (
      codes "env",
      object ((codes "AWS_PROFILE", str (codes "work")) ∷ (codes "HOME", str (codes "/h")) ∷ []),
    )
    ∷ (codes "model", str (codes "opus"))
    ∷ []

merge_settings-Scrubbed_example : Scrubbed (merge_settings settings settings)
merge_settings-Scrubbed_example = merge_settings-Scrubbed settings settings

abbrev short_key : Bytes
short_key = 7 ∷ []

abbrev user_settings : Dict Json
user_settings = (short_key, null) ∷ []

abbrev entry : MountEntry
entry = record {
  mount_id = pos 1;
  parent_id = pos 0;
  dev = codes "0:1";
  root_in_fs = codes "/home";
  mount_point = codes "/home";
}

abbrev alias_entry : MountEntry
alias_entry = record entry {
  mount_id = pos 2;
  root_in_fs = codes "/";
  mount_point = codes "/r/mnt";
}

containment_leak_iff_example :
    (containment_leak (entry ∷ alias_entry ∷ []) (codes "/r") (codes "/home" ∷ []) ≡ none)
    ↔ All (Harmless (codes "/r") (entry ∷ [])) (entry ∷ alias_entry ∷ [])
unfolding prots_of live_entry bytes_eq
containment_leak_iff_example =
    containment_leak_iff (entry ∷ alias_entry ∷ []) (codes "/r") (codes "/home" ∷ []) (entry ∷ [])
      refl

abbrev plain_bind : Bind
plain_bind = record { path = codes "/a"; target = []; read_only = false; tmpfs = false }

abbrev environ : List Bytes
environ = codes "AWS_REGION=x" ∷ codes "HOME=/h" ∷ []

abbrev pattern_of : Bytes
pattern_of = codes ".claude"

abbrev session : SessionInfo
session = record {
  pid = 5;
  tty = [];
  term = [];
  tmux_pane = [];
  title = [];
  command = [];
  approve_url = codes "http://h";
}

abbrev session_file : DirEntry
session_file = record { name = codes "5.json"; is_dir = false; contents = some [] }

abbrev scrubbed_settings : Dict Json
scrubbed_settings =
    (codes "env", object ((codes "HOME", str (codes "/h")) ∷ []))
    ∷ (codes "model", str (codes "opus"))
    ∷ []

sanitize_settings_run : sanitize_settings settings ≡ some scrubbed_settings
unfolding sanitize_settings strip_env strip_keys as_map lookup insert delete has_key bytes_eq
sanitize_settings_run = refl
