-- ===== src/Claudesettings.antt =====
-- claudesettings.go and the test of claudemerge.go: the keys of settings.json that are AWS credentials
-- or ask for them. The codecs are parameters; a file's contents are read once.
pub mod Scrub
use runclaude.Prelude.{
  ◌≡◌, Bool, true, false, not, ◌||◌, List, [], ◌∷◌, ◌++◌, Option, none, some, if◌then◌else◌,
}
use runclaude.Dict.{Dict, lookup, insert, delete, has_key, insert_all}
use runclaude.Json.{Json, object, as_map}
use runclaude.Text.{Bytes, codes, is_empty}

-- `awsClaudeSettingsEnvScrub`
abbrev pub aws_claude_settings_env_scrub : List Bytes
aws_claude_settings_env_scrub =
    codes "AWS_ACCESS_KEY_ID"
    ∷ codes "AWS_SECRET_ACCESS_KEY"
    ∷ codes "AWS_SESSION_TOKEN"
    ∷ codes "AWS_SECURITY_TOKEN"
    ∷ codes "AWS_PROFILE"
    ∷ codes "AWS_CONFIG_FILE"
    ∷ codes "AWS_SHARED_CREDENTIALS_FILE"
    ∷ codes "CLAUDE_CODE_USE_BEDROCK"
    ∷ codes "AWS_REGION"
    ∷ codes "AWS_DEFAULT_REGION"
    ∷ []

-- `awsClaudeSettingsTopLevelScrub`
abbrev pub aws_claude_settings_top_level_scrub : List Bytes
aws_claude_settings_top_level_scrub = codes "awsAuthRefresh" ∷ []

-- the loops that delete the keys present: the map, and whether one was
unfoldable pub strip_keys : List Bytes → Dict Json → Dict Json × Bool
unfolding delete has_key
strip_keys [] m = (m, false)
strip_keys (k ∷ ks) m =
    let present = has_key k m in
    let rest = strip_keys ks (if present then delete k m else m) in (rest.0, present || rest.1)

-- the test of `raw["env"]`, on what `as_map` makes of it
unfoldable pub strip_env : Option (Dict Json) → Dict Json → Dict Json × Bool
unfolding strip_keys insert
strip_env none raw = (raw, false)
strip_env (some env) raw =
    let out = strip_keys aws_claude_settings_env_scrub env in
    (insert (codes "env") (object (out.0)) raw, out.1)

-- `sanitizeSettingsFile` on the decoded file; `none` leaves the file alone
unfoldable pub sanitize_settings : Dict Json → Option (Dict Json)
unfolding lookup as_map strip_env
sanitize_settings raw =
    let first = strip_env (as_map (lookup (codes "env") raw)) raw in
    let second = strip_keys aws_claude_settings_top_level_scrub (first.0) in
    if not (first.1 || second.1) then none else some (second.0)

-- `os.ReadFile`: no such file, another error, or the contents
pub data File : Type 0 where
  absent : File
  unreadable : File
  holds : Bytes → File

-- The results of `sanitizeSettingsFile`: an error, the nil bind, or a bind of the copy written at `dst`.
pub data Sanitized : Type 0 where
  failed : Sanitized
  untouched : Sanitized
  overlay : Bytes → Sanitized

module _ (decode : Bytes → Option (Dict Json)) (encode : Dict Json → Bytes) (writes : Bool) where
  abbrev pub copy_of : Option (Dict Json) → Sanitized
  copy_of none = untouched
  copy_of (some out) = if writes then overlay (encode out) else failed

  abbrev pub sanitize_decoded : Option (Dict Json) → Sanitized
  sanitize_decoded none = untouched
  sanitize_decoded (some raw) = copy_of (sanitize_settings raw)

  -- `sanitizeSettingsFile(src, dst)`; `writes` tells whether the directory and the copy are written
  unfoldable pub sanitize_settings_file : File → Sanitized
  sanitize_settings_file absent = untouched
  sanitize_settings_file unreadable = failed
  sanitize_settings_file (holds contents) = sanitize_decoded (decode contents)

abbrev pub any_key : List Bytes → Dict Json → Bool
unfolding has_key
any_key [] m = false
any_key (k ∷ ks) m = has_key k m || any_key ks m

abbrev pub any_env_key : Option (Dict Json) → Bool
any_env_key none = false
any_env_key (some env) = any_key aws_claude_settings_env_scrub env

-- `projectSettingsHasAWS` on the file's contents; `decode` gives `none` for an error
unfoldable pub settings_has_aws : Dict Json → Bool
unfolding lookup as_map
settings_has_aws raw =
    any_key aws_claude_settings_top_level_scrub raw
    || any_env_key (as_map (lookup (codes "env") raw))

abbrev pub decoded_has_aws : Option (Dict Json) → Bool
unfolding settings_has_aws
decoded_has_aws none = false
decoded_has_aws (some raw) = settings_has_aws raw

unfoldable pub project_settings_has_aws : (Bytes → Option (Dict Json)) → Option Bytes → Bool
project_settings_has_aws decode none = false
project_settings_has_aws decode (some contents) = decoded_has_aws (decode contents)

-- `claudeSettings`
pub record ClaudeSettings : Type 0 where
  pub env : Dict Bytes
  pub aws_auth_refresh : Bytes

-- one step of the loop of `loadClaudeSettings`; `none` is a file that is not read or not parsed
abbrev pub add_settings : ClaudeSettings → Option ClaudeSettings → ClaudeSettings
unfolding insert_all
add_settings out none = out
add_settings out (some s) = record {
  env = insert_all s.env out.env;
  aws_auth_refresh =
      if not (is_empty s.aws_auth_refresh) then s.aws_auth_refresh else out.aws_auth_refresh;
}

-- `loadClaudeSettings(home, cwd)`; `parse` reads and decodes the file at a path
unfoldable pub load_claude_settings :
    (Bytes → Option ClaudeSettings) → Bytes → Bytes → ClaudeSettings
load_claude_settings parse home cwd =
    add_settings
      (add_settings (record { env = []; aws_auth_refresh = [] })
        (parse (home ++ codes "/.claude/settings.json")))
      (parse (cwd ++ codes "/.claude/settings.json"))
