-- ===== src/Claudesettings/Scrub.antt =====
-- claudesettings.go, `sanitizeSettingsFile`: the keys of the file before and after.
use runclaude.Prelude.{
  ◌≡◌, ◌↔◌, refl, sym, ap, ◌∙◌, ◌≢◌, true, false, List, [], ◌∷◌, Option, none, some, if◌then◌else◌,
  arith,
}
use runclaude.Dict.{
  Dict, lookup, delete, lookup-insert, lookup-delete, has_key-lookup, has_key-is_some,
}
use runclaude.Json.{Json, object, as_map, as_map-object}
use runclaude.Text.{Bytes, codes, bytes_eq, member}
use runclaude.Text.Equality.{bytes_eq_iff}
use runclaude.Claudesettings.{
  aws_claude_settings_env_scrub, aws_claude_settings_top_level_scrub, strip_keys, strip_env,
  sanitize_settings, any_key, any_env_key, settings_has_aws,
}

-- no key of the scrub lists stands in `m` or in its `env`
abbrev pub Scrubbed : Dict Json → Type 0
Scrubbed m =
    (lookup (codes "awsAuthRefresh") m ≡ none)
    × ((env : Dict Json) (k : Bytes)
        → as_map (lookup (codes "env") m) ≡ some env
        → member k aws_claude_settings_env_scrub ≡ true
        → lookup k env ≡ none)

pub lookup-strip_keys :
    (ks : List Bytes) (j : Bytes) (m : Dict Json)
    → lookup j ((strip_keys ks m).0) ≡ (if member j ks then none else lookup j m)
unfolding strip_keys member
lookup-strip_keys [] j m = refl
lookup-strip_keys (k ∷ ks) j m = ground (
  arith,
  lookup-strip_keys ks j m,
  lookup-strip_keys ks j (delete k m),
  lookup-delete k j m,
  bytes_eq_iff k j,
  bytes_eq_iff j k,
  has_key-lookup k m,
)

strip_keys-any_key : (ks : List Bytes) (m : Dict Json) → (strip_keys ks m).1 ≡ any_key ks m
unfolding strip_keys
strip_keys-any_key [] m = refl
strip_keys-any_key (k ∷ ks) m = ground (arith, strip_keys-any_key ks m)

-- the key that the second loop deletes is untouched by the first step
lookup-strip_env :
    (o : Option (Dict Json)) (raw : Dict Json) (j : Bytes)
    → j ≢ codes "env"
    → lookup j ((strip_env o raw).0) ≡ lookup j raw
unfolding strip_env
lookup-strip_env none raw j h = refl
lookup-strip_env (some env) raw j h = ground (
  arith,
  lookup-insert (codes "env") j (object ((strip_keys aws_claude_settings_env_scrub env).0)) raw,
  bytes_eq_iff (codes "env") j,
  h,
)

strip_env-any_key : (o : Option (Dict Json)) (raw : Dict Json) → (strip_env o raw).1 ≡ any_env_key o
unfolding strip_env
strip_env-any_key none raw = refl
strip_env-any_key (some env) raw = strip_keys-any_key aws_claude_settings_env_scrub env

-- `has_key` of the one key at the top level, before and after the first step
has_key-strip_env :
    (o : Option (Dict Json)) (raw : Dict Json)
    → any_key aws_claude_settings_top_level_scrub ((strip_env o raw).0)
      ≡ any_key aws_claude_settings_top_level_scrub raw
unfolding any_key
has_key-strip_env o raw = rw (has_key-is_some (codes "awsAuthRefresh") ((strip_env o raw).0)) (
    rw (lookup-strip_env o raw (codes "awsAuthRefresh") (λ e. cc))
      (rw (has_key-is_some (codes "awsAuthRefresh") raw) refl))

-- the map after both steps
abbrev stripped : Dict Json → Dict Json
stripped raw =
    (strip_keys aws_claude_settings_top_level_scrub
      ((strip_env (as_map (lookup (codes "env") raw)) raw).0)).0

sanitize_settings-stripped :
    (raw out : Dict Json) → sanitize_settings raw ≡ some out → out ≡ stripped raw
unfolding sanitize_settings
sanitize_settings-stripped raw out h = ground (arith, h)

env_of-strip_env :
    (o : Option (Dict Json)) (raw env : Dict Json) (k : Bytes)
    → o ≡ as_map (lookup (codes "env") raw)
    → as_map (lookup (codes "env") ((strip_env o raw).0)) ≡ some env
    → member k aws_claude_settings_env_scrub ≡ true
    → lookup k env ≡ none
unfolding strip_env bytes_eq
env_of-strip_env none raw env k e h m = cc
env_of-strip_env (some old) raw env k e h m =
    let left = (strip_keys aws_claude_settings_env_scrub old).0 in
    let there : some left ≡ some env =
      sym (as_map-object left)
      ∙ (ap as_map (sym (lookup-insert (codes "env") (codes "env") (object left) raw)) ∙ h) in
    let same : left ≡ env = cc in
    rw (sym same) (lookup-strip_keys aws_claude_settings_env_scrub k old ∙ rw m refl)

-- `sanitizeSettingsFile` leaves a decoded file alone exactly if `projectSettingsHasAWS` finds no
-- key of the scrub lists in it.
pub sanitize_settings-has_aws :
    (raw : Dict Json) → (sanitize_settings raw ≡ none) ↔ (settings_has_aws raw ≡ false)
unfolding sanitize_settings settings_has_aws
sanitize_settings-has_aws raw =
    let o = as_map (lookup (codes "env") raw) in
    rw (strip_env-any_key o raw) (
      rw (strip_keys-any_key aws_claude_settings_top_level_scrub ((strip_env o raw).0))
        (rw (has_key-strip_env o raw) (ground arith, ground arith)))

-- The map that `sanitizeSettingsFile` writes in place of a decoded file has no `awsAuthRefresh`,
-- and its `env`, if it is a map, has no key of the scrub list.
pub sanitize_settings-Scrubbed :
    (raw out : Dict Json) → sanitize_settings raw ≡ some out → Scrubbed out
unfolding member bytes_eq
sanitize_settings-Scrubbed raw out h =
    let o = as_map (lookup (codes "env") raw) in
    let top = aws_claude_settings_top_level_scrub in
    rw (sanitize_settings-stripped raw out h) (
      lookup-strip_keys top (codes "awsAuthRefresh") ((strip_env o raw).0),
      λ env k is m.
          env_of-strip_env o raw env k refl
            (ap as_map (sym (lookup-strip_keys top (codes "env") ((strip_env o raw).0))) ∙ is) m,
    )

pub lookup-sanitize_settings :
    (raw out : Dict Json) (j : Bytes)
    → sanitize_settings raw ≡ some out
    → j ≢ codes "env"
    → j ≢ codes "awsAuthRefresh"
    → lookup j out ≡ lookup j raw
unfolding member
lookup-sanitize_settings raw out j h a b =
    let o = as_map (lookup (codes "env") raw) in
    rw (sanitize_settings-stripped raw out h) (
      lookup-strip_keys aws_claude_settings_top_level_scrub j ((strip_env o raw).0)
      ∙ ground (arith, bytes_eq_iff j (codes "awsAuthRefresh"), b, lookup-strip_env o raw j a))
