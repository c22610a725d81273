-- ===== src/Launch/Auth/Chosen.antt =====
-- main.go, `applyClaudeSettingsEnv` and the choice of the credentials.
use runclaude.Prelude.{
  ◌≡◌, refl, ap, ◌∙◌, ◌⊎◌, inl, inr, true, false, ◌&&◌, List, [], ◌∷◌, Option, if◌then◌else◌, arith,
  Bool-cases,
}
use runclaude.Text.{Bytes, bytes_eq, is_empty}
use runclaude.Text.Equality.{bytes_eq_iff}
use runclaude.Dict.{Dict, lookup, has_key, lookup-insert}
use runclaude.Creds.Load.{Parsed}
use runclaude.Launch.Auth.{
  no_credentials, getenv, apply_var, apply_claude_settings_env, AuthFlags, choose_auth,
}

-- the value of a variable behind the loop: the first that is not empty, the process's own before
-- those of the settings
unfoldable pub first_set : Bytes → Bytes → Dict Bytes → Bytes
unfolding bytes_eq
first_set k own [] = own
first_set k own ((j, v) ∷ env) = first_set k (if bytes_eq j k && is_empty own then v else own) env

getenv-apply_var :
    (k j v : Bytes) (out : Dict Bytes × List Bytes)
    → getenv k (apply_var j v out).0
      ≡ (if bytes_eq j k && is_empty (getenv k out.0) then v else getenv k out.0)
unfolding apply_var getenv
getenv-apply_var k j v (env, applied) = ground (arith, lookup-insert j k v env, bytes_eq_iff j k)

getenv-apply :
    (k : Bytes) (settings : Dict Bytes) (out : Dict Bytes × List Bytes)
    → getenv k (apply_claude_settings_env settings out).0 ≡ first_set k (getenv k out.0) settings
unfolding apply_claude_settings_env first_set
getenv-apply k [] out = refl
getenv-apply k ((j, v) ∷ settings) out =
    getenv-apply k settings (apply_var j v out)
    ∙ ap (λ own. first_set k own settings) (getenv-apply_var k j v out)

-- the keys of a Go map are distinct
abbrev pub DistinctKeys : Dict Bytes → Type 0
DistinctKeys [] = Unit
DistinctKeys ((k, v) ∷ m) = (has_key k m ≡ false) × DistinctKeys m

first_set-own :
    (k own : Bytes) (settings : Dict Bytes) → is_empty own ≡ false → first_set k own settings ≡ own
unfolding first_set
first_set-own k own [] h = refl
first_set-own k own ((j, v) ∷ settings) h = ground (arith, h, first_set-own k own settings)

first_set-absent :
    (k own : Bytes) (settings : Dict Bytes)
    → has_key k settings ≡ false
    → first_set k own settings ≡ own
unfolding first_set has_key
first_set-absent k own [] h = refl
first_set-absent k own ((j, v) ∷ settings) h = ground (arith, h, first_set-absent k own settings)

first_set-getenv :
    (k : Bytes) (settings : Dict Bytes)
    → DistinctKeys settings
    → first_set k [] settings ≡ getenv k settings
unfolding first_set getenv lookup
first_set-getenv k [] d = refl
first_set-getenv k ((j, v) ∷ settings) d = elim (Bool-cases (bytes_eq j k)) [
  | inl e ↦
      let absent : has_key k settings ≡ false = rw (← (bytes_eq_iff j k).0 e) d.0 in
      ground (arith, e, first_set-absent k v settings absent)
  | inr e ↦ ground (arith, e, first_set-getenv k settings d.1)
]

is_empty-nil : (s : Bytes) → is_empty s ≡ true → s ≡ []
is_empty-nil [] h = refl
is_empty-nil (x ∷ s) h = cc

-- After `applyClaudeSettingsEnv` a variable has the process's own value, or that of the settings
-- where its own was empty or not set.
pub getenv-apply_claude_settings_env :
    (k : Bytes) (settings env : Dict Bytes)
    → DistinctKeys settings
    → getenv k (apply_claude_settings_env settings (env, [])).0
      ≡ (if is_empty (getenv k env) then getenv k settings else getenv k env)
getenv-apply_claude_settings_env k settings env d =
    getenv-apply k settings (env, []) ∙ elim (Bool-cases (is_empty (getenv k env))) [
      | inl e ↦ rw e (rw (is_empty-nil (getenv k env) e) (first_set-getenv k settings d))
      | inr e ↦ rw e (first_set-own k (getenv k env) settings e)
    ]

-- the process's environment behind the choice, and the choice
module _ (read_file : Bytes → Option Bytes) (decode : Bytes → Option Parsed) where
  -- Under Bedrock there are no Anthropic credentials.
  pub choose_auth-Exclusive :
      (flags : AuthFlags) (home : Bytes) (env : Dict Bytes)
      → ((choose_auth read_file decode flags home env).use_bedrock ≡ false)
        ⊎ ((choose_auth read_file decode flags home env).credentials ≡ no_credentials)
  unfolding choose_auth
  choose_auth-Exclusive flags home env = ground arith
