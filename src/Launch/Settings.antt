-- ===== src/Launch/Settings.antt =====
-- claudesettings.go, `materializeClaudeSettings`: the copies of settings.json that cover the originals.
pub mod Covered
use runclaude.Prelude.{
  ◌≡◌, ℕ, suc, Bool, true, false, List, [], ◌∷◌, ◌++◌, Option, none, some, if◌then◌else◌,
}
use runclaude.Text.{Bytes, codes}
use runclaude.Dict.{Dict}
use runclaude.Json.{Json}
use runclaude.Filepath.{join_path}
use runclaude.Claudesettings.{File, Sanitized, failed, untouched, overlay, sanitize_settings_file}
use runclaude.Binds.{Bind}
use runclaude.Launch.Binds.{bind_to}

-- `claudeSettingsPaths(home, cwd)`
unfoldable pub claude_settings_paths : Bytes → Bytes → List Bytes
claude_settings_paths home cwd =
    join_path (home ∷ codes ".claude" ∷ codes "settings.json" ∷ [])
    ∷ join_path (cwd ∷ codes ".claude" ∷ codes "settings.json" ∷ [])
    ∷ []

-- a copy that is written, and its bind
abbrev pub Copy : Type 0
Copy = Bind × Bytes

abbrev pub add_sanitized : Bytes → Bytes → Sanitized → Option (List Copy) → Option (List Copy)
add_sanitized src dst failed rest = none
add_sanitized src dst untouched rest = rest
add_sanitized src dst (overlay out) none = none
add_sanitized src dst (overlay out) (some copies) = some ((bind_to dst src, out) ∷ copies)

module _ (read : Bytes → File) (decode : Bytes → Option (Dict Json)) (encode : Dict Json → Bytes)
    (writes : Bytes → Bool) (decimal : ℕ → Bytes) where
  -- the loop, from the index `i`; `none` is an error
  unfoldable pub sanitize_from : Bytes → ℕ → List Bytes → Option (List Copy)
  sanitize_from out_dir i [] = some []
  sanitize_from out_dir i (src ∷ paths) =
      let dst = join_path (out_dir ∷ (codes "settings-" ++ (decimal i ++ codes ".json")) ∷ []) in
      add_sanitized src dst (sanitize_settings_file decode encode (writes dst) (read src))
        (sanitize_from out_dir (suc i) paths)

  -- `materializeClaudeSettings(home, cwd, outDir)`
  unfoldable pub materialize_claude_settings : Bytes → Bytes → Bytes → Option (List Copy)
  materialize_claude_settings home cwd out_dir =
      sanitize_from out_dir 0 (claude_settings_paths home cwd)
