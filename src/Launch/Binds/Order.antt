-- ===== src/Launch/Binds/Order.antt =====
-- main.go, `mainErr`: all the binds, in their order. Those that cover the repositories' exclude files
-- and the files settings.json are given; `vcs_exclude_binds` and `materialize_claude_settings` make them.
use runclaude.Prelude.{
  Bool, true, false, not, ◌&&◌, List, [], ◌∷◌, ◌++◌, Option, none, some, map, if◌then◌else◌,
}
use runclaude.Text.{Bytes, codes, is_empty}
use runclaude.Filepath.{is_abs, clean, join_path}
use runclaude.Binds.{Bind}
use runclaude.Launch.Binds.{
  Host, bind_at, bind_to, resolve, workspace_binds, jj_config_binds, path_binds,
}
use runclaude.Launch.Binds.Claude.{claude_scratch_binds, extra_binds}

-- the flags that `mainErr` reads for the binds, and the directories that it has made
pub record Start : Type 0 where
  pub home : Bytes
  pub cwd : Bytes
  -- `cwdCacheDir`
  pub cwd_cache : Bytes
  pub exposed : List Bytes
  pub only : List Bytes
  pub map_path : Bool
  pub map_workspace : Bool
  pub claude_like : Bool
  -- `mergedDir`, where `projectSettingsHasAWS(cwd)`
  pub merged : Option Bytes
  pub exclude_binds : List Bind
  pub settings_binds : List Bind
  pub runclaude_json : Bytes

abbrev pub only_mode : Start → Bool
only_mode s = not (is_empty s.only)

-- `filepath.Abs(e)` in the working directory `cwd`
abbrev pub abs_path : Bytes → Bytes → Bytes
abs_path cwd e = if is_abs e then clean e else join_path (cwd ∷ e ∷ [])

-- `Bind{Path: p, Dest: d, ReadOnly: true}`
abbrev pub json_bind : Bytes → Bind
json_bind p = record { path = p; target = codes "/runclaude.json"; read_only = true; tmpfs = false }

abbrev pub no_merge : Option Bytes → Bool
no_merge none = true
no_merge (some d) = false

abbrev pub when : Bool → List Bind → List Bind
when true binds = binds
when false binds = []

-- `cfg.Binds` before the part for claude
unfoldable pub workspace_part : Host → Start → List Bind
workspace_part h s =
    bind_to (if only_mode s then s.cwd_cache else s.cwd) s.cwd
    ∷ (map (λ e. bind_at (abs_path s.cwd e)) s.exposed
        ++ (map (λ e. bind_at (resolve (s.cwd ∷ []) e)) s.only
            ++ (when s.map_path (path_binds h s.home)
                ++ (when (not (only_mode s) && s.map_workspace) (workspace_binds h s.cwd)
                    ++ when (not (only_mode s) && h.exists (codes ".jj")) (jj_config_binds h)))))

-- what is appended behind the scratch directories
unfoldable pub settings_part : Start → List Bind
settings_part s =
    when (no_merge s.merged) (when (not (only_mode s)) s.exclude_binds ++ s.settings_binds)

-- `cfg.Binds`
unfoldable pub start_binds : Host → Start → List Bind
start_binds h s =
    workspace_part h s
    ++ (when s.claude_like
          (extra_binds h s.home s.merged ++ (claude_scratch_binds s.home ++ settings_part s))
        ++ json_bind s.runclaude_json ∷ [])
