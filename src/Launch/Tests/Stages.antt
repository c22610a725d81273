-- ===== src/Launch/Tests/Stages.antt =====
-- The stages of the container, its exclude files and its settings at concrete inputs.
use runclaude.Prelude.{
  ◌≡◌, refl, ℕ, Bool, true, false, ◌&&◌, List, [], ◌∷◌, ◌++◌, Option, none, some, All, map, length,
  ◌+◌, ◌||◌, if◌then◌else◌,
}
use runclaude.Text.{Bytes, codes, has_byte, trim_space}
use runclaude.Dict.{Dict}
use runclaude.Json.{Json, str}
use runclaude.Vcs
use runclaude.Claudesettings
use runclaude.Launch.Binds.{Host, bind_to}
use runclaude.Launch.Settings
use runclaude.Launch.Settings.{materialize_claude_settings}
use runclaude.Launch.Settings.Covered.{IsScrubbed, materialize-IsScrubbed}
use runclaude.Filepath.{join_path}
use runclaude.Launch.Exclude.{
  Copy, copies_from, resolve_git_dir, resolve_jj_git_store, exclude_paths, vcs_exclude_binds,
}
use runclaude.Launch.Exclude.Listed.{Lists, shown_at, count, is_exclude_of, vcs_exclude_binds-Lists}
use runclaude.Launch.Plan.{Op, execute, drop_all_caps, setup_network}
use runclaude.Launch.Plan.Run.{any_op}
use runclaude.Launch.Mounts.{Config, Kind, directory, link}
use runclaude.Launch.Mounts.Guarded.{Covered}
use runclaude.Launch.Init.{init_plan, interrupted, ended, exited, signaled, exit_code, reap}
use runclaude.Launch.Init.Reaped.{is_run, reap-exit, init_plan-Confined}

abbrev cfg : Config
cfg = record {
  rootfs = codes "/tmp/r";
  home = codes "/home/u";
  cache_dir = codes "/cache";
  restrict_net = true;
  binds = [];
}

abbrev entries : List (Bytes × Kind)
entries =
    (codes "usr", directory)
    ∷ (codes "home", directory)
    ∷ (codes "bin", link (codes "usr/bin"))
    ∷ []

abbrev never : ℕ → Op → Bool
never n op = false

abbrev no_dir : Bytes → Bool
no_dir p = false

reap-exit_example :
    (reap 7 ((interrupted ∷ ended 9 (exited 1) ∷ []) ++ ended 7 (exited 15) ∷ [])
      ≡ some (exit_code 15))
    × (reap 7 ((interrupted ∷ ended 9 (exited 1) ∷ []) ++ ended 7 (signaled 15) ∷ [])
        ≡ some (exit_code (128 + 15)))
reap-exit_example = reap-exit 7 15 (interrupted ∷ ended 9 (exited 1) ∷ []) [] (tt, (refl, tt))

init_plan-Confined_example :
    (never (if true then 8 else 7) drop_all_caps ≡ false)
    × ((true && never 7 setup_network) ≡ false)
unfolding any_op execute init_plan is_run
init_plan-Confined_example =
    init_plan-Confined never (codes "/tmp/r") (codes "/w") true (codes "bash" ∷ []) refl

abbrev settings : Dict Json
settings = (codes "awsAuthRefresh", str (codes "aws sso login")) ∷ []

-- every file holds one byte, which decodes to the settings; a map is encoded as its length
abbrev settings_file : Bytes → Claudesettings.File
settings_file p = Claudesettings.holds (7 ∷ [])

abbrev decode : Bytes → Option (Dict Json)
decode b = some settings

abbrev encode : Dict Json → Bytes
encode m = length m ∷ []

abbrev decimal : ℕ → Bytes
decimal n = (48 + n) ∷ []

materialize-IsScrubbed_example :
    All
      (λ (c : Settings.Copy). IsScrubbed decode encode c.1)
      ((bind_to (codes "/c/settings-0.json") (codes "/h/.claude/settings.json"), 0 ∷ [])
        ∷ (bind_to (codes "/c/settings-1.json") (codes "/w/.claude/settings.json"), 0 ∷ [])
        ∷ [])
unfolding materialize_claude_settings Settings.sanitize_from Settings.claude_settings_paths
    Claudesettings.sanitize_settings_file Claudesettings.sanitize_settings
materialize-IsScrubbed_example =
    materialize-IsScrubbed decode encode settings_file (λ p. true) decimal (codes "/c") (codes "/h")
      (codes "/w") _ refl

-- a repository whose exclude file is absent
abbrev repository : Host
repository = record {
  read_dir = λ d. none;
  exists = λ p. true;
  is_dir = λ p. true;
  read_file = λ p. none;
  look_path = λ p. none;
  eval_symlinks = λ p. none;
  getenv = λ k. [];
  user_home = none;
}

abbrev copies : List Copy
copies =
    (bind_to (codes "/c/exclude1") (codes "/w/.git/info/exclude"), codes ".claude/x" ++ 10 ∷ [])
    ∷ []

vcs_exclude_binds-Lists_example :
    (count (codes "/w/.git/info/exclude") (map shown_at copies) ≡ (
      if is_exclude_of (resolve_git_dir repository (codes "/w")) (codes "/w/.git/info/exclude")
        || is_exclude_of
            (resolve_jj_git_store repository (codes "/w"))
            (codes "/w/.git/info/exclude")
      then 1
      else 0))
    × All (Lists (codes ".claude/x")) copies
unfolding vcs_exclude_binds has_byte trim_space copies_from exclude_paths resolve_git_dir
    resolve_jj_git_store Vcs.write_exclude_copy join_path
vcs_exclude_binds-Lists_example =
    vcs_exclude_binds-Lists (λ p. Vcs.absent) decimal (codes "/c") (codes ".claude/x") refl refl
      refl repository (codes "/w") (codes "/w/.git/info/exclude") refl
