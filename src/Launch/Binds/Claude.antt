-- ===== src/Launch/Binds/Claude.antt =====
-- main.go: which of the host's claude files the container is given, and what covers them.
use runclaude.Prelude.{true, false, List, [], ◌∷◌, ◌++◌, Option, none, some, map, if◌then◌else◌}
use runclaude.Text.{Bytes, codes, member, has_prefix}
use runclaude.Filepath.{join_path, dir_of}
use runclaude.Binds.{Bind}
use runclaude.Launch.Binds.{Host, bind_to, existing_binds}

-- the keys of `credentialFiles`
abbrev pub credential_files : List Bytes
credential_files = codes ".credentials.json" ∷ codes "credentials.json" ∷ []

-- the keys of `claudeLiveState`
abbrev pub claude_live_state : List Bytes
claude_live_state =
    codes "history.jsonl"
    ∷ codes "projects"
    ∷ codes "sessions"
    ∷ codes "file-history"
    ∷ codes "backups"
    ∷ codes "plans"
    ∷ codes "todos"
    ∷ codes "downloads"
    ∷ codes "stats-cache.json"
    ∷ []

-- the keys of `claudeScratch`
abbrev pub claude_scratch : List Bytes
claude_scratch =
    codes "session-env"
    ∷ codes "paste-cache"
    ∷ codes "shell-snapshots"
    ∷ codes "cache"
    ∷ codes "debug"
    ∷ []

-- `filepath.Join(home, ".claude")`
abbrev pub claude_dir : Bytes → Bytes
claude_dir home = join_path (home ∷ codes ".claude" ∷ [])

-- `claudeScratchBinds(home)`
abbrev pub tmpfs_at : Bytes → Bind
tmpfs_at d = record { path = []; target = d; read_only = false; tmpfs = true }

unfoldable pub claude_scratch_binds : Bytes → List Bind
claude_scratch_binds home =
    map (λ name. tmpfs_at (join_path (claude_dir home ∷ name ∷ []))) claude_scratch

-- the loop over the entries of ~/.claude
unfoldable pub shared_entries : Bytes → List Bytes → List Bytes
shared_entries dir [] = []
shared_entries dir (name ∷ names) =
    let rest = shared_entries dir names in
    if member name credential_files
    then rest
    else if member name claude_scratch
    then rest
    else join_path (dir ∷ name ∷ []) ∷ rest

abbrev pub or_no_entries : Option (List Bytes) → List Bytes
or_no_entries none = []
or_no_entries (some names) = names

-- the directories of the executable, and of what it resolves to
abbrev pub target_dir : Option Bytes → List Bytes
target_dir none = []
target_dir (some target) = dir_of target ∷ []

abbrev pub exec_dirs : (Bytes → Option Bytes) → Option Bytes → List Bytes
exec_dirs eval_symlinks none = []
exec_dirs eval_symlinks (some claude) = dir_of claude ∷ target_dir (eval_symlinks claude)

-- the loop that fills `filtered`
unfoldable pub outside : Bytes → List Bind → List Bind
outside prefix [] = []
outside prefix (b ∷ bs) =
    let rest = outside prefix bs in if has_prefix b.path prefix then rest else b ∷ rest

module _ (h : Host) where
  -- `claudeBinds(home)`, which returns no error
  unfoldable pub claude_binds : Bytes → List Bind
  claude_binds home = existing_binds h.exists (
      shared_entries (claude_dir home) (or_no_entries (h.read_dir (claude_dir home)))
      ++ (join_path (home ∷ codes ".claude.json" ∷ [])
          ∷ join_path (home ∷ codes ".config" ∷ codes "claude" ∷ [])
          ∷ exec_dirs h.eval_symlinks (h.look_path (codes "claude"))))

  -- the loop over `claudeLiveState`
  unfoldable pub live_state_binds : Bytes → List Bytes → List Bind
  live_state_binds home [] = []
  live_state_binds home (name ∷ names) =
      let src = join_path (home ∷ codes ".claude" ∷ name ∷ []) in
      let rest = live_state_binds home names in
      if h.exists src then bind_to src src ∷ rest else rest

  -- `extra`, where the project's settings are merged into a directory `merged` or are not
  unfoldable pub extra_binds : Bytes → Option Bytes → List Bind
  extra_binds home none = claude_binds home
  extra_binds home (some merged) =
      outside (claude_dir home ++ codes "/") (claude_binds home)
      ++ (bind_to merged (claude_dir home) ∷ live_state_binds home claude_live_state)
