-- ===== src/Launch/Binds.antt =====
-- main.go: the binds that a start of runclaude gives to the container. What the host's file system and
-- environment answer is a record of functions; one answer holds for the whole start.
pub mod Claude
pub mod Hidden
pub mod Paths
pub mod Order
pub mod Scratch
use runclaude.Prelude.{
  Bool, true, false, not, ◌&&◌, ◌||◌, List, [], ◌∷◌, ◌++◌, Option, none, some, map, if◌then◌else◌,
}
use runclaude.Text.{
  Bytes, codes, bytes_eq, is_empty, member, trim_space, has_prefix, trim_prefix, cut_byte,
}
use runclaude.Filepath.{is_abs, clean, join_path, dir_of, split_list}
use runclaude.Binds.{Bind}

-- `os.ReadDir`, `os.Stat`, `os.ReadFile`, `exec.LookPath`, `filepath.EvalSymlinks`, `os.Getenv` and
-- `os.UserHomeDir`, with `none` for an error
pub record Host : Type 0 where
  pub read_dir : Bytes → Option (List Bytes)
  pub exists : Bytes → Bool
  pub is_dir : Bytes → Bool
  pub read_file : Bytes → Option Bytes
  pub look_path : Bytes → Option Bytes
  pub eval_symlinks : Bytes → Option Bytes
  pub getenv : Bytes → Bytes
  pub user_home : Option Bytes

-- `Bind{Path: p}`
abbrev pub bind_at : Bytes → Bind
bind_at p = record { path = p; target = []; read_only = false; tmpfs = false }

-- `Bind{Path: p, Dest: d}`
abbrev pub bind_to : Bytes → Bytes → Bind
bind_to p d = record { path = p; target = d; read_only = false; tmpfs = false }

-- the loops that keep what `os.Stat` finds
unfoldable pub existing_binds : (Bytes → Bool) → List Bytes → List Bind
existing_binds exists [] = []
existing_binds exists (p ∷ ps) =
    let rest = existing_binds exists ps in if exists p then bind_at p ∷ rest else rest

-- `strings.TrimSpace` of a path read from a file, resolved against a directory and cleaned
unfoldable pub resolve : List Bytes → Bytes → Bytes
unfolding is_abs join_path clean
resolve dirs p = if not (is_abs p) then clean (join_path (dirs ++ p ∷ [])) else clean p

-- the file `commondir` of a worktree's git directory
abbrev pub common_binds : Bytes → Option Bytes → List Bind
unfolding resolve trim_space
common_binds p none = []
common_binds p (some contents) = bind_at (resolve (p ∷ []) (trim_space contents)) ∷ []

-- what stands behind `gitdir:`
abbrev pub gitdir_of : Bytes → Option Bytes
unfolding has_prefix trim_prefix trim_space
gitdir_of contents =
    let s = trim_space contents in
    if has_prefix s (codes "gitdir:")
    then some (trim_space (trim_prefix s (codes "gitdir:")))
    else none

module _ (h : Host) where
  abbrev pub gitdir_binds : Bytes → Option Bytes → List Bind
  unfolding resolve join_path
  gitdir_binds cwd none = []
  gitdir_binds cwd (some rest) =
      let p = resolve (cwd ∷ []) rest in
      bind_at p ∷ common_binds p (h.read_file (join_path (p ∷ codes "commondir" ∷ [])))

  abbrev pub git_file_binds : Bytes → Option Bytes → List Bind
  unfolding gitdir_of
  git_file_binds cwd none = []
  git_file_binds cwd (some contents) = gitdir_binds cwd (gitdir_of contents)

  -- the file `.jj/repo` of a secondary workspace
  abbrev pub jj_repo_binds : Bytes → Option Bytes → List Bind
  unfolding resolve join_path dir_of trim_space
  jj_repo_binds cwd none = []
  jj_repo_binds cwd (some contents) =
      let p = resolve (cwd ∷ codes ".jj" ∷ []) (trim_space contents) in
      let git = join_path (dir_of (dir_of p) ∷ codes ".git" ∷ []) in
      if h.is_dir git then bind_at p ∷ bind_at git ∷ [] else bind_at p ∷ []

  -- `workspaceBinds(cwd)`
  unfoldable pub workspace_binds : Bytes → List Bind
  unfolding git_file_binds jj_repo_binds join_path
  workspace_binds cwd =
      git_file_binds cwd (h.read_file (join_path (cwd ∷ codes ".git" ∷ [])))
      ++ jj_repo_binds cwd (h.read_file (join_path (cwd ∷ codes ".jj" ∷ codes "repo" ∷ [])))

  abbrev pub or_home : Option Bytes → Bytes → Bytes
  or_home none v = v
  or_home (some d) v = d

  abbrev pub when_set : Bytes → Bytes → List Bytes
  when_set v p = if not (is_empty v) then p ∷ [] else []

  -- `jjConfigBinds()`
  unfoldable pub jj_config_binds : List Bind
  unfolding existing_binds join_path
  jj_config_binds =
      let set = h.getenv (codes "JJ_CONFIG") in
      let user_home = or_home h.user_home (h.getenv (codes "HOME")) in
      let xdg = h.getenv (codes "XDG_CONFIG_HOME") in
      let config =
        if is_empty xdg && not (is_empty user_home)
        then join_path (user_home ∷ codes ".config" ∷ [])
        else xdg in
      existing_binds h.exists (
        when_set set set
        ++ (when_set user_home (join_path (user_home ∷ codes ".jjconfig.toml" ∷ []))
            ++ when_set config (join_path (config ∷ codes "jj" ∷ []))))

  -- the first directory of an absolute path
  abbrev pub top_of : Bytes → Bytes
  top_of p = codes "/" ++ (cut_byte b'/' (trim_prefix p (codes "/"))).0

  abbrev pub or_path : Option Bytes → Bytes → Bytes
  or_path none p = p
  or_path (some r) p = r

  -- `abs`, for an entry that is not skipped
  abbrev pub resolved : Bytes → Bytes
  resolved p = or_path (h.eval_symlinks (clean p)) (clean p)

  -- the loop of `pathBinds`, `seen` being the keys of its map
  unfoldable pub path_binds_from : List Bytes → List Bytes → List Bytes → List Bind
  unfolding member
  path_binds_from needs seen [] = []
  path_binds_from needs seen (p ∷ ps) =
      let skipped = path_binds_from needs seen ps in
      let rest = path_binds_from needs (resolved p ∷ seen) ps in
      if is_empty p || not (is_abs p)
      then skipped
      else if member (resolved p) seen
      then skipped
      else if not (member (top_of (resolved p)) needs)
      then rest
      else if not (h.is_dir (resolved p))
      then rest
      else record { path = resolved p; target = []; read_only = true; tmpfs = false } ∷ rest

  -- the keys of `needsBind`
  abbrev pub needs_bind : Bytes → List Bytes
  needs_bind home = top_of home ∷ codes "/tmp" ∷ codes "/run" ∷ codes "/dev" ∷ []

  -- `pathBinds(home)`
  unfoldable pub path_binds : Bytes → List Bind
  unfolding path_binds_from split_list
  path_binds home = path_binds_from (needs_bind home) [] (split_list (h.getenv (codes "PATH")))
