-- ===== src/Launch/Exclude.antt =====
-- vcs.go: which exclude files the container sees a copy of.
pub mod Listed
use runclaude.Prelude.{
  ◌≡◌, ℕ, suc, ◌+◌, Bool, true, false, not, List, [], ◌∷◌, ◌++◌, Option, none, some, map,
  if◌then◌else◌,
}
use runclaude.Text.{Bytes, codes, bytes_eq, has_prefix, trim_prefix, trim_space}
use runclaude.Filepath.{join_path}
use runclaude.Vcs.{File, write_exclude_copy}
use runclaude.Binds.{Bind}
use runclaude.Launch.Binds.{Host, bind_to, resolve, gitdir_of}

abbrev pub gitdir_in : Bytes → Option Bytes → Option Bytes
gitdir_in cwd none = none
gitdir_in cwd (some gd) = some (resolve (cwd ∷ []) gd)

abbrev pub gitdir_file : Bytes → Option Bytes → Option Bytes
gitdir_file cwd none = none
gitdir_file cwd (some contents) = gitdir_in cwd (gitdir_of contents)

-- `resolveGitDir(cwd)`
unfoldable pub resolve_git_dir : Host → Bytes → Option Bytes
resolve_git_dir h cwd =
    let p = join_path (cwd ∷ codes ".git" ∷ []) in
    if not (h.exists p)
    then none
    else if h.is_dir p
    then some p
    else gitdir_file cwd (h.read_file p)

abbrev pub git_target : Bytes → Option Bytes → Option Bytes
git_target store none = none
git_target store (some target) = some (resolve (store ∷ []) (trim_space target))

abbrev pub is_git : Option Bytes → Bool
is_git none = false
is_git (some typ) = bytes_eq (trim_space typ) (codes "git")

-- `resolveJJGitStore(cwd)`
unfoldable pub resolve_jj_git_store : Host → Bytes → Option Bytes
resolve_jj_git_store h cwd =
    let store = join_path (cwd ∷ codes ".jj" ∷ codes "repo" ∷ codes "store" ∷ []) in
    if not (is_git (h.read_file (join_path (store ∷ codes "type" ∷ []))))
    then none
    else git_target store (h.read_file (join_path (store ∷ codes "git_target" ∷ [])))

abbrev pub exclude_of : Option Bytes → List Bytes
exclude_of none = []
exclude_of (some d) = join_path (d ∷ codes "info" ∷ codes "exclude" ∷ []) ∷ []

-- the keys of a map with both entries
abbrev pub add_path : List Bytes → List Bytes → List Bytes
add_path (p ∷ []) (q ∷ []) = if bytes_eq p q then p ∷ [] else p ∷ q ∷ []
add_path ps qs = ps ++ qs

-- `excludePaths`; the order of its `range` is any, here git's before jj's
unfoldable pub exclude_paths : Host → Bytes → List Bytes
exclude_paths h cwd =
    add_path (exclude_of (resolve_git_dir h cwd)) (exclude_of (resolve_jj_git_store h cwd))

-- a copy that is written and the bind that shows it
abbrev pub Copy : Type 0
Copy = Bind × Bytes

abbrev pub add_copy : Bind → Option Bytes → Option (List Copy) → Option (List Copy)
add_copy b none rest = none
add_copy b (some out) none = none
add_copy b (some out) (some copies) = some ((b, out) ∷ copies)

-- the loop, from the number `i`; `read` is `os.ReadFile`, `decimal` prints a number, and `none` is an
-- error
unfoldable pub copies_from :
    (Bytes → File) → (ℕ → Bytes) → Bytes → Bytes → ℕ → List Bytes → Option (List Copy)
copies_from read decimal out_dir pattern i [] = some []
copies_from read decimal out_dir pattern i (p ∷ paths) =
    add_copy (bind_to (join_path (out_dir ∷ (codes "exclude" ++ decimal i) ∷ [])) p)
      (write_exclude_copy pattern (read p)) (copies_from read decimal out_dir pattern (suc i) paths)

-- `vcsExcludeBinds(cwd, outDir, pattern)`, where making the directory and writing succeed
unfoldable pub vcs_exclude_binds :
    Host → (Bytes → File) → (ℕ → Bytes) → Bytes → Bytes → Bytes → Option (List Copy)
vcs_exclude_binds h read decimal cwd out_dir pattern =
    copies_from read decimal out_dir pattern 1 (exclude_paths h cwd)
