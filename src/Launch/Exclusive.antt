-- ===== src/Launch/Exclusive.antt =====
-- main.go, `mainErr`, and session.go: what --exclusive decides, and the registration of a session.
pub mod Decided
use runclaude.Prelude.{
  ℕ, Bool, true, false, not, ◌&&◌, ◌||◌, List, [], ◌∷◌, ◌++◌, Option, none, some, map, length,
  if◌then◌else◌,
}
use runclaude.Text.{Bytes, codes, bytes_eq, is_empty, has_prefix}
use runclaude.Filepath.{join_path}
use runclaude.Session.{SessionInfo}
use runclaude.Launch.Binds.{Host}

-- how the start goes on: an error in the flag, `runApprove`, an exit with status 1 because of so many
-- other sessions, the report that the directory is free, or the start
pub data Decision : Type 0 where
  bad_flag : Decision
  approve_command : Decision
  exit_busy : ℕ → Decision
  report_free : Decision
  start : Decision

-- the tests of --exclusive and --approve, with the other live sessions of the directory
unfoldable pub decide : Bytes → Bool → List SessionInfo → Decision
decide exclusive approve others =
    let is_probe = bytes_eq exclusive (codes "probe") in
    let is_yes = bytes_eq exclusive (codes "yes") in
    if not (bytes_eq exclusive (codes "no") || is_yes || is_probe)
    then bad_flag
    else if approve
    then approve_command
    else if is_probe
    then (if is_empty others then report_free else exit_busy (length others))
    else if is_yes && not (is_empty others)
    then exit_busy (length others)
    else start

-- the first descriptor that leads to a terminal; `readlink` is `os.Readlink` of /proc/self/fd/…
unfoldable pub tty_of : (Bytes → Option Bytes) → List Bytes → Bytes
tty_of readlink [] = []
tty_of readlink (fd ∷ fds) =
    let rest = tty_of readlink fds in
    elim (readlink (codes "/proc/self/fd/" ++ fd)) [
      | none ↦ rest
      | some name ↦
          if has_prefix name (codes "/dev/pts/") || has_prefix name (codes "/dev/tty")
          then name
          else rest
    ]

-- the first of the hints that is set
unfoldable pub title_of : (Bytes → Bytes) → List Bytes → Bytes
title_of getenv [] = []
title_of getenv (k ∷ ks) =
    let rest = title_of getenv ks in
    if not (is_empty (getenv k)) then k ++ (codes "=" ++ getenv k) else rest

-- `currentSessionInfo(command, approveURL)`
unfoldable pub current_session_info :
    (Bytes → Option Bytes) → (Bytes → Bytes) → ℕ → List Bytes → Bytes → SessionInfo
current_session_info readlink getenv pid command approve_url = record {
  pid = pid;
  tty = tty_of readlink (codes "0" ∷ codes "1" ∷ codes "2" ∷ []);
  term = getenv (codes "TERM_PROGRAM");
  tmux_pane = getenv (codes "TMUX_PANE");
  title = title_of getenv (
      codes "GNOME_TERMINAL_SCREEN"
      ∷ codes "WEZTERM_PANE"
      ∷ codes "KITTY_WINDOW_ID"
      ∷ codes "WINDOWID"
      ∷ codes "TERM_TITLE"
      ∷ []);
  command = command;
  approve_url = approve_url;
}

-- what `registerSession` does: a warning about so many other sessions, and the file that it writes and
-- that its cleanup removes
pub record Registered : Type 0 where
  pub warned : ℕ
  pub wrote : Option (Bytes × Bytes)
  pub removes : Option Bytes

-- `registerSession(cacheDir, command, approveURL)`, on the session's own record; `mkdir` and `writes`
-- tell whether making the directory and writing succeed
unfoldable pub register_session :
    (ℕ → Bytes)
    → (SessionInfo → Bytes)
    → Bool
    → Bool
    → Bytes
    → List SessionInfo
    → SessionInfo
    → Registered
register_session decimal encode mkdir writes cache_dir others self =
    let path =
      join_path (
        join_path (cache_dir ∷ codes "sessions" ∷ []) ∷ (decimal self.pid ++ codes ".json") ∷ []) in
    if not mkdir then record { warned = 0; wrote = none; removes = none } else record {
      warned = length others;
      wrote = if writes then some (path, encode self) else none;
      removes = some path;
    }

-- the errno of `syscall.Kill(pid, 0)`, and `processAlive(pid)`
pub data Errno : Type 0 where
  ok eperm esrch einval : Errno

unfoldable pub process_alive : Errno → Bool
process_alive ok = true
process_alive eperm = true
process_alive _ = false
