-- ===== src/Session.antt =====
-- session.go: the registry of the sessions of one directory, and `runclaude --approve`. What a file
-- decodes to, which processes live and what a post returns are parameters; a PID is a natural number.
pub mod Live
pub mod Approve
use runclaude.Prelude.{
  ℕ, suc, ◌+◌, Bool, true, false, not, ◌&&◌, ◌||◌, List, [], ◌∷◌, ◌++◌, Option, none, some, map,
  ltb, ◌==◌, if◌then◌else◌, length,
}
use runclaude.Text.{Bytes, codes, has_suffix, join, is_empty}

-- `sessionInfo`
pub record SessionInfo : Type 0 where
  pub pid : ℕ
  pub tty : Bytes
  pub term : Bytes
  pub tmux_pane : Bytes
  pub title : Bytes
  pub command : List Bytes
  pub approve_url : Bytes

abbrev pub part : Bool → Bytes → List Bytes
part true p = p ∷ []
part false p = []

-- `s.describe()`; `decimal` prints a number and `quote` is the verb `%q`
unfoldable pub describe : (ℕ → Bytes) → (Bytes → Bytes) → SessionInfo → Bytes
unfolding join
describe decimal quote s = join (codes ", ") (
    (codes "pid " ++ decimal s.pid)
    ∷ (part (not (is_empty s.tty)) s.tty
        ++ (part (not (is_empty s.tmux_pane)) (codes "tmux " ++ s.tmux_pane)
            ++ ((if not (is_empty s.title)
                  then quote s.title ∷ []
                  else part (not (is_empty s.term)) s.term)
                ++ part (not (is_empty s.command))
                    (codes "running " ++ join (codes " ") s.command)))))

-- an entry of the directory; `contents` is `none` where the file is not read
pub record DirEntry : Type 0 where
  pub name : Bytes
  pub is_dir : Bool
  pub contents : Option Bytes

-- what is done with an entry
pub data Verdict : Type 0 where
  skip : Verdict
  remove : Verdict
  keep : SessionInfo → Verdict

module _ (decode : Bytes → Option SessionInfo) (alive : ℕ → Bool) (self : ℕ) where
  abbrev pub judge_decoded : Option SessionInfo → Verdict
  judge_decoded none = remove
  judge_decoded (some s) =
      if s.pid == 0
      then remove
      else if s.pid == self
      then skip
      else if not (alive s.pid)
      then remove
      else keep s

  abbrev pub judge_contents : Option Bytes → Verdict
  judge_contents none = skip
  judge_contents (some b) = judge_decoded (decode b)

  -- the body of the loop
  unfoldable pub judge : DirEntry → Verdict
  unfolding has_suffix
  judge e =
      if e.is_dir || not (has_suffix e.name (codes ".json"))
      then skip
      else judge_contents e.contents

  abbrev pub add_verdict :
      Bytes → Verdict → List SessionInfo × List Bytes → List SessionInfo × List Bytes
  add_verdict name skip out = out
  add_verdict name remove (live, removed) = (live, name ∷ removed)
  add_verdict name (keep s) (live, removed) = (s ∷ live, removed)

  -- `liveSessions(dir)`: the sessions, and the files removed
  unfoldable pub live_sessions : List DirEntry → List SessionInfo × List Bytes
  unfolding judge
  live_sessions [] = ([], [])
  live_sessions (e ∷ es) = add_verdict e.name (judge e) (live_sessions es)

-- the sessions with an approval page
unfoldable pub approvable : List SessionInfo → List SessionInfo
approvable [] = []
approvable (s ∷ ss) =
    let rest = approvable ss in if not (is_empty s.approve_url) then s ∷ rest else rest

-- what `runApprove` ends with
pub data ApproveResult : Type 0 where
  no_session : ApproveResult
  urls : List SessionInfo → ApproveResult
  some_failed : ℕ → ApproveResult
  approved : ℕ → ApproveResult

-- `post url host` tells whether `postApprove` returns nil
module _ (post : Bytes → Bytes → Bool) where
  -- the inner loop: the calls that fail
  unfoldable pub failed_at : Bytes → List Bytes → ℕ
  failed_at url [] = 0
  failed_at url (h ∷ hs) = let rest = failed_at url hs in if post url h then rest else suc rest

  unfoldable pub failed_posts : List SessionInfo → List Bytes → ℕ
  unfolding failed_at
  failed_posts [] hosts = 0
  failed_posts (s ∷ ss) hosts = failed_at s.approve_url hosts + failed_posts ss hosts

  -- `runApprove(cacheDir, hosts)`, on the live sessions
  unfoldable pub run_approve : List SessionInfo → List Bytes → ApproveResult
  unfolding approvable failed_posts
  run_approve live hosts =
      let sessions = approvable live in
      if is_empty sessions
      then no_session
      else if is_empty hosts
      then urls sessions
      else if ltb 0 (failed_posts sessions hosts)
      then some_failed (failed_posts sessions hosts)
      else approved (length sessions)
