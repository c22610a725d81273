-- ===== src/Session/Live.antt =====
-- session.go: which sessions are listed, which files go, and when an approval is reported.
use runclaude.Prelude.{
  ◌≡◌, ◌↔◌, ◌≢◌, refl, sym, ℕ, Bool, true, List, [], ◌∷◌, Option, none, some, ==_iff, length, arith,
  All,
}
use runclaude.Text.{Bytes}
use runclaude.Session.{
  SessionInfo, DirEntry, Verdict, skip, remove, keep, judge_decoded, judge_contents, judge,
  add_verdict, live_sessions, approvable, approved, failed_at, failed_posts, run_approve,
}

-- a session of another process that lives
abbrev pub IsLive : (ℕ → Bool) → ℕ → SessionInfo → Type 0
IsLive alive self s = (alive s.pid ≡ true) × (s.pid ≢ self) × (s.pid ≢ 0)

module _ (decode : Bytes → Option SessionInfo) (alive : ℕ → Bool) (self : ℕ) where
  judge_decoded-IsLive :
      (o : Option SessionInfo) (s : SessionInfo)
      → judge_decoded decode alive self o ≡ keep s
      → IsLive alive self s
  judge_decoded-IsLive none s h = cc
  judge_decoded-IsLive (some r) s h =
      let same : keep r ≡ keep s = ground (arith, h) in
      let found : r ≡ s = cc in
      let live : IsLive alive self r = (
        ground (arith, h),
        ground (arith, h, ==_iff r.pid self),
        ground (arith, h, ==_iff r.pid 0),
      ) in
      rw (sym found) live

  judge-IsLive :
      (e : DirEntry) (s : SessionInfo) → judge decode alive self e ≡ keep s → IsLive alive self s
  unfolding judge
  judge-IsLive e s h = contents-live e.contents (ground (arith, h))
    where
      contents-live :
          (c : Option Bytes) → judge_contents decode alive self c ≡ keep s → IsLive alive self s
      contents-live none h = cc
      contents-live (some b) h = judge_decoded-IsLive (decode b) s h

  add_verdict-IsLive :
      (name : Bytes) (v : Verdict) (out : List SessionInfo × List Bytes)
      → ((s : SessionInfo) → v ≡ keep s → IsLive alive self s)
      → All (IsLive alive self) (out.0)
      → All (IsLive alive self) ((add_verdict decode alive self name v out).0)
  add_verdict-IsLive name skip out h rest = rest
  add_verdict-IsLive name remove out h rest = rest
  add_verdict-IsLive name (keep s) out h rest = (h s refl, rest)

  -- Every session that `liveSessions` returns is of a living process, which is not this one and
  -- not process 0.
  pub live_sessions-IsLive :
      (es : List DirEntry) → All (IsLive alive self) ((live_sessions decode alive self es).0)
  unfolding live_sessions
  live_sessions-IsLive [] = tt
  live_sessions-IsLive (e ∷ es) =
      add_verdict-IsLive e.name (judge decode alive self e) (live_sessions decode alive self es)
        (judge-IsLive e) (live_sessions-IsLive es)

module _ (post : Bytes → Bytes → Bool) where
  failed_at-none :
      (url : Bytes) (hosts : List Bytes)
      → (failed_at post url hosts ≡ 0) ↔ All (λ h. post url h ≡ true) hosts
  unfolding failed_at
  failed_at-none url [] = (λ h. tt, λ h. refl)
  failed_at-none url (h ∷ hs) =
      let below = failed_at-none url hs in
      (λ e. (ground (arith, e), below.0 (ground (arith, e))), λ p. ground (arith, p.0, below.1 p.1))

  failed_posts-none :
      (ss : List SessionInfo) (hosts : List Bytes)
      → (failed_posts post ss hosts ≡ 0)
        ↔ All (λ s. All (λ h. post s.approve_url h ≡ true) hosts) ss
  unfolding failed_posts
  failed_posts-none [] hosts = (λ h. tt, λ h. refl)
  failed_posts-none (s ∷ ss) hosts =
      let here = failed_at-none s.approve_url hosts in
      let below = failed_posts-none ss hosts in
      (
        λ e. (here.0 (omega (arith, e)), below.0 (omega (arith, e))),
        λ p. omega (arith, here.1 p.0, below.1 p.1),
      )

  -- If `runApprove` reports success on a number of sessions, that is the number of live sessions
  -- with an approval page, and every host was approved at each of them.
  pub run_approve-approved :
      (live : List SessionInfo) (hosts : List Bytes) (n : ℕ)
      → run_approve post live hosts ≡ approved n
      → (length (approvable live) ≡ n)
        × All (λ s. All (λ h. post s.approve_url h ≡ true) hosts) (approvable live)
  unfolding run_approve
  run_approve-approved live hosts n h =
      let none_failed : failed_posts post (approvable live) hosts ≡ 0 = ground (arith, h) in
      (ground (arith, h), (failed_posts-none (approvable live) hosts).0 none_failed)
