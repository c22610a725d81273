-- ===== src/Session/Approve.antt =====
-- session.go, `postApprove` and the loops of `runApprove`, against the approval servers of the sessions.
-- How a URL leads to a server and a path is a parameter, as in package `net/http`; a server is the
-- approver that it serves.
pub mod Granted
pub mod Command
use runclaude.Prelude.{
  ℕ, suc, ◌+◌, Bool, true, false, not, ◌||◌, ◌==◌, List, [], ◌∷◌, ◌++◌, Option, none, some,
  if◌then◌else◌,
}
use runclaude.Text.{Bytes, codes}
use runclaude.Dict.{Dict, lookup, insert}
use runclaude.Mountinfo.{trim_slashes}
use runclaude.Proxy.Approver.{
  Approver, Request, serve_http, Response, method_not_allowed, see_other, index, not_found,
}
use runclaude.Session.{SessionInfo}

-- the approval servers, by address
abbrev pub Servers : Type 0
Servers = Dict Approver

-- the status that the client sees: it follows the redirect to the page, which is 200
unfoldable pub final_status : Response → ℕ
final_status method_not_allowed = 405
final_status see_other = 200
final_status index = 200
final_status not_found = 404

-- the status that `postApprove` accepts
abbrev pub accepted : Option ℕ → Bool
accepted none = false
accepted (some status) = status == 200 || status == 303

abbrev pub approve_url_of : Bytes → Bytes
approve_url_of base = trim_slashes base ++ codes "/approve"

module _ (route : Bytes → Bytes × Bytes) where
  abbrev pub answer : Bytes → Servers → Approver × Response → Servers × Option ℕ
  answer addr servers (ap, response) = (insert addr ap servers, some (final_status response))

  abbrev pub at_server : Bytes → Bytes → Bytes → ℕ → Servers → Option Approver → Servers × Option ℕ
  at_server addr path host now servers none = (servers, none)
  at_server addr path host now servers (some ap) =
      answer addr servers
        (serve_http (record { path = path; method = codes "POST"; form_host = host }) now ap)

  -- `http.PostForm(u, url.Values{"host": {host}})`; `none` where no server answers
  unfoldable pub post_form : Bytes → Bytes → ℕ → Servers → Servers × Option ℕ
  post_form u host now servers =
      at_server ((route u).0) ((route u).1) host now servers (lookup ((route u).0) servers)

  -- `postApprove(baseURL, host)`
  unfoldable pub post_approve : Bytes → Bytes → ℕ → Servers → Servers × Bool
  post_approve base host now servers =
      let r = post_form (approve_url_of base) host now servers in (r.0, accepted (r.1))

  -- the inner loop of `runApprove`: the servers, and `failed`
  unfoldable pub approve_hosts : Bytes → List Bytes → ℕ → Servers × ℕ → Servers × ℕ
  approve_hosts base [] now s = s
  approve_hosts base (h ∷ hosts) now (servers, failed) =
      let r = post_approve base h now servers in
      approve_hosts base hosts now (r.0, if r.1 then failed else suc failed)

  -- the outer loop
  unfoldable pub approve_sessions : List SessionInfo → List Bytes → ℕ → Servers × ℕ → Servers × ℕ
  approve_sessions [] hosts now s = s
  approve_sessions (i ∷ sessions) hosts now s =
      approve_sessions sessions hosts now (approve_hosts i.approve_url hosts now s)
