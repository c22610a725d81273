-- ===== src/Tests/Projects.antt =====
-- The trust mark and the approval command at concrete inputs.
use runclaude.Prelude.{some, ◌≡◌, ◌&&◌, ◌||◌, refl, true, List, [], ◌∷◌, none, All, if◌then◌else◌}
use runclaude.Text.{Bytes, codes, bytes_eq, has_suffix, trim_suffix, trim_space, to_lower}
use runclaude.Mountinfo.{trim_slashes}
use runclaude.Dict.{Dict, lookup, insert}
use runclaude.Json.{Json, bool, num, object, as_map}
use runclaude.Trust.{is_true, is_trusted, trust_project, trust_root}
use runclaude.Trust.Marked.{project, trust_root-marks}
use runclaude.Proxy.Allowlist.{new_allowlist}
use runclaude.Proxy.Approver.{host_key, new_approver}
use runclaude.Session.{SessionInfo}
use runclaude.Session.Approve.{Servers, approve_sessions}
use runclaude.Session.Approve.Granted.{Allowed}
use runclaude.Session.Approve.Command.{address, approve_sessions-granted}

-- a file with one project, that is half trusted
abbrev half : Dict Json
half = (codes "hasTrustDialogAccepted", bool true) ∷ []

abbrev root : Dict Json
root =
    (codes "numStartups", num (codes "3"))
    ∷ (codes "projects", object ((codes "/w", object half) ∷ []))
    ∷ []

abbrev marked : Dict Json
marked =
    (codes "numStartups", num (codes "3"))
    ∷ (
      codes "projects",
      object (
          (
            codes "/w",
            object (
                (codes "hasTrustDialogAccepted", bool true)
                ∷ (codes "hasCompletedProjectOnboarding", bool true)
                ∷ []),
          )
          ∷ []),
    )
    ∷ []

trust_root-marks_example :
    (trust_root (codes "/w") marked ≡ none)
    × (lookup (codes "allowedTools") (project (codes "/w") marked) ≡ (
        if bytes_eq (codes "/w") (codes "/w")
          && (bytes_eq (codes "hasTrustDialogAccepted") (codes "allowedTools")
              || bytes_eq (codes "hasCompletedProjectOnboarding") (codes "allowedTools"))
        then some (bool true)
        else lookup (codes "allowedTools") (project (codes "/w") root)))
    × (lookup (codes "numStartups") marked ≡ lookup (codes "numStartups") root)
unfolding trust_root is_trusted trust_project is_true as_map lookup insert bytes_eq
trust_root-marks_example =
    trust_root-marks (codes "/w") (codes "/w") (codes "allowedTools") (codes "numStartups") root
      refl refl

-- a URL leads to the server of its front, and to `/approve`
abbrev route : Bytes → Bytes × Bytes
route u =
    if has_suffix u (codes "/approve")
    then (trim_suffix u (codes "/approve"), codes "/approve")
    else (u, [])

abbrev session : SessionInfo
session = record {
  pid = 7;
  tty = [];
  term = [];
  tmux_pane = [];
  title = [];
  command = [];
  approve_url = codes "http://127.0.0.1:99";
}

abbrev servers : Servers
servers = (codes "http://127.0.0.1:99", new_approver (new_allowlist [])) ∷ []

abbrev hosts : List Bytes
hosts = codes "Example.org " ∷ []

approve_sessions-granted_example :
    ((approve_sessions route (session ∷ []) hosts 5 (servers, 0)).1 ≡ 0)
    × All
        (λ i.
          All
            (λ h.
              Allowed 5
                (address route 5 i)
                (host_key h)
                (approve_sessions route (session ∷ []) hosts 5 (servers, 0)).0)
            hosts)
        (session ∷ [])
unfolding has_suffix lookup trim_suffix trim_space trim_slashes to_lower
approve_sessions-granted_example =
    approve_sessions-granted route 5 (session ∷ []) hosts servers 0 ((refl, refl), tt) (refl, tt)
