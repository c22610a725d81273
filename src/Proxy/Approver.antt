-- ===== src/Proxy/Approver.antt =====
-- proxy/approval.go: the record of denied hosts and the handler of the approval page. `denied` is a
-- map from host to entry. `Record` holds `ap.mu` throughout; `Approve` takes it for the record alone,
-- and is one step here.
pub mod Effects
pub mod Invariant
pub mod History
pub mod Denied
pub mod Routes
use runclaude.Prelude.{
  ℕ, ◌+◌, ◌*◌, Bool, true, false, List, [], ◌∷◌, Option, none, some, map, ltb, if◌then◌else◌,
}
use runclaude.Text.{Bytes, codes, bytes_eq, is_empty, to_lower, trim_space}
use runclaude.Dict.{Dict, lookup, insert, delete}
use runclaude.Proxy.Allowlist.{Allowlist, allow_all_for, add}

-- `DeniedEntry`
pub record DeniedEntry : Type 0 where
  pub host : Bytes
  pub count : ℕ
  pub first : ℕ
  pub last : ℕ

-- `Approver`, without its logger
pub record Approver : Type 0 where
  pub allow : Allowlist
  pub denied : Dict DeniedEntry

-- `NewApprover(allow)`
abbrev pub new_approver : Allowlist → Approver
new_approver allow = record { allow = allow; denied = [] }

-- the key under which a host is kept
abbrev pub host_key : Bytes → Bytes
host_key host = to_lower (trim_space host)

abbrev pub entry_for : Bytes → ℕ → Option DeniedEntry → DeniedEntry
entry_for host now none = record { host = host; count = 1; first = now; last = now }
entry_for host now (some e) = record e { count = e.count + 1; last = now }

record_key : Bytes → ℕ → Approver → Approver
record_key host now ap =
    if is_empty host
    then ap
    else record ap { denied = insert host (entry_for host now (lookup host ap.denied)) ap.denied }

-- `Record(host)` at the time `now`
unfoldable pub record_denial : Bytes → ℕ → Approver → Approver
unfolding record_key
record_denial host = record_key (host_key host)

approve_key : Bytes → Approver → Approver × Bool
approve_key host ap =
    if is_empty host
    then (ap, false)
    else (record { allow = (add host ap.allow).0; denied = delete host ap.denied }, true)

-- `Approve(host)`
unfoldable pub approve : Bytes → Approver → Approver × Bool
unfolding approve_key
approve host = approve_key (host_key host)

abbrev pub entries : Dict DeniedEntry → List DeniedEntry
entries = map (λ e. e.1)

-- `sort.Slice` by `out[i].Last.After(out[j].Last)`
insert_by_last : DeniedEntry → List DeniedEntry → List DeniedEntry
insert_by_last e [] = e ∷ []
insert_by_last e (d ∷ ds) = if ltb e.last d.last then d ∷ insert_by_last e ds else e ∷ d ∷ ds

sort_by_last : List DeniedEntry → List DeniedEntry
unfolding insert_by_last
sort_by_last [] = []
sort_by_last (e ∷ es) = insert_by_last e (sort_by_last es)

-- `Denied()`
unfoldable pub denied_entries : Approver → List DeniedEntry
unfolding sort_by_last
denied_entries ap = sort_by_last (entries ap.denied)

-- `allowAllWindow`, in nanoseconds
abbrev pub allow_all_window : ℕ
allow_all_window = 15 * 60 * 1_000_000_000

pub data Response : Type 0 where
  method_not_allowed see_other index not_found : Response

pub record Request : Type 0 where
  pub path : Bytes
  pub method : Bytes
  -- `r.FormValue("host")`
  pub form_host : Bytes

-- `ServeHTTP` at the time `now`
unfoldable pub serve_http : Request → ℕ → Approver → Approver × Response
unfolding bytes_eq
serve_http r now ap =
    if bytes_eq r.path (codes "/approve")
    then (if bytes_eq r.method (codes "POST")
        then ((approve r.form_host ap).0, see_other)
        else (ap, method_not_allowed))
    else if bytes_eq r.path (codes "/allow-all")
    then (if bytes_eq r.method (codes "POST")
        then (record ap { allow = allow_all_for now allow_all_window ap.allow }, see_other)
        else (ap, method_not_allowed))
    else if bytes_eq r.path (codes "/")
    then (ap, index)
    else (ap, not_found)
