-- ===== src/Proxy/Approver/Effects.antt =====
-- What each operation of the approver does to the entry under a key, and to the allowlist.
use runclaude.Prelude.{ℕ, ◌≡◌, ◌⊎◌, Bool, ◌&&◌, none, some, arith, if◌then◌else◌}
use runclaude.Text.{Bytes, codes, bytes_eq, is_empty, trim_space}
use runclaude.Text.Case.{to_lower_idem, trim_space_idem, trim_space-to_lower}
use runclaude.Dict.{lookup, lookup-insert, lookup-delete}
use runclaude.Proxy.Allowlist.{allow_all_for}
use runclaude.Proxy.Approver.{
  Approver, host_key, entry_for, record_denial, approve, Request, serve_http, allow_all_window,
}

pub host_key_idem : (host : Bytes) → host_key (host_key host) ≡ host_key host
host_key_idem host = rw trim_space-to_lower (rw to_lower_idem (rw trim_space_idem))

pub trim_space-host_key : (host : Bytes) → trim_space (host_key host) ≡ host_key host
trim_space-host_key host = rw trim_space-to_lower (rw trim_space_idem)

pub lookup-record_denial :
    (host key : Bytes) (t : ℕ) (ap : Approver)
    → lookup key (record_denial host t ap).denied ≡ (
        if is_empty (host_key host)
        then lookup key ap.denied
        else if bytes_eq (host_key host) key
        then some (entry_for (host_key host) t (lookup (host_key host) ap.denied))
        else lookup key ap.denied)
unfolding record_denial
lookup-record_denial host key t ap = ground (
  arith,
  lookup-insert (host_key host) key (entry_for (host_key host) t (lookup (host_key host) ap.denied))
      ap.denied,
)

pub lookup-approve :
    (host key : Bytes) (ap : Approver)
    → lookup key (approve host ap).0.denied ≡ (
        if is_empty (host_key host)
        then lookup key ap.denied
        else if bytes_eq (host_key host) key
        then none
        else lookup key ap.denied)
unfolding approve
lookup-approve host key ap = ground (arith, lookup-delete (host_key host) key ap.denied)

-- `r` is a POST to /approve.
abbrev pub asks_approve : Request → Bool
asks_approve r = bytes_eq r.path (codes "/approve") && bytes_eq r.method (codes "POST")

pub lookup-serve_http :
    (r : Request) (key : Bytes) (t : ℕ) (ap : Approver)
    → lookup key (serve_http r t ap).0.denied ≡ (
        if asks_approve r
        then lookup key (approve r.form_host ap).0.denied
        else lookup key ap.denied)
unfolding serve_http
lookup-serve_http r key t ap = ground arith

-- The three ways in which a request leaves the approver.
pub serve_http_cases :
    (r : Request) (t : ℕ) (ap : Approver)
    → ((serve_http r t ap).0 ≡ ap)
      ⊎ (((serve_http r t ap).0 ≡ (approve r.form_host ap).0)
          ⊎ ((serve_http r t ap).0
              ≡ record ap { allow = allow_all_for t allow_all_window ap.allow }))
unfolding serve_http
serve_http_cases r t ap = ground arith
