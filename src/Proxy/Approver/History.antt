-- ===== src/Proxy/Approver/History.antt =====
-- The record of denials against the history of calls, and approvals that last.
use runclaude.Prelude.{
  ℕ, ◌≡◌, refl, ap, inl, inr, true, false, ◌&&◌, List, [], ◌∷◌, Option, none, some, arith,
  Bool-cases, length, if◌then◌else◌, ◌∙◌,
}
use runclaude.Text.{Bytes, bytes_eq, is_empty}
use runclaude.Text.Equality.{bytes_eq_iff}
use runclaude.Dict.{lookup}
use runclaude.Proxy.Allowlist.{Allowlist, allows, allow_all_for}
use runclaude.Proxy.Allowlist.Laws.{allows-add, allows-add_mono}
use runclaude.Proxy.Approver.{
  DeniedEntry, Approver, host_key, entry_for, record_denial, approve, Request, serve_http,
  new_approver, allow_all_window,
}
use runclaude.Proxy.Approver.Effects.{
  lookup-record_denial, lookup-approve, asks_approve, lookup-serve_http, serve_http_cases,
  trim_space-host_key,
}

pub data Event : Type 0 where
  deny : Bytes → ℕ → Event
  serve : Request → ℕ → Event

-- The calls in the order of time reversed: the latest stands first.
unfoldable pub run : List Event → Approver → Approver
run [] ap = ap
run (deny host t ∷ es) ap = record_denial host t (run es ap)
run (serve r t ∷ es) ap = (serve_http r t (run es ap)).0

-- The times at which `key` was denied since it was last approved, the latest first.
abbrev pub since : Bytes → List Event → List ℕ
since key [] = []
since key (deny host t ∷ es) =
    let before = since key es in if bytes_eq (host_key host) key then t ∷ before else before
since key (serve r t ∷ es) =
    let before = since key es in
    if asks_approve r && bytes_eq (host_key r.form_host) key then [] else before

abbrev pub oldest : ℕ → List ℕ → ℕ
oldest t [] = t
oldest t (u ∷ us) = oldest u us

abbrev pub entry_of : Bytes → List ℕ → Option DeniedEntry
entry_of key [] = none
entry_of key (t ∷ ts) =
    some (record { host = key; count = length (t ∷ ts); first = oldest t ts; last = t })

entry_for-entry_of :
    (key : Bytes) (t : ℕ) (ts : List ℕ)
    → some (entry_for key t (entry_of key ts)) ≡ entry_of key (t ∷ ts)
entry_for-entry_of key t [] = refl
entry_for-entry_of key t (u ∷ us) = ground arith

module _ (allow : Allowlist) (key : Bytes) (named : is_empty key ≡ false) where
  -- A key that is not empty has an entry exactly if it was denied since it was last approved. The
  -- entry counts those denials, and has the times of the first and the last of them.
  pub lookup-run :
      (es : List Event)
      → lookup key (run es (new_approver allow)).denied ≡ entry_of key (since key es)
  unfolding run
  lookup-run [] = unfold lookup in refl
  lookup-run (deny host t ∷ es) =
      let before = run es (new_approver allow) in
      elim (Bool-cases (bytes_eq (host_key host) key)) [
        | inl same ↦
            let e : host_key host ≡ key = (bytes_eq_iff (host_key host) key).0 same in
            lookup-record_denial host key t before
            ∙ rw (same, e) (rw (named, lookup-run es) (entry_for-entry_of key t (since key es)))
        | inr other ↦ ground (arith, lookup-record_denial host key t before, lookup-run es)
      ]
  lookup-run (serve r t ∷ es) =
      let before = run es (new_approver allow) in
      ground (
        arith,
        lookup-serve_http r key t before,
        lookup-approve r.form_host key before,
        bytes_eq_iff (host_key r.form_host) key,
        lookup-run es,
      )

-- One call keeps what the list allows; a window only grows.
allows-record_denial :
    (host other : Bytes) (t now : ℕ) (ap : Approver)
    → allows now (record_denial host t ap).allow other ≡ allows now ap.allow other
unfolding record_denial
allows-record_denial host other t now ap = ground arith

allows-approve :
    (host other : Bytes) (now : ℕ) (ap : Approver)
    → allows now ap.allow other ≡ true
    → allows now (approve host ap).0.allow other ≡ true
unfolding approve
allows-approve host other now ap h =
    ground (arith, allows-add_mono (host_key host) other ap.allow now h)

allows-window :
    (other : Bytes) (t d now : ℕ) (a : Allowlist)
    → allows now a other ≡ true
    → allows now (allow_all_for t d a) other ≡ true
unfolding allows allow_all_for
allows-window other t d now a h = ground arith

allows-serve_http :
    (r : Request) (other : Bytes) (t now : ℕ) (ap : Approver)
    → allows now ap.allow other ≡ true
    → allows now (serve_http r t ap).0.allow other ≡ true
allows-serve_http r other t now ap h = elim (serve_http_cases r t ap) [
  | inl e ↦ rw e h
  | inr (inl e) ↦ rw e (allows-approve r.form_host other now ap h)
  | inr (inr e) ↦ rw e (allows-window other t allow_all_window now ap.allow h)
]

allows-run :
    (es : List Event) (other : Bytes) (now : ℕ) (ap : Approver)
    → allows now ap.allow other ≡ true
    → allows now (run es ap).allow other ≡ true
unfolding run
allows-run [] other now ap h = h
allows-run (deny host t ∷ es) other now ap h =
    rw allows-record_denial (allows-run es other now ap h)
allows-run (serve r t ∷ es) other now ap h =
    allows-serve_http r other t now (run es ap) (allows-run es other now ap h)

allows-approve_self :
    (host : Bytes) (now : ℕ) (ap : Approver)
    → is_empty (host_key host) ≡ false
    → allows now (approve host ap).0.allow (host_key host) ≡ true
unfolding approve
allows-approve_self host now ap named =
    let p = host_key host in
    rw named (
      rw (trim_space-host_key host) at
        (allows-add p ap.allow now (rw (trim_space-host_key host) named)))

-- A host that was approved is allowed from then on, whatever calls follow and at any time.
pub approve-run :
    (host : Bytes) (es : List Event) (now : ℕ) (ap : Approver)
    → is_empty (host_key host) ≡ false
    → allows now (run es (approve host ap).0).allow (host_key host) ≡ true
approve-run host es now ap named =
    allows-run es (host_key host) now (approve host ap).0 (allows-approve_self host now ap named)
