-- ===== src/Session/Approve/Granted.antt =====
-- session.go and proxy/approval.go: what `runclaude --approve` changes at the sessions' servers.
use runclaude.Prelude.{
  ◌≡◌, sym, ap, ◌∙◌, ℕ, Bool, true, false, Option, none, some, arith, Bool-cases, Option-cases, inl,
  inr,
}
use runclaude.Text.{Bytes, codes, bytes_eq, is_empty}
use runclaude.Text.Equality.{bytes_eq_iff, bytes_eq_refl}
use runclaude.Dict.{lookup, insert, lookup-insert, is_some}
use runclaude.Proxy.Allowlist.{allows}
use runclaude.Proxy.Allowlist.Laws.{allows-add, allows-add_mono}
use runclaude.Proxy.Approver.{Approver, host_key, approve, serve_http}
use runclaude.Proxy.Approver.Effects.{trim_space-host_key}
use runclaude.Session.{SessionInfo}
use runclaude.Session.Approve.{Servers, final_status, post_form, approve_url_of}

abbrev allowing : ℕ → Bytes → Option Approver → Bool
allowing now host none = false
allowing now host (some a) = allows now a.allow host

-- the server at an address allows a host
abbrev pub Allowed : ℕ → Bytes → Bytes → Servers → Type 0
Allowed now addr host servers = allowing now host (lookup addr servers) ≡ true

approve_mono :
    (now : ℕ) (host h : Bytes) (a : Approver)
    → allows now a.allow h ≡ true
    → allows now (approve host a).0.allow h ≡ true
unfolding approve
approve_mono now host h a k = ground (arith, k, allows-add_mono (host_key host) h a.allow now)

approve-grants :
    (now : ℕ) (host : Bytes) (a : Approver)
    → is_empty (host_key host) ≡ false
    → allows now (approve host a).0.allow (host_key host) ≡ true
unfolding approve
approve-grants now host a filled = rw filled (
    rw (trim_space-host_key host) at
      (allows-add (host_key host) a.allow now (rw (trim_space-host_key host) filled)))

module _ (route : Bytes → Bytes × Bytes) (now : ℕ) where
  -- a session whose URL leads to `/approve` at a server that is there
  abbrev pub Serves : Servers → SessionInfo → Type 0
  Serves servers s =
      ((route (approve_url_of s.approve_url)).1 ≡ codes "/approve")
      × (is_some (lookup (route (approve_url_of s.approve_url)).0 servers) ≡ true)

  pub post_form-served :
      (u host : Bytes) (servers : Servers) {a : Approver}
      → (route u).1 ≡ codes "/approve"
      → lookup (route u).0 servers ≡ some a
      → post_form route u host now servers
        ≡ (insert (route u).0 (approve host a).0 servers, some 200)
  unfolding post_form serve_http final_status bytes_eq
  post_form-served u host servers path e = rw e (rw path)

  post_form-unserved :
      (u host : Bytes) (servers : Servers)
      → lookup (route u).0 servers ≡ none
      → post_form route u host now servers ≡ (servers, none)
  unfolding post_form
  post_form-unserved u host servers e = rw e

  insert_mono :
      (at addr h : Bytes) (host : Bytes) (servers : Servers) {a : Approver}
      → lookup at servers ≡ some a
      → Allowed now addr h servers
      → Allowed now addr h (insert at (approve host a).0 servers)
  insert_mono at addr h host servers {a} e k =
      rw (lookup-insert at addr (approve host a).0 servers) (elim (Bool-cases (bytes_eq at addr)) [
        | inr f ↦ rw f k
        | inl f ↦
            let same : lookup addr servers ≡ some a =
              ap (λ x. lookup x servers) (sym ((bytes_eq_iff at addr).0 f)) ∙ e in
            rw f (approve_mono now host h a (rw same at k))
      ])

  pub post_form_mono :
      (u host addr h : Bytes) (servers : Servers)
      → (route u).1 ≡ codes "/approve"
      → Allowed now addr h servers
      → Allowed now addr h (post_form route u host now servers).0
  post_form_mono u host addr h servers path k = elim (Option-cases (lookup (route u).0 servers)) [
    | inl e ↦ rw (post_form-unserved u host servers e) k
    | inr (a, e) ↦
        rw (post_form-served u host servers path e)
          (insert_mono (route u).0 addr h host servers e k)
  ]

  pub post_form-grants :
      (u host : Bytes) (servers : Servers) {a : Approver}
      → (route u).1 ≡ codes "/approve"
      → lookup (route u).0 servers ≡ some a
      → is_empty (host_key host) ≡ false
      → Allowed now (route u).0 (host_key host) (post_form route u host now servers).0
  post_form-grants u host servers {a} path e filled = rw (post_form-served u host servers path e) (
      rw (lookup-insert (route u).0 (route u).0 (approve host a).0 servers)
        (rw (bytes_eq_refl (route u).0) (approve-grants now host a filled)))

  -- a server that is there stays there
  pub post_form-there :
      (u host addr : Bytes) (servers : Servers)
      → (route u).1 ≡ codes "/approve"
      → is_some (lookup addr servers) ≡ true
      → is_some (lookup addr (post_form route u host now servers).0) ≡ true
  post_form-there u host addr servers path k = elim (Option-cases (lookup (route u).0 servers)) [
    | inl e ↦ rw (post_form-unserved u host servers e) k
    | inr (a, e) ↦ rw (post_form-served u host servers path e) (
        rw (lookup-insert (route u).0 addr (approve host a).0 servers)
          (elim (Bool-cases (bytes_eq (route u).0 addr)) [ inl f ↦ rw f | inr f ↦ rw f k ]))
  ]
