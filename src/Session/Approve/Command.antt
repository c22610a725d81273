-- ===== src/Session/Approve/Command.antt =====
-- session.go and proxy/approval.go: the whole of `runclaude --approve HOST...`.
use runclaude.Prelude.{
  ◌≡◌, refl, sym, ◌∙◌, ℕ, true, false, List, [], ◌∷◌, Option, none, some, All, All-map,
}
use mathlib.Core.Path.{subst}
use runclaude.Text.{Bytes, codes, is_empty}
use runclaude.Dict.{lookup, is_some}
use runclaude.Proxy.Approver.{host_key}
use runclaude.Session.{SessionInfo}
use runclaude.Session.Approve.{
  Servers, post_form, approve_url_of, post_approve, approve_hosts, approve_sessions,
}
use runclaude.Session.Approve.Granted.{
  Allowed, Serves, post_form-served, post_form_mono, post_form-grants, post_form-there,
}

-- a host that is more than white space
abbrev pub Filled : Bytes → Type 0
Filled host = is_empty (host_key host) ≡ false

module _ (route : Bytes → Bytes × Bytes) (now : ℕ) where
  abbrev pub address : SessionInfo → Bytes
  address i = (route (approve_url_of i.approve_url)).0

  -- no permission is lost, and no server
  record Grows (s s' : Servers) : Type 0 where
    keeps : (addr h : Bytes) → Allowed now addr h s → Allowed now addr h s'
    stays : (addr : Bytes) → is_some (lookup addr s) ≡ true → is_some (lookup addr s') ≡ true

  Grows-refl : (s : Servers) → Grows s s
  Grows-refl s = record { keeps = λ addr h k. k; stays = λ addr k. k }

  Grows-trans : {s t u : Servers} → Grows s t → Grows t u → Grows s u
  Grows-trans f g = record {
    keeps = λ addr h k. g.keeps addr h (f.keeps addr h k);
    stays = λ addr k. g.stays addr (f.stays addr k);
  }

  post_form-Grows :
      (u host : Bytes) (servers : Servers)
      → (route u).1 ≡ codes "/approve"
      → Grows servers (post_form route u host now servers).0
  post_form-Grows u host servers path = record {
    keeps = λ addr h k. post_form_mono route now u host addr h servers path k;
    stays = λ addr k. post_form-there route now u host addr servers path k;
  }

  some_of : {A : Type 0} (o : Option A) → is_some o ≡ true → (a : A) × (o ≡ some a)
  some_of none h = cc
  some_of (some a) h = (a, refl)

  post_approve-accepted :
      (base host : Bytes) (servers : Servers)
      → (route (approve_url_of base)).1 ≡ codes "/approve"
      → is_some (lookup (route (approve_url_of base)).0 servers) ≡ true
      → (post_approve route base host now servers).1 ≡ true
  unfolding post_approve
  post_approve-accepted base host servers path there =
      let (a, e) = some_of (lookup (route (approve_url_of base)).0 servers) there in
      rw (post_form-served route now (approve_url_of base) host servers path e)

  -- an end of the loops, without a failure, at which the server allows the hosts
  abbrev Done : Bytes → List Bytes → ℕ → Servers × ℕ → Type 0
  Done addr hosts failed out =
      (out.1 ≡ failed) × All (λ h. Allowed now addr (host_key h) out.0) hosts

  module _ (i : SessionInfo)
      (path : (route (approve_url_of i.approve_url)).1 ≡ codes "/approve") where
    hosts-Grows :
        (hosts : List Bytes) (servers : Servers) (failed : ℕ)
        → Grows servers (approve_hosts route i.approve_url hosts now (servers, failed)).0
    unfolding approve_hosts post_approve
    hosts-Grows [] servers failed = Grows-refl servers
    hosts-Grows (h ∷ hosts) servers failed =
        Grows-trans (post_form-Grows (approve_url_of i.approve_url) h servers path)
          (hosts-Grows hosts (post_form route (approve_url_of i.approve_url) h now servers).0 _)

    one_more :
        (h : Bytes) (hosts : List Bytes) (servers : Servers) (failed : ℕ)
        → is_some (lookup (address i) servers) ≡ true
        → approve_hosts route i.approve_url (h ∷ hosts) now (servers, failed)
          ≡ approve_hosts route i.approve_url hosts now
              ((post_form route (approve_url_of i.approve_url) h now servers).0, failed)
    unfolding approve_hosts
    one_more h hosts servers failed there =
        rw (post_approve-accepted i.approve_url h servers path there) (unfold post_approve in refl)

    hosts-granted :
        (hosts : List Bytes) (servers : Servers) (failed : ℕ)
        → is_some (lookup (address i) servers) ≡ true
        → All Filled hosts
        → ((approve_hosts route i.approve_url hosts now (servers, failed)).1 ≡ failed)
          × All
              (λ h.
                Allowed now
                  (address i)
                  (host_key h)
                  (approve_hosts route i.approve_url hosts now (servers, failed)).0)
              hosts
    hosts-granted [] servers failed there filled = unfold approve_hosts in (refl, tt)
    hosts-granted (h ∷ hosts) servers failed there filled =
        let u = approve_url_of i.approve_url in
        let (a, e) = some_of (lookup (route u).0 servers) there in
        let after = (post_form route u h now servers).0 in
        let rest =
          hosts-granted hosts after failed
            ((post_form-Grows u h servers path).stays (address i) there) filled.1 in
        let head : Allowed now (address i) (host_key h)
            (approve_hosts route i.approve_url hosts now (after, failed)).0 =
          (hosts-Grows hosts after failed).keeps (address i) (host_key h)
            (post_form-grants route now u h servers path e filled.0) in
        subst (Done (address i) (h ∷ hosts) failed) (sym (one_more h hosts servers failed there))
          (rest.0, (head, rest.1))

  sessions-Grows :
      (sessions : List SessionInfo) (hosts : List Bytes) (servers : Servers) (failed : ℕ)
      → All
          (λ (i : SessionInfo). (route (approve_url_of i.approve_url)).1 ≡ codes "/approve")
          sessions
      → Grows servers (approve_sessions route sessions hosts now (servers, failed)).0
  unfolding approve_sessions
  sessions-Grows [] hosts servers failed path = Grows-refl servers
  sessions-Grows (i ∷ sessions) hosts servers failed path =
      Grows-trans (hosts-Grows i path.0 hosts servers failed) (
        sessions-Grows sessions hosts
          (approve_hosts route i.approve_url hosts now (servers, failed)).0
          (approve_hosts route i.approve_url hosts now (servers, failed)).1 path.1)

  -- If the URL of every session leads to `/approve` at an approval server that is there, and every
  -- host is more than white space, then the loops of `runApprove` count no failure, and in the end
  -- the allowlist of every session's server allows every host, trimmed and in lower case.
  pub approve_sessions-granted :
      (sessions : List SessionInfo) (hosts : List Bytes) (servers : Servers) (failed : ℕ)
      → All (Serves route now servers) sessions
      → All Filled hosts
      → ((approve_sessions route sessions hosts now (servers, failed)).1 ≡ failed)
        × All
            (λ i.
              All
                (λ h.
                  Allowed now
                    (address i)
                    (host_key h)
                    (approve_sessions route sessions hosts now (servers, failed)).0)
                hosts)
            sessions
  unfolding approve_sessions
  approve_sessions-granted [] hosts servers failed serves filled = (refl, tt)
  approve_sessions-granted (i ∷ sessions) hosts servers failed serves filled =
      let after = (approve_hosts route i.approve_url hosts now (servers, failed)).0 in
      let n = (approve_hosts route i.approve_url hosts now (servers, failed)).1 in
      let here = hosts-granted i serves.0.0 hosts servers failed serves.0.1 filled in
      let grown = hosts-Grows i serves.0.0 hosts servers failed in
      let rest =
        approve_sessions-granted sessions hosts after n
          (All-map _ _ sessions (λ j v. (v.0, grown.stays (address j) v.1)) serves.1) filled in
      let later =
        sessions-Grows sessions hosts after n (All-map _ _ sessions (λ j v. v.0) serves.1) in
      (
        rest.0 ∙ here.0,
        (All-map _ _ hosts (λ h k. later.keeps (address i) (host_key h) k) here.1, rest.1),
      )
