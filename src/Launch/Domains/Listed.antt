-- ===== src/Launch/Domains/Listed.antt =====
-- main.go, `mainErr`: the allowlist behind the proxy and the DNS server.
use runclaude.Prelude.{◌≡◌, ℕ, true, List, [], ◌∷◌, arith, All}
use runclaude.Text.{Bytes, trim_space}
use runclaude.Proxy.Match.{match_domain}
use runclaude.Proxy.Match.Domain.{match_domain-append}
use runclaude.Proxy.Allowlist.{Allowlist, allows, new_allowlist, add, add_trimmed}
use runclaude.Launch.Auth.{Auth}
use runclaude.Launch.Domains.{DomainList, choose_domains, add_domains, start_allowlist}
use runclaude.Launch.Domains.Exact.{Plain, choose_domains-exact}

add-grows :
    (host d : Bytes) (a : Allowlist)
    → match_domain host a.items ≡ true
    → match_domain host (add d a).0.items ≡ true
unfolding add add_trimmed
add-grows host d a h = ground (arith, h, match_domain-append host a.items (trim_space d ∷ []))

add_domains-grows :
    (host : Bytes) (ds : List Bytes) (a : Allowlist)
    → match_domain host a.items ≡ true
    → match_domain host (add_domains ds a).items ≡ true
unfolding add_domains
add_domains-grows host [] a h = h
add_domains-grows host (d ∷ ds) a h = add_domains-grows host ds (add d a).0 (add-grows host d a h)

-- Where the hosts of --mitm-upstream hold no star, the allowlist that the proxy and the DNS server
-- start with allows, at any time, every host that the proxy ends TLS for.
pub mitm_listed :
    (allow_domain : DomainList) (auth : Auth) (hosts : List Bytes) (host : Bytes) (now : ℕ)
    → All Plain hosts
    → match_domain host (choose_domains allow_domain auth hosts).mitm ≡ true
    → allows now (start_allowlist (choose_domains allow_domain auth hosts)) host ≡ true
unfolding allows start_allowlist
mitm_listed allow_domain auth hosts host now plain h =
    let d = choose_domains allow_domain auth hosts in
    let e = choose_domains-exact allow_domain auth hosts host plain in
    let listed : match_domain host d.allowed ≡ true = ground (arith, h, e) in
    ground (arith, add_domains-grows host d.mitm (new_allowlist d.allowed) listed)
