-- ===== src/Proxy/Approver/Routes.antt =====
-- Which requests change the approver.
use runclaude.Prelude.{ℕ, ◌≡◌, refl, true, false, arith}
use runclaude.Text.{codes, bytes_eq}
use runclaude.Proxy.Allowlist.{allow_all_for}
use runclaude.Proxy.Approver.{
  Approver, approve, Request, method_not_allowed, see_other, serve_http, allow_all_window,
}

-- Only a POST changes anything. One to /approve approves the host of its form, one to /allow-all
-- opens the window of fifteen minutes, and both redirect; with another method either is refused,
-- and every other path is served or not found.
pub serve_http-routes :
    (r : Request) (t : ℕ) (ap : Approver)
    → (bytes_eq r.method (codes "POST") ≡ false → (serve_http r t ap).0 ≡ ap)
      × (bytes_eq r.method (codes "POST") ≡ true
          → r.path ≡ codes "/approve"
          → serve_http r t ap ≡ ((approve r.form_host ap).0, see_other))
      × (bytes_eq r.method (codes "POST") ≡ true
          → r.path ≡ codes "/allow-all"
          → serve_http r t ap
            ≡ (record ap { allow = allow_all_for t allow_all_window ap.allow }, see_other))
      × ((serve_http r t ap).1 ≡ method_not_allowed → bytes_eq r.method (codes "POST") ≡ false)
unfolding serve_http
serve_http-routes r t ap =
    (λ h. ground arith, λ h e. rw (e, h) refl, λ h e. rw (e, h) refl, λ h. ground arith)
