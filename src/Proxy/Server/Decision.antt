-- ===== src/Proxy/Server/Decision.antt =====
-- Which hosts are denied, and what a denial leaves behind.
use runclaude.Prelude.{
  ℕ, ◌≡◌, ◌≢◌, refl, ◌↔◌, ◌⊎◌, inl, inr, true, false, ◌||◌, List, [], ◌∷◌, ◌++◌, none, some, arith,
  Bool-cases, if◌then◌else◌,
}
use runclaude.Text.{Bytes, codes, bytes_eq, has_byte}
use runclaude.Text.Equality.{bytes_eq_iff}
use runclaude.Text.Split.{has_byte-append}
use runclaude.Proxy.Match.{match_domain}
use runclaude.Proxy.Allowlist.{allows}
use runclaude.Proxy.Approver.{Approver, record_denial}
use runclaude.Proxy.Server.{
  inject_and_forward, intercept, deny, request_host, serve_host, serve, last_colon, plain_host,
  split_host_port,
}

-- A request is denied exactly if its host is neither intercepted nor allowed at that time; it is
-- opened to the injection of credentials only if its host is to be intercepted; and the record of
-- denials changes for a denied request only, by the entry of its host.
pub serve-outcome :
    (mitm : List Bytes) (method field : Bytes) (now : ℕ) (ap : Approver)
    → (let host = request_host field in
        let result = serve mitm method field now ap in
        ((result.1 ≡ deny host)
          ↔ ((match_domain host mitm ≡ false) × (allows now ap.allow host ≡ false)))
        × (((result.1 ≡ intercept host) ⊎ (result.1 ≡ inject_and_forward host))
            ↔ (match_domain host mitm ≡ true))
        × (result.0 ≡ (
            if match_domain host mitm || allows now ap.allow host
            then ap
            else record_denial host now ap)))
unfolding serve serve_host
serve-outcome mitm method field now ap =
    let host = request_host field in
    (
      (λ e. (ground arith, ground arith), λ e. ground arith),
      (λ e. ground arith, λ e. intercepted e),
      ground arith,
    )
  where
    intercepted :
        match_domain (request_host field) mitm ≡ true
        → ((serve mitm method field now ap).1 ≡ intercept (request_host field))
          ⊎ ((serve mitm method field now ap).1 ≡ inject_and_forward (request_host field))
    intercepted e = elim (Bool-cases (bytes_eq method (codes "CONNECT"))) [
      | inl c ↦ inl (ground arith)
      | inr c ↦ inr (ground arith)
    ]

last_colon-none : (s : Bytes) → has_byte b':' s ≡ false → last_colon s ≡ none
unfolding last_colon has_byte
last_colon-none [] h = refl
last_colon-none (c ∷ s) h = ground (arith, last_colon-none s, bytes_eq_iff (c ∷ []) (codes ":"))

last_colon_at :
    (host port : Bytes)
    → has_byte b':' port ≡ false
    → last_colon (host ++ b':' ∷ port) ≡ some (host, port)
unfolding last_colon bytes_eq
last_colon_at [] port h = rw (last_colon-none port h) refl
last_colon_at (c ∷ host) port h = rw (last_colon_at host port h)

-- no byte of the address notation that `SplitHostPort` looks for
abbrev pub IsPlain : Bytes → Type 0
IsPlain s = (has_byte b':' s ≡ false) × (has_byte b'[' s ≡ false) × (has_byte b']' s ≡ false)

plain_host-some :
    (host port : Bytes) → IsPlain host → IsPlain port → plain_host (some (host, port)) ≡ some host
unfolding plain_host
plain_host-some host port h p = ground arith

split_host_port-plain :
    (s : Bytes) → s ≢ [] → has_byte b'[' s ≡ false → split_host_port s ≡ plain_host (last_colon s)
unfolding split_host_port has_byte
split_host_port-plain [] ne h = absurd (ne refl)
split_host_port-plain (c ∷ s) ne h = ground (arith, bytes_eq_iff (c ∷ []) (codes "["))

no_bracket :
    (host port : Bytes) → IsPlain host → IsPlain port → has_byte b'[' (host ++ b':' ∷ port) ≡ false
no_bracket host port h p = rw has_byte-append (unfold has_byte in ground arith)

not_nil : (host port : Bytes) → host ++ b':' ∷ port ≢ []
not_nil [] port e = cc
not_nil (c ∷ host) port e = cc

-- The port of a Host field is cut off, and a field with no port is the host itself.
pub request_host-plain :
    (host port : Bytes)
    → host ≢ []
    → IsPlain host
    → IsPlain port
    → (request_host (host ++ b':' ∷ port) ≡ host) × (request_host host ≡ host)
unfolding request_host
request_host-plain host port ne h p = (
  rw (split_host_port-plain (host ++ b':' ∷ port) (not_nil host port) (no_bracket host port h p))
      (rw (last_colon_at host port p.0) (rw (plain_host-some host port h p))),
  rw (split_host_port-plain host ne h.1)
      (rw (last_colon-none host h.0) (unfold plain_host in refl)),
)
