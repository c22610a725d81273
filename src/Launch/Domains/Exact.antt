-- ===== src/Launch/Domains/Exact.antt =====
-- main.go, `mainErr`: which hosts the lists of domains stand for.
use runclaude.Prelude.{
  ◌≡◌, refl, sym, ap, ◌∙◌, inl, inr, ℕ, Bool, true, false, ◌&&◌, ◌||◌, List, [], ◌∷◌, arith,
  Bool-cases, All, ◌==◌,
}
use runclaude.Text.{Bytes, codes, bytes_eq, has_byte, has_prefix, lower_byte, to_lower}
use runclaude.Text.Equality.{bytes_eq_iff}
use runclaude.Proxy.Match.{match_pattern, match_any, match_domain}
use runclaude.Proxy.Match.Domain.{match_domain-to_lower, match_domain-append}
use runclaude.Launch.Auth.{Auth}
use runclaude.Launch.Domains.{
  DomainList, base_domains, add_domain, Domains, api_host, bedrock_pattern, has_credentials,
  with_api, with_upstreams, with_bedrock, choose_domains,
}

-- a pattern with no star
abbrev pub Plain : Bytes → Type 0
Plain p = has_byte b'*' p ≡ false

unfoldable pub same_host : Bytes → Bytes → Bool
same_host host p = bytes_eq (to_lower p) (to_lower host)

lower_byte-star : (c : ℕ) → (lower_byte c == b'*') ≡ (c == b'*')
unfolding lower_byte
lower_byte-star c = ground arith

has_byte-to_lower : (p : Bytes) → has_byte b'*' (to_lower p) ≡ has_byte b'*' p
unfolding has_byte to_lower
has_byte-to_lower [] = refl
has_byte-to_lower (c ∷ p) = ground (arith, has_byte-to_lower p, lower_byte-star c)

has_prefix-star : (p : Bytes) → has_byte b'*' p ≡ false → has_prefix p (codes "*.") ≡ false
unfolding has_byte has_prefix
has_prefix-star [] h = refl
has_prefix-star (c ∷ p) h = ground arith

match_pattern-Plain : (host p : Bytes) → Plain p → match_pattern host p ≡ bytes_eq p host
unfolding match_pattern
match_pattern-Plain host p h = rw (h, has_prefix-star p h) (ground arith)

-- one pattern with no star
pub match_domain-Plain : (host p : Bytes) → Plain p → match_domain host (p ∷ []) ≡ same_host host p
unfolding match_domain match_any same_host
match_domain-Plain host p h =
    ground (arith, match_pattern-Plain (to_lower host) (to_lower p) (has_byte-to_lower p ∙ h))

same_host-match :
    (host p : Bytes) (ds : List Bytes)
    → same_host host p ≡ true
    → match_domain host ds ≡ match_domain p ds
unfolding same_host
same_host-match host p ds h =
    sym (match_domain-to_lower host ds)
    ∙ (ap (λ t. match_domain t ds) (sym ((bytes_eq_iff (to_lower p) (to_lower host)).0 h))
        ∙ match_domain-to_lower p ds)

pub match_domain-add_domain :
    (host p : Bytes) (ds : List Bytes)
    → Plain p
    → match_domain host (add_domain p ds) ≡ (match_domain host ds || same_host host p)
unfolding add_domain
match_domain-add_domain host p ds plain = elim (Bool-cases (match_domain p ds)) [
  | inl e ↦ rw e (elim (Bool-cases (same_host host p)) [
    | inl s ↦ ground (arith, same_host-match host p ds s)
    | inr s ↦ ground (arith, s)
  ])
  | inr e ↦ rw e (
      match_domain-append host ds (p ∷ [])
      ∙ ap (◌||◌ (match_domain host ds)) (match_domain-Plain host p plain))
]

-- one of the hosts, in any case
unfoldable pub any_host : Bytes → List Bytes → Bool
unfolding same_host
any_host host [] = false
any_host host (p ∷ ps) = same_host host p || any_host host ps

pub with_upstreams-match :
    (host : Bytes) (hosts : List Bytes) (d : Domains)
    → All Plain hosts
    → (match_domain host (with_upstreams hosts d).allowed
        ≡ (match_domain host d.allowed || any_host host hosts))
      × (match_domain host (with_upstreams hosts d).mitm
          ≡ (match_domain host d.mitm || any_host host hosts))
unfolding with_upstreams any_host
with_upstreams-match host [] d plain = ground arith
with_upstreams-match host (p ∷ hosts) d plain = ground (
  arith,
  with_upstreams-match host hosts
      (record { allowed = add_domain p d.allowed; mitm = add_domain p d.mitm }) plain.1,
  match_domain-add_domain host p d.allowed plain.0,
  match_domain-add_domain host p d.mitm plain.0,
)

pub with_api-match :
    (host : Bytes) (api : Bool) (d : Domains)
    → (match_domain host (with_api api d).allowed
        ≡ (match_domain host d.allowed || (api && same_host host api_host)))
      × (match_domain host (with_api api d).mitm
          ≡ (match_domain host d.mitm || (api && same_host host api_host)))
unfolding with_api
with_api-match host false d = ground arith
with_api-match host true d = (
  match_domain-add_domain host api_host d.allowed (unfold has_byte in refl),
  match_domain-append host d.mitm (api_host ∷ [])
      ∙ ap (◌||◌ (match_domain host d.mitm))
          (match_domain-Plain host api_host (unfold has_byte in refl)),
)

with_bedrock-match :
    (host : Bytes) (bedrock : Bool) (d : Domains)
    → (match_domain host (with_bedrock bedrock d).allowed
        ≡ (match_domain host d.allowed || (bedrock && match_domain host (bedrock_pattern ∷ []))))
      × (match_domain host (with_bedrock bedrock d).mitm
          ≡ (match_domain host d.mitm || (bedrock && match_domain host (bedrock_pattern ∷ []))))
unfolding with_bedrock
with_bedrock-match host false d = ground arith
with_bedrock-match host true d = (
  match_domain-append host d.allowed (bedrock_pattern ∷ []),
  match_domain-append host d.mitm (bedrock_pattern ∷ []),
)

-- the hosts that the proxy ends TLS for
unfoldable pub injected : Auth → List Bytes → Bytes → Bool
unfolding same_host any_host
injected auth hosts host =
    (has_credentials auth.credentials && same_host host api_host)
    || any_host host hosts
    || (auth.use_bedrock && match_domain host (bedrock_pattern ∷ []))

or_regroup : (m a u b : Bool) → (((m || a) || u) || b) ≡ (m || ((a || u) || b))
or_regroup true a u b = refl
or_regroup false a u b = refl

pub match_none : (host : Bytes) → match_domain host [] ≡ false
unfolding match_domain match_any
match_none host = refl

-- Where the hosts of --mitm-upstream hold no star, the proxy ends TLS for exactly these hosts:
-- those of --mitm-upstream, api.anthropic.com where there is a key or a bearer, and those of
-- Bedrock's pattern under Bedrock, each in any case. The container may reach exactly these and
-- those of --allow-domain, or of the default list where that flag is not given.
pub choose_domains-exact :
    (allow_domain : DomainList) (auth : Auth) (hosts : List Bytes) (host : Bytes)
    → All Plain hosts
    → (match_domain host (choose_domains allow_domain auth hosts).mitm ≡ injected auth hosts host)
      × (match_domain host (choose_domains allow_domain auth hosts).allowed
          ≡ (match_domain host (base_domains allow_domain) || injected auth hosts host))
unfolding choose_domains injected
choose_domains-exact allow_domain auth hosts host plain =
    let start : Domains = record { allowed = base_domains allow_domain; mitm = [] } in
    let api : Domains = with_api (has_credentials auth.credentials) start in
    let up : Bool = any_host host hosts in
    let bed : Bool = auth.use_bedrock && match_domain host (bedrock_pattern ∷ []) in
    let b = with_bedrock-match host auth.use_bedrock (with_upstreams hosts api) in
    let u = with_upstreams-match host hosts api plain in
    let a = with_api-match host (has_credentials auth.credentials) start in
    (
      b.1
          ∙ ap (λ t. t || bed)
              (u.1 ∙ ap (λ t. t || up) (a.1 ∙ ap (λ t. t || from_api) (match_none host))),
      b.0
          ∙ ap (λ t. t || bed) (u.0 ∙ ap (λ t. t || up) a.0)
          ∙ or_regroup (match_domain host (base_domains allow_domain)) from_api up bed,
    )
  where
    from_api : Bool
    from_api = has_credentials auth.credentials && same_host host api_host
