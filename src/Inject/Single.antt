-- ===== src/Inject/Single.antt =====
-- main.go, `setup.Inject`: the credentials that a request carries.
use runclaude.Prelude.{
  ◌≡◌, refl, ◌∙◌, false, not, List, [], ◌∷◌, ◌++◌, Option, none, some, if◌then◌else◌, arith,
  Bool-cases, inl, inr,
}
use runclaude.Dict.{lookup}
use runclaude.Text.{Bytes, codes, bytes_eq, is_empty}
use runclaude.Creds.TokenSource.{TokenSource, bearer}
use runclaude.Proxy.Header.{Header, canonical, get_header, set_header, del_header}
use runclaude.Proxy.Header.Laws.{lookup-set_header, lookup-del_header}
use runclaude.Inject.{Secrets, credential_from, inject_anthropic}

-- the token of the header, if there is one
abbrev pub token_from : Option TokenSource → Bytes → Option Bytes
token_from (some t) b = some (bearer t)
token_from none b = if not (is_empty b) then some b else none

abbrev pub token_of : Secrets → Option Bytes
token_of s = token_from s.tokens s.bearer_token

abbrev pub authorization : Option Bytes → Option (List Bytes)
authorization none = none
authorization (some t) = some ((codes "Bearer " ++ t) ∷ [])

abbrev pub api_key_header : Bytes → Option Bytes → Option (List Bytes)
api_key_header key none = some (key ∷ [])
api_key_header key (some t) = none

abbrev version : Bytes
version = codes "anthropic-version"

lookup-version :
    (h : Header) (key : Bytes)
    → bytes_eq (canonical version) key ≡ false
    → lookup key
        (if is_empty (get_header version h) then set_header version (codes "2023-06-01") h else h)
      ≡ lookup key h
lookup-version h key e = ground (arith, lookup-set_header version (codes "2023-06-01") key h, e)

module _ (s : Secrets) (h : Header) where
  -- the header without the client's credentials
  abbrev cleared : Header
  cleared = del_header (codes "x-api-key") (del_header (codes "Authorization") h)

  cleared-authorization : lookup (codes "Authorization") cleared ≡ none
  unfolding canonical bytes_eq
  cleared-authorization =
      lookup-del_header (codes "x-api-key") (codes "Authorization")
        (del_header (codes "Authorization") h)
      ∙ lookup-del_header (codes "Authorization") (codes "Authorization") h

  cleared-key : lookup (codes "X-Api-Key") cleared ≡ none
  unfolding canonical bytes_eq
  cleared-key =
      lookup-del_header (codes "x-api-key") (codes "X-Api-Key")
        (del_header (codes "Authorization") h)

  set_bearer :
      (t : Bytes)
      → let sent = set_header (codes "Authorization") (codes "Bearer " ++ t) cleared in
        (lookup (codes "Authorization") sent ≡ authorization (some t))
        × (lookup (codes "X-Api-Key") sent ≡ none)
  unfolding canonical bytes_eq
  set_bearer t = (
    lookup-set_header (codes "Authorization") (codes "Bearer " ++ t) (codes "Authorization")
        cleared,
    lookup-set_header (codes "Authorization") (codes "Bearer " ++ t) (codes "X-Api-Key") cleared
        ∙ cleared-key,
  )

  set_key :
      (key : Bytes)
      → let sent = set_header (codes "x-api-key") key cleared in
        (lookup (codes "Authorization") sent ≡ none)
        × (lookup (codes "X-Api-Key") sent ≡ some (key ∷ []))
  unfolding canonical bytes_eq
  set_key key = (
    lookup-set_header (codes "x-api-key") key (codes "Authorization") cleared
        ∙ cleared-authorization,
    lookup-set_header (codes "x-api-key") key (codes "X-Api-Key") cleared,
  )

-- the inner `switch`, on the token
lookup-switch :
    (s : Secrets) (h : Header) (o : Option TokenSource)
    → let sent = credential_from o s (cleared s h) in
      (lookup (codes "Authorization") sent ≡ authorization (token_from o s.bearer_token))
      × (lookup (codes "X-Api-Key") sent ≡ api_key_header s.api_key (token_from o s.bearer_token))
unfolding credential_from
lookup-switch s h (some t) = set_bearer s h (bearer t)
lookup-switch s h none = elim (Bool-cases (is_empty s.bearer_token)) [
  | inl e ↦ rw e (set_key s h s.api_key)
  | inr e ↦ rw e (set_bearer s h s.bearer_token)
]

-- A request to the API carries exactly one credential, whatever the client sent: the token
-- source's bearer, else the fixed bearer, under Authorization and no key, or else the key alone.
pub lookup-inject_anthropic :
    (s : Secrets) (h : Header)
    → (lookup (codes "Authorization") (inject_anthropic s h) ≡ authorization (token_of s))
      × (lookup (codes "X-Api-Key") (inject_anthropic s h) ≡ api_key_header s.api_key (token_of s))
unfolding inject_anthropic canonical bytes_eq
lookup-inject_anthropic s h =
    let sent = credential_from s.tokens s (cleared s h) in
    let out = lookup-switch s h s.tokens in
    (
      lookup-version sent (codes "Authorization") refl ∙ out.0,
      lookup-version sent (codes "X-Api-Key") refl ∙ out.1,
    )
