-- ===== src/Proxy/Bedrock/Signing.antt =====
-- What the signer is given, and what is sent where it is not reached.
use runclaude.Prelude.{
  ℕ, ◌≡◌, refl, ◌⊎◌, inl, inr, Bool, true, false, not, ◌&&◌, ◌||◌, List, [], ◌∷◌, Option, none,
  some, map, arith, length, Bool-cases, if◌then◌else◌,
}
use runclaude.Dict.{lookup}
use runclaude.Text.{Bytes, codes, bytes_eq, member, is_empty, split, trim_space}
use runclaude.Text.Equality.{bytes_eq_iff, bytes_eq_refl}
use runclaude.Proxy.Header.{
  Header, canonical, get_header, connection_names, listed_names, hop_by_hop_headers,
  strip_hop_by_hop_headers,
}
use runclaude.Proxy.Header.Laws.{lookup-del_headers, lookup-strip_hop_by_hop_headers}
use runclaude.Proxy.Bedrock.{
  bedrock_region, Body, absent, broken, content, Request, signature_headers, unsigned, sign_with,
  sign_body, inject_bedrock_at,
}

-- The name is that of the client's signature, of a hop-by-hop header, or one of the names that the
-- first Connection header of `h` lists between commas.
unfoldable pub is_dropped : Header → Bytes → Bool
is_dropped h name =
    (member (canonical name) (map canonical signature_headers)
      || member (canonical name) (map canonical hop_by_hop_headers))
    || (not (is_empty name)
        && member name (map trim_space (split b',' (get_header (codes "Connection") h))))

-- No header of such a name is in the request, where the client's header is `h`.
abbrev pub IsClean : Header → Request → Type 0
IsClean h r = (name : Bytes) → is_dropped h name ≡ true → lookup (canonical name) r.header ≡ none

connection_names-listed :
    (name : Bytes) (parts : List Bytes)
    → is_empty name ≡ false
    → member name (map trim_space parts) ≡ true
    → member (canonical name) (map canonical (connection_names parts)) ≡ true
unfolding member connection_names
connection_names-listed name [] f h = cc
connection_names-listed name (p ∷ parts) f h = ground (
  arith,
  connection_names-listed name parts f,
  bytes_eq_iff name (trim_space p),
  bytes_eq_refl (canonical name),
  Bool-cases (is_empty (trim_space p)),
)

conn_listed :
    (name conn : Bytes)
    → is_empty name ≡ false
    → member name (map trim_space (split b',' conn)) ≡ true
    → member
        (canonical name)
        (map canonical (if is_empty conn then [] else connection_names (split b',' conn)))
      ≡ true
unfolding member split trim_space bytes_eq
conn_listed [] conn f m = cc
conn_listed (c ∷ name) [] f m = cc
conn_listed (c ∷ name) (d ∷ conn) f m =
    connection_names-listed (c ∷ name) (split b',' (d ∷ conn)) f m

listed_names-member :
    (name : Bytes) (h : Header)
    → is_empty name ≡ false
    → member name (map trim_space (split b',' (get_header (codes "Connection") h))) ≡ true
    → member (canonical name) (map canonical (listed_names h)) ≡ true
listed_names-member name h f m = conn_listed name (get_header (codes "Connection") h) f m

unsigned-IsClean : (r : Request) → IsClean r.header (unsigned r)
unfolding is_dropped
unsigned-IsClean r name h = ground (
  arith,
  lookup-del_headers signature_headers (canonical name) (strip_hop_by_hop_headers r.header),
  lookup-strip_hop_by_hop_headers (canonical name) r.header,
  listed_names-member name r.header,
)

module _ {Creds : Type 0} (retrieve : Option Creds) (hash : Bytes → Bytes)
    (sign : Creds → Request → Bytes → Bytes → Bytes → ℕ → Request) where
  -- The request `s` as it is, or signed by `sign` with the credentials retrieved and the hash of the
  -- body that it carries.
  abbrev pub SentFor : Request → Bytes → ℕ → Request → Type 0
  SentFor s region now sent =
      (sent ≡ s)
      ⊎ ((creds : Creds) × (retrieve ≡ some creds)
          × ((b : Bytes) × (sent ≡ sign creds s (hash b) (codes "bedrock") region now)
              × ((s.body ≡ content b) ⊎ ((s.body ≡ absent) × (b ≡ [])))))

  sign_with-SentFor :
      (o : Option Creds) (b region : Bytes) (now : ℕ) (s : Request)
      → retrieve ≡ o
      → (s.body ≡ content b) ⊎ ((s.body ≡ absent) × (b ≡ []))
      → SentFor s region now (sign_with retrieve hash sign o b region now s)
  unfolding sign_with
  sign_with-SentFor none b region now s e h = inl refl
  sign_with-SentFor (some c) b region now s e h = inr (c, e, (b, refl, h))

  sign_body-SentFor :
      (h : Header) (body : Body) (region : Bytes) (now : ℕ) (u : Request)
      → u.body ≡ body
      → IsClean h u
      → (s : Request) × IsClean h s
        × (s.body ≡ body)
        × SentFor s region now (sign_body retrieve hash sign body region now u)
  unfolding sign_body
  sign_body-SentFor h absent region now u e c =
      (u, c, e, sign_with-SentFor retrieve [] region now u refl (inr (e, refl)))
  sign_body-SentFor h broken region now u e c = (u, c, e, inl refl)
  sign_body-SentFor h (content b) region now u e c =
      let s = record u { body = content b; content_length = length b } in
      (s, c, refl, sign_with-SentFor retrieve b region now s refl (inl refl))

  -- For a host with a region, what is signed has the client's body and none of the four headers of its
  -- signature, of the nine hop-by-hop headers, and of the headers that its first Connection header
  -- names; and where signing is not reached that request is what is sent.
  pub inject_bedrock_at-IsClean :
      (host : Bytes) (now : ℕ) (r : Request)
      → is_empty (bedrock_region host) ≡ false
      → (s : Request) × IsClean r.header s
        × (s.body ≡ r.body)
        × SentFor s (bedrock_region host) now (inject_bedrock_at retrieve hash sign host now r)
  unfolding inject_bedrock_at
  inject_bedrock_at-IsClean host now r h = rw h (
      sign_body-SentFor r.header r.body (bedrock_region host) now (unsigned r) refl
        (unsigned-IsClean r))
