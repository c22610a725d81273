-- ===== src/Proxy/Header.antt =====
-- `http.Header` as package `net/http` keeps it, and `StripHopByHopHeaders` of proxy/server.go. A header
-- maps the canonical form of a name to its values.
pub mod Laws
use runclaude.Prelude.{
  ℕ, ◌+◌, ◌-◌, Bool, true, false, not, ◌&&◌, ◌||◌, List, [], ◌∷◌, ◌++◌, Option, none, some, map,
  leb, ◌==◌, if◌then◌else◌,
}
use runclaude.Dict.{Dict, lookup, insert, delete, delete_all}
use runclaude.Text.{Bytes, codes, has_byte, is_empty, split, trim_space}

abbrev pub Header : Type 0
Header = Dict (List Bytes)

-- the bytes of a header name, RFC 7230's tchar
abbrev is_token : ℕ → Bool
is_token c =
    (leb b'a' c && leb c b'z')
    || (leb b'A' c && leb c b'Z')
    || (leb b'0' c && leb c b'9')
    || has_byte c (codes "!#$%&'*+-.^_`|~")

all_tokens : Bytes → Bool
all_tokens [] = true
all_tokens (c ∷ s) = is_token c && all_tokens s

-- A letter is upper case at the start and behind a dash, and lower case elsewhere.
capitalise : Bool → Bytes → Bytes
capitalise upper [] = []
capitalise upper (c ∷ s) =
    (if upper && (leb b'a' c && leb c b'z')
      then c - 32
      else if not upper && (leb b'A' c && leb c b'Z')
      then c + 32
      else c)
    ∷ capitalise (c == b'-') s

-- `textproto.CanonicalMIMEHeaderKey(name)`
unfoldable pub canonical : Bytes → Bytes
unfolding all_tokens capitalise has_byte
canonical name = if all_tokens name then capitalise true name else name

abbrev first_value : Option (List Bytes) → Bytes
first_value none = []
first_value (some []) = []
first_value (some (v ∷ vs)) = v

-- `h.Get(name)`, `h.Del(name)`, `h.Set(name, value)`
unfoldable pub get_header : Bytes → Header → Bytes
get_header name h = first_value (lookup (canonical name) h)

unfoldable pub del_header : Bytes → Header → Header
del_header name h = delete (canonical name) h

unfoldable pub set_header : Bytes → Bytes → Header → Header
set_header name value h = insert (canonical name) (value ∷ []) h

-- `for _, name := range names { h.Del(name) }`
unfoldable pub del_headers : List Bytes → Header → Header
unfolding del_header
del_headers [] h = h
del_headers (name ∷ names) h = del_headers names (del_header name h)

-- `hopByHopHeaders`
abbrev pub hop_by_hop_headers : List Bytes
hop_by_hop_headers =
    codes "Connection"
    ∷ codes "Proxy-Connection"
    ∷ codes "Keep-Alive"
    ∷ codes "Proxy-Authenticate"
    ∷ codes "Proxy-Authorization"
    ∷ codes "Te"
    ∷ codes "Trailer"
    ∷ codes "Transfer-Encoding"
    ∷ codes "Upgrade"
    ∷ []

abbrev keep_named : Bytes → List Bytes → List Bytes
keep_named name rest = if is_empty name then rest else name ∷ rest

-- the names in the value of `Connection` that are not blank
unfoldable pub connection_names : List Bytes → List Bytes
connection_names [] = []
connection_names (part ∷ parts) = keep_named (trim_space part) (connection_names parts)

-- the names that the loop over `Connection` deletes
abbrev pub listed_names : Header → List Bytes
listed_names h =
    let conn = get_header (codes "Connection") h in
    if is_empty conn then [] else connection_names (split b',' conn)

-- `StripHopByHopHeaders(h)`
unfoldable pub strip_hop_by_hop_headers : Header → Header
strip_hop_by_hop_headers h = del_headers hop_by_hop_headers (del_headers (listed_names h) h)
