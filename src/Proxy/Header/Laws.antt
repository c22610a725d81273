-- ===== src/Proxy/Header/Laws.antt =====
-- Which headers the deletions leave.
use runclaude.Prelude.{◌≡◌, refl, ◌||◌, List, [], ◌∷◌, none, some, map, arith, if◌then◌else◌}
use runclaude.Dict.{lookup, lookup-delete, lookup-insert}
use runclaude.Text.{Bytes, bytes_eq, member}
use runclaude.Text.Equality.{bytes_eq_comm}
use runclaude.Proxy.Header.{
  Header, canonical, del_header, set_header, del_headers, hop_by_hop_headers, listed_names,
  strip_hop_by_hop_headers,
}

pub lookup-del_headers :
    (names : List Bytes) (key : Bytes) (h : Header)
    → lookup key (del_headers names h)
      ≡ (if member key (map canonical names) then none else lookup key h)
unfolding del_headers member
lookup-del_headers [] key h = refl
lookup-del_headers (name ∷ names) key h = ground (
  arith,
  lookup-del_headers names key (del_header name h),
  lookup-delete (canonical name) key h,
  bytes_eq_comm key (canonical name),
)

pub lookup-set_header :
    (name value key : Bytes) (h : Header)
    → lookup key (set_header name value h)
      ≡ (if bytes_eq (canonical name) key then some (value ∷ []) else lookup key h)
unfolding set_header
lookup-set_header name value key h = lookup-insert (canonical name) key (value ∷ []) h

pub lookup-del_header :
    (name key : Bytes) (h : Header)
    → lookup key (del_header name h)
      ≡ (if bytes_eq (canonical name) key then none else lookup key h)
unfolding del_header
lookup-del_header name key h = lookup-delete (canonical name) key h

-- `StripHopByHopHeaders` removes the nine hop-by-hop headers and those that the first value of
-- Connection names, whatever their case, and leaves every other header as it is.
pub lookup-strip_hop_by_hop_headers :
    (key : Bytes) (h : Header)
    → lookup key (strip_hop_by_hop_headers h) ≡ (
        if member key (map canonical hop_by_hop_headers)
          || member key (map canonical (listed_names h))
        then none
        else lookup key h)
unfolding strip_hop_by_hop_headers
lookup-strip_hop_by_hop_headers key h = ground (
  arith,
  lookup-del_headers hop_by_hop_headers key (del_headers (listed_names h) h),
  lookup-del_headers (listed_names h) key h,
)
