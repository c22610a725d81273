-- ===== src/Proxy/Tests/Connections.antt =====
-- The authority's files, the cache of leaves, the handlers and the framing at concrete inputs.
use runclaude.Prelude.{
  ◌≡◌, refl, ℕ, ◌+◌, Bool, true, false, List, [], ◌∷◌, Option, none, some, if◌then◌else◌,
}
use runclaude.Text.{Bytes, codes, bytes_eq}
use runclaude.Proxy.Ca.{Certificate, LeafCache, get_leaf, get_leaves}
use runclaude.Proxy.Ca.Cache.{get_leaf-stable}
use runclaude.Proxy.Ca.Files.{
  CaFiles, Calls, whole, cut, after_calls, load_or_create_ca, failed, load_or_create_ca-half,
}
use runclaude.Proxy.Handlers.{taken, target_url, proxy_mitm}
use runclaude.Proxy.Handlers.Closed.{perform_all, at_request, left_open, proxy_mitm-closed}

-- keys and certificates as numbers: a leaf is the sum of the two keys
abbrev create : Bytes → ℕ → ℕ → ℕ → Option ℕ
create host ca priv ca_key = some (priv + ca_key)

abbrev cache : LeafCache ℕ ℕ
cache = record { m = []; ca_leaf = 1; ca_key = 100 }

abbrev api : Bytes
api = codes "api.anthropic.com"

abbrev calls : List (Bytes × Option ℕ)
calls = (codes "example.org", some 5) ∷ (api, some 6) ∷ (codes "example.org", none) ∷ []

abbrev leaf : Certificate ℕ ℕ
leaf = record { chain = 107 ∷ 1 ∷ []; private_key = 7 }

get_leaf-stable_example :
    get_leaf ℕ ℕ create api
      (some 8)
      (get_leaves ℕ ℕ create calls (get_leaf ℕ ℕ create api (some 7) cache).0)
    ≡ (get_leaves ℕ ℕ create calls (get_leaf ℕ ℕ create api (some 7) cache).0, some leaf)
unfolding get_leaf
get_leaf-stable_example = get_leaf-stable ℕ ℕ create api (some 7) (some 8) calls cache refl

abbrev no_files : CaFiles
no_files = record { crt = none; key = none }

-- the disk is full after the first file
abbrev full_disk : Calls
full_disk = record {
  mkdir = true;
  created = some (codes "crt", codes "key");
  write_crt = whole;
  write_key = cut (codes "k");
}

abbrev all_well : Calls
all_well = record {
  mkdir = true;
  created = some (codes "crt", codes "key");
  write_crt = whole;
  write_key = whole;
}

-- a key is accepted only whole
abbrev pair : Bytes → Bytes → Bool
pair crt key = bytes_eq key (codes "key")

load_or_create_ca-half_example :
    (load_or_create_ca pair all_well
      (after_calls pair (all_well ∷ all_well ∷ []) (load_or_create_ca pair full_disk no_files).0)).1
    ≡ failed
unfolding bytes_eq
load_or_create_ca-half_example =
    load_or_create_ca-half pair full_disk all_well (all_well ∷ all_well ∷ []) no_files refl refl
      refl refl refl refl refl

abbrev parses : Bytes → Bool
parses u = false

proxy_mitm-closed_example :
    (perform_all
      (proxy_mitm create taken true parses api (codes "::") (some 7) cache).1
      at_request).clients
    ≡ (if left_open taken true
          (parses (target_url api (codes "::")))
          (get_leaf ℕ ℕ create api (some 7) cache).1
        then 1
        else 0)
proxy_mitm-closed_example =
    proxy_mitm-closed create taken true parses api (codes "::") (some 7) cache
