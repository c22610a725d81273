-- ===== src/Proxy/Ca.antt =====
-- proxy/ca.go: the authority's files, the bundle of trust, and the cache of leaf certificates. Keys and
-- certificates are those of package `crypto`: their types, and the functions that make them, are
-- parameters.
pub mod Cache
pub mod Files
use runclaude.Prelude.{
  ◌≡◌, Bool, true, false, List, [], ◌∷◌, ◌++◌, Option, none, some, if◌then◌else◌,
}
use runclaude.Text.{Bytes, codes}
use runclaude.Dict.{Dict, lookup, insert}

-- a file system as far as it is read and written here; `none` where a file is absent
abbrev pub Files : Type 0
Files = Dict Bytes

-- `os.ReadFile` of the first of the places that exists
unfoldable pub first_bundle : List Bytes → Files → Bytes
unfolding lookup
first_bundle [] files = []
first_bundle (p ∷ ps) files =
    let rest = first_bundle ps files in elim (lookup p files) [ some b ↦ b | none ↦ rest ]

abbrev pub bundle_places : List Bytes
bundle_places =
    codes "/etc/ssl/certs/ca-bundle.crt"
    ∷ codes "/etc/ssl/certs/ca-certificates.crt"
    ∷ codes "/etc/pki/tls/cert.pem"
    ∷ []

-- what `WriteBundle(caCertPEM, dst)` writes
unfoldable pub write_bundle : Bytes → Files → Bytes
unfolding first_bundle
write_bundle ca_pem files = (first_bundle bundle_places files ++ 10 ∷ []) ++ ca_pem

module _ (Key Der : Type 0) where
  -- `tls.Certificate`: the chain, and the private key
  pub record Certificate : Type 0 where
    pub chain : List Der
    pub private_key : Key

  -- `LeafCache`
  pub record LeafCache : Type 0 where
    pub m : Dict Certificate
    pub ca_leaf : Der
    pub ca_key : Key

  abbrev pub with_der : Bytes → Key → LeafCache → Option Der → LeafCache × Option Certificate
  with_der host priv c none = (c, none)
  with_der host priv c (some der) =
      let cert : Certificate = record { chain = der ∷ c.ca_leaf ∷ []; private_key = priv } in
      (record c { m = insert host cert c.m }, some cert)

  -- `generate` is what `rsa.GenerateKey` returns, and `create` is `x509.CreateCertificate`, from the
  -- name, the authority's certificate, the leaf's key and the authority's
  module _ (create : Bytes → Der → Key → Key → Option Der) where
    abbrev pub with_key : Bytes → Option Key → LeafCache → LeafCache × Option Certificate
    with_key host none c = (c, none)
    with_key host (some priv) c = with_der host priv c (create host c.ca_leaf priv c.ca_key)

    abbrev pub cached :
        Bytes → Option Key → LeafCache → Option Certificate → LeafCache × Option Certificate
    cached host generate c (some cert) = (c, some cert)
    cached host generate c none = with_key host generate c

    -- `c.Get(host)`; `none` is an error
    unfoldable pub get_leaf : Bytes → Option Key → LeafCache → LeafCache × Option Certificate
    unfolding lookup
    get_leaf host generate c = cached host generate c (lookup host c.m)

    -- a sequence of calls
    unfoldable pub get_leaves : List (Bytes × Option Key) → LeafCache → LeafCache
    unfolding get_leaf
    get_leaves [] c = c
    get_leaves ((host, generate) ∷ calls) c = get_leaves calls (get_leaf host generate c).0
