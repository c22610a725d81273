-- ===== src/Proxy/Ca/Cache.antt =====
-- proxy/ca.go, `LeafCache`: what calls for one host return, one after the other.
use runclaude.Prelude.{
  ◌≡◌, ap, ◌∙◌, List, [], ◌∷◌, Option, none, some, Bool-cases, Option-cases, inl, inr,
}
use runclaude.Text.{Bytes, bytes_eq}
use runclaude.Text.Equality.{bytes_eq_iff, bytes_eq_refl}
use runclaude.Dict.{lookup, lookup-insert}
use runclaude.Proxy.Ca.{Certificate, LeafCache, with_der, with_key, get_leaf, get_leaves}

module _ (Key Der : Type 0) (create : Bytes → Der → Key → Key → Option Der) where
  -- the certificate of a host in the cache
  abbrev held : Bytes → LeafCache Key Der → Option (Certificate Key Der)
  held host c = lookup host c.m

  with_der-keeps :
      (host other : Bytes) (priv : Key) (c : LeafCache Key Der) (der : Option Der)
      {cert : Certificate Key Der}
      → held host c ≡ some cert
      → held other c ≡ none
      → held host (with_der Key Der other priv c der).0 ≡ some cert
  with_der-keeps host other priv c none h k = h
  with_der-keeps host other priv c (some der) h k =
      lookup-insert other host _ c.m ∙ elim (Bool-cases (bytes_eq other host)) [
        | inl e ↦ cc (ap (λ x. held x c) ((bytes_eq_iff other host).0 e))
        | inr e ↦ rw e h
      ]

  with_key-keeps :
      (host other : Bytes) (generate : Option Key) (c : LeafCache Key Der)
      {cert : Certificate Key Der}
      → held host c ≡ some cert
      → held other c ≡ none
      → held host (with_key Key Der create other generate c).0 ≡ some cert
  with_key-keeps host other none c h k = h
  with_key-keeps host other (some priv) c h k =
      with_der-keeps host other priv c (create other c.ca_leaf priv c.ca_key) h k

  get_leaf-keeps :
      (host other : Bytes) (generate : Option Key) (c : LeafCache Key Der)
      {cert : Certificate Key Der}
      → held host c ≡ some cert
      → held host (get_leaf Key Der create other generate c).0 ≡ some cert
  unfolding get_leaf
  get_leaf-keeps host other generate c h = elim (Option-cases (held other c)) [
    | inl e ↦ rw e (with_key-keeps host other generate c h e)
    | inr (old, e) ↦ rw e h
  ]

  get_leaves-keeps :
      (host : Bytes) (calls : List (Bytes × Option Key)) (c : LeafCache Key Der)
      {cert : Certificate Key Der}
      → held host c ≡ some cert
      → held host (get_leaves Key Der create calls c) ≡ some cert
  unfolding get_leaves
  get_leaves-keeps host [] c h = h
  get_leaves-keeps host ((other, generate) ∷ calls) c h =
      get_leaves-keeps host calls (get_leaf Key Der create other generate c).0
        (get_leaf-keeps host other generate c h)

  with_der-held :
      (host : Bytes) (priv : Key) (c : LeafCache Key Der) (der : Option Der)
      {cert : Certificate Key Der}
      → (with_der Key Der host priv c der).1 ≡ some cert
      → held host (with_der Key Der host priv c der).0 ≡ some cert
  with_der-held host priv c none h = cc
  with_der-held host priv c (some der) h = lookup-insert host host _ c.m ∙ rw (bytes_eq_refl host) h

  with_key-held :
      (host : Bytes) (generate : Option Key) (c : LeafCache Key Der) {cert : Certificate Key Der}
      → (with_key Key Der create host generate c).1 ≡ some cert
      → held host (with_key Key Der create host generate c).0 ≡ some cert
  with_key-held host none c h = cc
  with_key-held host (some priv) c h =
      with_der-held host priv c (create host c.ca_leaf priv c.ca_key) h

  get_leaf-held :
      (host : Bytes) (generate : Option Key) (c : LeafCache Key Der) {cert : Certificate Key Der}
      → (get_leaf Key Der create host generate c).1 ≡ some cert
      → held host (get_leaf Key Der create host generate c).0 ≡ some cert
  unfolding get_leaf
  get_leaf-held host generate c h = elim (Option-cases (held host c)) [
    | inl e ↦ rw e (with_key-held host generate c (rw e at h))
    | inr (old, e) ↦ rw e (e ∙ rw e at h)
  ]

  get_leaf-cached :
      (host : Bytes) (generate : Option Key) (c : LeafCache Key Der) {cert : Certificate Key Der}
      → held host c ≡ some cert
      → get_leaf Key Der create host generate c ≡ (c, some cert)
  unfolding get_leaf
  get_leaf-cached host generate c h = rw h

  -- Once `Get` has returned a certificate for a host, a later call for that host, after any other
  -- calls, returns the same certificate and changes nothing, whatever key would be generated.
  pub get_leaf-stable :
      (host : Bytes) (first later : Option Key) (calls : List (Bytes × Option Key))
      (c : LeafCache Key Der) {cert : Certificate Key Der}
      → (get_leaf Key Der create host first c).1 ≡ some cert
      → get_leaf Key Der create host later
          (get_leaves Key Der create calls (get_leaf Key Der create host first c).0)
        ≡ (get_leaves Key Der create calls (get_leaf Key Der create host first c).0, some cert)
  get_leaf-stable host first later calls c h = get_leaf-cached host later _ (
      get_leaves-keeps host calls (get_leaf Key Der create host first c).0
        (get_leaf-held host first c h))
