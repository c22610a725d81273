-- ===== src/Launch/Environment/Passed.antt =====
-- main.go: which variables go from the host to the command, through all the stages.
use runclaude.Prelude.{
  ◌≡◌, refl, ap, sym, ◌∙◌, Bool, true, false, List, [], ◌∷◌, ◌++◌, append-nil, Option, none, some,
  arith, Bool-cases, inl, inr, All,
}
use runclaude.Text.{Bytes, codes, bytes_eq, member, is_empty, has_byte}
use runclaude.Text.Equality.{bytes_eq_comm}
use runclaude.Launch.Binds.Hidden.{member-ne}
use runclaude.Dict.{Dict, lookup, insert, lookup-insert, lookup-delete}
use runclaude.Environ.{aws_env_skip, name_of}
use runclaude.Environ.Scrubbed.{entries_of}
use runclaude.Launch.Environment.{child_env, container_env}
use runclaude.Launch.Environment.Scrubbed.{
  entries_of-append, entries_of-named, entries_of-container_env_other,
}
use runclaude.Launch.Init.{set_all, proxy_env, bundle_env, ca_env, init_env, env_map, command_env}

-- the variables that the last stage sets or unsets
abbrev pub init_names : List Bytes
init_names =
    codes "_RUNCLAUDE_INIT"
    ∷ codes "_RUNCLAUDE_CHILD"
    ∷ codes "HTTP_PROXY"
    ∷ codes "HTTPS_PROXY"
    ∷ codes "http_proxy"
    ∷ codes "https_proxy"
    ∷ codes "NO_PROXY"
    ∷ codes "no_proxy"
    ∷ codes "SSL_CERT_FILE"
    ∷ codes "REQUESTS_CA_BUNDLE"
    ∷ codes "CURL_CA_BUNDLE"
    ∷ codes "GIT_SSL_CAINFO"
    ∷ codes "NODE_EXTRA_CA_CERTS"
    ∷ []

lookup-env_map :
    (n : Bytes) (env : List Bytes) → lookup n (env_map env) ≡ lookup n (env_map (entries_of n env))
unfolding env_map entries_of lookup
lookup-env_map n [] = refl
lookup-env_map n (e ∷ env) = elim (Bool-cases (bytes_eq (name_of e) n)) [
  | inl f ↦ rw f (rw f refl)
  | inr f ↦ rw f (lookup-env_map n env)
]

lookup-set_all :
    (n : Bytes) (ks : List Bytes) (v : Bytes) (env : Dict Bytes)
    → member n ks ≡ false
    → lookup n (set_all ks v env) ≡ lookup n env
unfolding member
lookup-set_all n [] v env h = refl
lookup-set_all n (k ∷ ks) v env h =
    lookup-set_all n ks v (insert k v env) (ground arith)
    ∙ (lookup-insert k n v env ∙ rw (swapped k n (ground arith)))
  where
    swapped : (k n : Bytes) → bytes_eq n k ≡ false → bytes_eq k n ≡ false
    swapped k n e = bytes_eq_comm k n ∙ e

module _ (n : Bytes) (other : member n init_names ≡ false) where
  unlisted : (name : Bytes) → member name init_names ≡ true → bytes_eq name n ≡ false
  unlisted name k = member-ne name n init_names k other

  none_of : (ks : List Bytes) → All (λ k. member k init_names ≡ true) ks → member n ks ≡ false
  unfolding member
  none_of [] a = refl
  none_of (k ∷ ks) a = rw (bytes_eq_comm n k, unlisted k a.0) (none_of ks a.1)

  lookup-proxy_env :
      (proxy : Option Bytes) (env : Dict Bytes) → lookup n (proxy_env proxy env) ≡ lookup n env
  unfolding member bytes_eq
  lookup-proxy_env none env = refl
  lookup-proxy_env (some url) env =
      lookup-set_all n (codes "NO_PROXY" ∷ codes "no_proxy" ∷ []) [] _
        (none_of (codes "NO_PROXY" ∷ codes "no_proxy" ∷ []) (refl, (refl, tt)))
      ∙ lookup-set_all n
          (codes "HTTP_PROXY" ∷ codes "HTTPS_PROXY" ∷ codes "http_proxy" ∷ codes "https_proxy" ∷ [])
          url env
          (none_of
            (codes "HTTP_PROXY"
              ∷ codes "HTTPS_PROXY"
              ∷ codes "http_proxy"
              ∷ codes "https_proxy"
              ∷ [])
            (refl, (refl, (refl, (refl, tt)))))

  lookup-bundle_env :
      (bundle : Bytes) (env : Dict Bytes) → lookup n (bundle_env bundle env) ≡ lookup n env
  unfolding member bytes_eq
  lookup-bundle_env bundle env = elim (Bool-cases (is_empty bundle)) [
    | inl e ↦ rw e refl
    | inr e ↦
        let ks : List Bytes =
          codes "SSL_CERT_FILE"
          ∷ codes "REQUESTS_CA_BUNDLE"
          ∷ codes "CURL_CA_BUNDLE"
          ∷ codes "GIT_SSL_CAINFO"
          ∷ [] in
        rw e (lookup-set_all n ks bundle env (none_of ks (refl, (refl, (refl, (refl, tt))))))
  ]

  lookup-ca_env : (ca : Bytes) (env : Dict Bytes) → lookup n (ca_env ca env) ≡ lookup n env
  unfolding member bytes_eq
  lookup-ca_env ca env = elim (Bool-cases (is_empty ca)) [
    | inl e ↦ rw e refl
    | inr e ↦ rw e (
        lookup-insert (codes "NODE_EXTRA_CA_CERTS") n ca env
        ∙ rw (unlisted (codes "NODE_EXTRA_CA_CERTS") refl) refl)
  ]

  lookup-init_env :
      (proxy : Option Bytes) (bundle ca : Bytes) (env : Dict Bytes)
      → lookup n (init_env proxy bundle ca env) ≡ lookup n env
  unfolding init_env member bytes_eq
  lookup-init_env proxy bundle ca env =
      lookup-ca_env ca _
      ∙ (lookup-bundle_env bundle _
          ∙ (lookup-proxy_env proxy _
              ∙ (lookup-delete (codes "_RUNCLAUDE_INIT") n _
                  ∙ rw (unlisted (codes "_RUNCLAUDE_INIT") refl) (
                      lookup-delete (codes "_RUNCLAUDE_CHILD") n env
                      ∙ rw (unlisted (codes "_RUNCLAUDE_CHILD") refl) refl))))

  -- In a start for claude, the command sees the host's value of every variable, other than those of
  -- the list that `scrubAWSCreds` skips, the six of the proxy, the five of the certificates, and the
  -- two by which the stages hand on their configuration.
  pub command_env-host :
      (bedrock : Bool) (config init_config : Bytes) (environ : List Bytes) (proxy : Option Bytes)
      (bundle ca : Bytes)
      → member n aws_env_skip ≡ false
      → lookup n
          (command_env (container_env true bedrock config environ) init_config proxy bundle ca)
        ≡ lookup n (env_map environ)
  unfolding command_env has_byte member bytes_eq
  command_env-host bedrock config init_config environ proxy bundle ca m =
      let started = container_env true bedrock config environ in
      lookup-init_env proxy bundle ca _
      ∙ (lookup-env_map n _
          ∙ (ap (λ es. lookup n (env_map es))
                (entries_of-append n started _
                  ∙ (ap (◌++◌ (entries_of n started)) (
                        entries_of-named n (codes "_RUNCLAUDE_INIT") init_config refl
                        ∙ rw (unlisted (codes "_RUNCLAUDE_INIT") refl) refl)
                      ∙ (append-nil _
                          ∙ entries_of-container_env_other n (unlisted child_env refl) bedrock
                              config environ m)))
              ∙ sym (lookup-env_map n environ)))
