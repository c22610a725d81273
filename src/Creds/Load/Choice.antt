-- ===== src/Creds/Load/Choice.antt =====
-- creds/load.go: which of the sources of credentials wins.
use runclaude.Prelude.{
  ◌≡◌, refl, sym, ap, ◌∙◌, Bool, true, false, not, ◌&&◌, List, [], ◌∷◌, ◌++◌, Option, none, some,
  if◌then◌else◌, arith,
}
use runclaude.Text.{Bytes, codes, is_empty}
use runclaude.Creds.Load.{
  AnthropicCredentials, Parsed, key_only, from_parsed, from_file, or_else, from_names,
  load_anthropic_credentials,
}

-- exactly one of the two credentials is there, and a path comes with a bearer
abbrev pub single : AnthropicCredentials → Bool
single c =
    if is_empty c.api_key then not (is_empty c.bearer) else is_empty c.bearer && is_empty c.path

abbrev none_or_single : Option AnthropicCredentials → Bool
none_or_single none = true
none_or_single (some c) = single c

module _ (read_file : Bytes → Option Bytes) (decode : Bytes → Option Parsed) where
  from_parsed-single :
      (p : Bytes) (o : Option Parsed) → none_or_single (from_parsed read_file decode p o) ≡ true
  unfolding from_parsed
  from_parsed-single p none = refl
  from_parsed-single p (some q) = ground arith

  from_file-single :
      (p : Bytes) (o : Option Bytes) → none_or_single (from_file read_file decode p o) ≡ true
  unfolding from_file
  from_file-single p none = refl
  from_file-single p (some d) = from_parsed-single p (decode d)

  or_else-single :
      (o r : Option AnthropicCredentials)
      → none_or_single o ≡ true
      → none_or_single r ≡ true
      → none_or_single (or_else read_file decode o r) ≡ true
  unfolding or_else
  or_else-single none r a b = b
  or_else-single (some c) r a b = a

  from_names-single :
      (ps : List Bytes) (key : Bytes) → none_or_single (from_names read_file decode ps key) ≡ true
  unfolding from_names
  from_names-single [] key = ground arith
  from_names-single (p ∷ ps) key =
      or_else-single (from_file read_file decode p (read_file p))
        (from_names read_file decode ps key) (from_file-single p (read_file p))
        (from_names-single ps key)

  -- If `LoadAnthropicCredentials` returns credentials, they are exactly one of an API key and a
  -- bearer, and a path comes with a bearer only.
  pub load_anthropic_credentials-single :
      (home key : Bytes) (c : AnthropicCredentials)
      → load_anthropic_credentials read_file decode home key ≡ some c
      → single c ≡ true
  unfolding load_anthropic_credentials
  load_anthropic_credentials-single home key c e =
      (ap none_or_single (sym e))
      ∙ from_names-single
          ((home ++ codes "/.claude/.credentials.json")
            ∷ (home ++ codes "/.claude/credentials.json")
            ∷ [])
          key

  -- a file whose access token decodes is used before all else
  pub load_anthropic_credentials-bearer :
      (home key data_of : Bytes) (q : Parsed)
      → read_file (home ++ codes "/.claude/.credentials.json") ≡ some data_of
      → decode data_of ≡ some q
      → is_empty q.access_token ≡ false
      → load_anthropic_credentials read_file decode home key
        ≡ some (record {
          api_key = [];
          bearer = q.access_token;
          refresh_token = q.refresh_token;
          path = home ++ codes "/.claude/.credentials.json";
        })
  unfolding load_anthropic_credentials from_names from_file or_else from_parsed
  load_anthropic_credentials-bearer home key data_of q there decoded filled =
      rw there (rw decoded (ground (arith, filled)))

  -- the environment's key is the last resort
  pub load_anthropic_credentials-env :
      (home key : Bytes)
      → read_file (home ++ codes "/.claude/.credentials.json") ≡ none
      → read_file (home ++ codes "/.claude/credentials.json") ≡ none
      → load_anthropic_credentials read_file decode home key
        ≡ (if is_empty key then none else some (key_only key))
  unfolding load_anthropic_credentials from_names from_file or_else
  load_anthropic_credentials-env home key a b = rw a (rw b refl)
