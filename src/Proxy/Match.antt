-- ===== src/Proxy/Match.antt =====
-- proxy/match.go: the patterns of the egress allowlist.
pub mod Relation
pub mod Sound
pub mod Domain
use runclaude.Prelude.{
  ◌==◌, Bool, true, false, ◌&&◌, ◌||◌, List, [], ◌∷◌, length, drop, if◌then◌else◌,
}
use runclaude.Text.{Bytes, codes, bytes_eq, has_prefix, has_suffix, has_byte, split, to_lower}

-- `DefaultAllowedDomains`
abbrev pub default_allowed_domains : List Bytes
default_allowed_domains =
    codes "api.anthropic.com"
    ∷ codes "github.com"
    ∷ codes "*.github.com"
    ∷ codes "codeload.github.com"
    ∷ codes "release-assets.githubusercontent.com"
    ∷ codes "registry.npmjs.org"
    ∷ codes "pypi.org"
    ∷ codes "*.pypi.org"
    ∷ codes "files.pythonhosted.org"
    ∷ codes "crates.io"
    ∷ codes "static.crates.io"
    ∷ codes "proxy.golang.org"
    ∷ codes "sum.golang.org"
    ∷ codes "go.dev"
    ∷ codes "proxy.golang.org"
    ∷ codes "sum.golang.org"
    ∷ codes "go.dev"
    ∷ codes "*.go.dev"
    ∷ codes "dl.google.com"
    ∷ codes "storage.googleapis.com"
    ∷ codes "*.bazel.build"
    ∷ codes "*.azul.com"
    ∷ codes "*.maven.org"
    ∷ codes "bcr.cloudflaremirrors.com"
    ∷ []

abbrev pub star_label : Bytes
star_label = b'*' ∷ []

-- the loop over `pParts`, where the two lists are equally long
unfoldable pub match_labels : List Bytes → List Bytes → Bool
unfolding bytes_eq
match_labels (p ∷ ps) (h ∷ hs) = (bytes_eq p star_label || bytes_eq p h) && match_labels ps hs
match_labels _ _ = true

-- `matchPattern(host, pattern)`
unfoldable pub match_pattern : Bytes → Bytes → Bool
unfolding bytes_eq has_prefix has_suffix has_byte split match_labels
match_pattern host pattern =
    let base = drop 2 pattern in
    let p_parts = split b'.' pattern in
    let h_parts = split b'.' host in
    if bytes_eq pattern host
    then true
    else if has_prefix pattern (codes "*.") && (bytes_eq host base || has_suffix host (b'.' ∷ base))
    then true
    else has_byte b'*' pattern && (length p_parts == length h_parts) && match_labels p_parts h_parts

-- the loop of `MatchDomain`, over a lower-case host
unfoldable pub match_any : Bytes → List Bytes → Bool
unfolding to_lower match_pattern
match_any host [] = false
match_any host (p ∷ ps) = match_pattern host (to_lower p) || match_any host ps

-- `MatchDomain(host, patterns)`
unfoldable pub match_domain : Bytes → List Bytes → Bool
unfolding match_any
match_domain host patterns = match_any (to_lower host) patterns
