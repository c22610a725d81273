-- ===== src/Proxy/Match/Relation.antt =====
-- What a pattern stands for, said without the order in which `matchPattern` tries its forms.
use runclaude.Prelude.{◌≡◌, ◌≢◌, List, [], ◌∷◌, ◌++◌, All}
use runclaude.Text.{Bytes, codes, join}
use runclaude.Text.Split.{Lacks}
use runclaude.Proxy.Match.{star_label}

-- Label by label: a star for any one label, another label for itself.
pub data LabelsMatch : List Bytes → List Bytes → Type 0 where
  end : LabelsMatch [] []
  star :
      {h : Bytes} {ps hs : List Bytes} → LabelsMatch ps hs → LabelsMatch (star_label ∷ ps) (h ∷ hs)
  same : {h : Bytes} {ps hs : List Bytes} → LabelsMatch ps hs → LabelsMatch (h ∷ ps) (h ∷ hs)

pub data Matches (host pattern : Bytes) : Type 0 where
  -- the pattern is the host
  exact : pattern ≡ host → Matches host pattern
  -- the pattern is `*.` in front of the host
  base : pattern ≡ codes "*." ++ host → Matches host pattern
  -- the pattern is `*.` in front of a domain that the host is under, at any depth
  subdomain :
      (sub dom : Bytes)
      → pattern ≡ codes "*." ++ dom
      → host ≡ sub ++ b'.' ∷ dom
      → Matches host pattern
  -- as many labels in both, and a star in the pattern matches any one label
  labels :
      (ps hs : List Bytes)
      → ps ≢ []
      → hs ≢ []
      → All (Lacks b'.') ps
      → All (Lacks b'.') hs
      → pattern ≡ join (codes ".") ps
      → host ≡ join (codes ".") hs
      → LabelsMatch ps hs
      → Matches host pattern
