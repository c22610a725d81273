-- ===== src/Proxy/Match/Sound.antt =====
-- `match_pattern` against `Matches`.
use runclaude.Prelude.{
  suc, ◌≡◌, ◌≢◌, ◌↔◌, inl, inr, true, false, ◌||◌, ◌&&◌, List, [], ◌∷◌, ◌++◌, refl, sym, ap, ◌∙◌,
  arith, length, drop, All, Bool-cases, take, ◌-◌,
}
use runclaude.Text.{Bytes, codes, join, split, has_byte, has_prefix, has_suffix, bytes_eq}
use runclaude.Text.Equality.{bytes_eq_iff, bytes_eq_refl}
use runclaude.Text.Affix.{has_prefix-append, has_prefix-split, has_suffix-append, has_suffix-split}
use runclaude.Text.Split.{Lacks, join-split, split-Lacks, split-join, split_ne_nil, has_byte-append}
use runclaude.Proxy.Match.{star_label, match_labels, match_pattern}
use runclaude.Proxy.Match.Relation.{
  LabelsMatch, end, star, same, Matches, exact, base, subdomain, labels,
}

LabelsMatch-first :
    (p h : Bytes) {ps hs : List Bytes}
    → (bytes_eq p star_label || bytes_eq p h) ≡ true
    → LabelsMatch ps hs
    → LabelsMatch (p ∷ ps) (h ∷ hs)
LabelsMatch-first p h t l = elim (Bool-cases (bytes_eq p star_label)) [
  | inl e ↦ rw ((bytes_eq_iff p star_label).0 e) (star l)
  | inr e ↦ rw ((bytes_eq_iff p h).0 (ground arith)) (same l)
]

match_labels_sound :
    (ps hs : List Bytes) → length ps ≡ length hs → match_labels ps hs ≡ true → LabelsMatch ps hs
unfolding match_labels
match_labels_sound [] [] e t = end
match_labels_sound [] (h ∷ hs) e t = absurd (omega arith)
match_labels_sound (p ∷ ps) [] e t = absurd (omega arith)
match_labels_sound (p ∷ ps) (h ∷ hs) e t =
    LabelsMatch-first p h (ground arith) (match_labels_sound ps hs (omega arith) (ground arith))

match_labels_complete :
    {ps hs : List Bytes} → LabelsMatch ps hs → (length ps ≡ length hs) × (match_labels ps hs ≡ true)
unfolding match_labels
match_labels_complete end = (refl, refl)
match_labels_complete (star {h} l) =
    let (e, t) = match_labels_complete l in (ap suc e, ground (arith, bytes_eq_refl star_label))
match_labels_complete (same {h} l) =
    let (e, t) = match_labels_complete l in (ap suc e, ground (arith, bytes_eq_refl h))

has_byte-tail :
    (p : Bytes) (ps : List Bytes)
    → has_byte b'*' (join (codes ".") (p ∷ ps)) ≡ false
    → has_byte b'*' (join (codes ".") ps) ≡ false
unfolding has_byte join
has_byte-tail p [] h = refl
has_byte-tail p (q ∷ ps) h =
    ground (arith, has_byte-append b'*' p (codes "." ++ join (codes ".") (q ∷ ps)))

starred : (ps : List Bytes) → has_byte b'*' (join (codes ".") (star_label ∷ ps)) ≡ true
unfolding has_byte join
starred [] = refl
starred (q ∷ ps) = refl

-- With no star in the pattern the labels agree one by one.
LabelsMatch-eq :
    {ps hs : List Bytes} → LabelsMatch ps hs → has_byte b'*' (join (codes ".") ps) ≡ false → ps ≡ hs
LabelsMatch-eq end h = refl
LabelsMatch-eq (star {ps} l) h = cc (starred ps)
LabelsMatch-eq (same {h = x} {ps} l) h = ap (◌∷◌ x) (LabelsMatch-eq l (has_byte-tail x ps h))

labels-sound :
    (host pattern : Bytes)
    → length (split b'.' pattern) ≡ length (split b'.' host)
    → match_labels (split b'.' pattern) (split b'.' host) ≡ true
    → Matches host pattern
labels-sound host pattern e t =
    labels (split b'.' pattern) (split b'.' host) (split_ne_nil b'.' pattern)
      (split_ne_nil b'.' host) (split-Lacks b'.' pattern) (split-Lacks b'.' host)
      (sym (join-split b'.' pattern)) (sym (join-split b'.' host)) (match_labels_sound _ _ e t)

wildcard_sound :
    (host pattern : Bytes)
    → has_prefix pattern (codes "*.") ≡ true
    → (bytes_eq host (drop 2 pattern) || has_suffix host (b'.' ∷ drop 2 pattern)) ≡ true
    → Matches host pattern
wildcard_sound host pattern p t =
    let e : pattern ≡ codes "*." ++ drop 2 pattern = has_prefix-split pattern (codes "*.") p in
    elim (Bool-cases (bytes_eq host (drop 2 pattern))) [
      | inl b ↦ base (e ∙ ap (◌++◌ (codes "*.")) (sym ((bytes_eq_iff host (drop 2 pattern)).0 b)))
      | inr b ↦
          subdomain (take (length host - length (b'.' ∷ drop 2 pattern)) host) (drop 2 pattern) e
            (has_suffix-split host (b'.' ∷ drop 2 pattern) (ground arith))
    ]

match_pattern_sound :
    (host pattern : Bytes) → match_pattern host pattern ≡ true → Matches host pattern
unfolding match_pattern
match_pattern_sound host pattern h = elim (Bool-cases (bytes_eq pattern host)) [
  | inl e ↦ exact ((bytes_eq_iff pattern host).0 e)
  | inr e ↦
      elim (Bool-cases (
        has_prefix pattern (codes "*.")
        && (bytes_eq host (drop 2 pattern) || has_suffix host (b'.' ∷ drop 2 pattern)))) [
          | inl w ↦ wildcard_sound host pattern (ground arith) (ground arith)
          | inr w ↦ labels-sound host pattern (ground arith) (ground arith)
        ]
]

subdomain-test : (sub dom : Bytes) → match_pattern (sub ++ b'.' ∷ dom) (codes "*." ++ dom) ≡ true
unfolding match_pattern
subdomain-test sub dom =
    ground (arith, has_prefix-append (codes "*.") dom, has_suffix-append sub (b'.' ∷ dom))

base-test : (host : Bytes) → match_pattern host (codes "*." ++ host) ≡ true
unfolding match_pattern
base-test host = ground (arith, has_prefix-append (codes "*.") host, bytes_eq_refl host)

exact-test : (host : Bytes) → match_pattern host host ≡ true
unfolding match_pattern
exact-test host = ground (arith, bytes_eq_refl host)

label_test :
    (host pattern : Bytes) {ps hs : List Bytes}
    → has_byte b'*' pattern ≡ true
    → split b'.' pattern ≡ ps
    → split b'.' host ≡ hs
    → (length ps ≡ length hs) × (match_labels ps hs ≡ true)
    → match_pattern host pattern ≡ true
unfolding match_pattern
label_test host pattern s ep eh t = rw (s, ep, eh) (ground arith)

labels-test :
    (ps hs : List Bytes)
    → ps ≢ []
    → hs ≢ []
    → All (Lacks b'.') ps
    → All (Lacks b'.') hs
    → LabelsMatch ps hs
    → match_pattern (join (codes ".") hs) (join (codes ".") ps) ≡ true
labels-test [] hs np nh fp fh l = absurd (np refl)
labels-test (p ∷ ps) [] np nh fp fh l = absurd (nh refl)
labels-test (p ∷ ps) (h ∷ hs) np nh fp fh l =
    let pattern = join (codes ".") (p ∷ ps) in
    elim (Bool-cases (has_byte b'*' pattern)) [
      | inl starry ↦
          label_test (join (codes ".") (h ∷ hs)) pattern starry (split-join b'.' p ps fp)
            (split-join b'.' h hs fh) (match_labels_complete l)
      | inr plain ↦ rw (← LabelsMatch-eq l plain) (exact-test pattern)
    ]

match_pattern_complete :
    (host pattern : Bytes) → Matches host pattern → match_pattern host pattern ≡ true
match_pattern_complete host pattern (exact e) = rw e (exact-test host)
match_pattern_complete host pattern (base e) = rw e (base-test host)
match_pattern_complete host pattern (subdomain sub dom p h) = rw (p, h) (subdomain-test sub dom)
match_pattern_complete host pattern (labels ps hs np nh fp fh p h l) =
    rw (p, h) (labels-test ps hs np nh fp fh l)

-- `matchPattern` answers true exactly on the hosts that the pattern stands for: the pattern
-- itself, for `*.dom` the domain `dom` and all that ends in `.dom`, and, label by label, as many
-- labels as the pattern has, a `*` label matching any one.
pub match_pattern_iff :
    (host pattern : Bytes) → (match_pattern host pattern ≡ true) ↔ Matches host pattern
match_pattern_iff host pattern =
    (match_pattern_sound host pattern, match_pattern_complete host pattern)
