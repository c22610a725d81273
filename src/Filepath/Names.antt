-- ===== src/Filepath/Names.antt =====
-- package `path/filepath`: absolute paths as lists of names, and what `Join` makes of them.
use runclaude.Prelude.{
  ◌≡◌, refl, ap, ◌∙◌, Bool, true, false, not, ◌&&◌, ◌||◌, List, [], ◌∷◌, ◌++◌, arith, All,
  append_assoc, inl, inr, Bool-cases,
}
use runclaude.Text.{Bytes, codes, bytes_eq, has_prefix, has_byte, is_empty, split}
use runclaude.Text.Split.{Lacks, split-append, split_self, split-Lacks}
use runclaude.Filepath.{is_abs, up, enter, walk, parent_of, segments_of}

-- what a segment of a clean absolute path is, and what the name of a directory's entry is
pub record Name (s : Bytes) : Type 0 where
  pub lacks : has_byte b'/' s ≡ false
  pub filled : is_empty s ≡ false
  pub not_dot : bytes_eq s (codes ".") ≡ false
  pub not_dot_dot : bytes_eq s (codes "..") ≡ false

pub enter-Name :
    (rooted_above : List Bytes) (s : Bytes) → Name s → enter true rooted_above s ≡ s ∷ rooted_above
unfolding enter
enter-Name above s n = ground (arith, n.filled, n.not_dot, n.not_dot_dot)

up-Names : (above : List Bytes) → All Name above → All Name (up true above)
unfolding up
up-Names [] k = k
up-Names (x ∷ xs) k = rw (k.0.not_dot_dot) k.1

enter-Names :
    (above : List Bytes) (s : Bytes) → Lacks b'/' s → All Name above → All Name (enter true above s)
unfolding enter
enter-Names above s l h = elim (Bool-cases (is_empty s || bytes_eq s (codes "."))) [
  | inl e ↦ rw e h
  | inr e ↦ rw e (elim (Bool-cases (bytes_eq s (codes ".."))) [
    | inl d ↦ rw d (up-Names above h)
    | inr d ↦
        rw d
          (record { lacks = l; filled = ground arith; not_dot = ground arith; not_dot_dot = d }, h)
  ])
]

walk-Names :
    (above segments : List Bytes)
    → All (Lacks b'/') segments
    → All Name above
    → All Name (walk true above segments)
unfolding walk
walk-Names above [] l h = h
walk-Names above (s ∷ segments) l h =
    walk-Names (enter true above s) segments l.1 (enter-Names above s l.0 h)

-- An absolute path is walked in names.
pub segments_of-Names : (p : Bytes) → is_abs p ≡ true → All Name (segments_of p)
unfolding segments_of
segments_of-Names p abs = rw abs (walk-Names [] (split b'/' p) (split-Lacks b'/' p) tt)

walk-parent_of :
    (above : List Bytes) (t : Bytes)
    → All Name above
    → walk true [] (split b'/' (parent_of true above ++ t)) ≡ walk true above (split b'/' t)
unfolding parent_of walk
walk-parent_of [] t h = unfold split in refl
walk-parent_of (s ∷ above) t h =
    ap (λ p. walk true [] (split b'/' p)) (append_assoc (parent_of true above) (s ++ codes "/") t)
    ∙ (walk-parent_of above ((s ++ codes "/") ++ t) h.1
        ∙ (ap (λ p. walk true above (split b'/' p)) (append_assoc s (codes "/") t)
            ∙ (ap (walk true above) (split-append b'/' s t h.0.lacks)
                ∙ ap (λ a. walk true a (split b'/' t)) (enter-Name above s h.0))))

pub is_abs-parent_of : (above : List Bytes) (t : Bytes) → is_abs (parent_of true above ++ t) ≡ true
unfolding is_abs parent_of has_prefix
is_abs-parent_of [] t = refl
is_abs-parent_of (s ∷ above) t =
    ap is_abs (append_assoc (parent_of true above) (s ++ codes "/") t)
    ∙ is_abs-parent_of above ((s ++ codes "/") ++ t)

-- The path of a name in a directory leads back to them.
pub segments_of-parent_of :
    (above : List Bytes) (n : Bytes)
    → All Name above
    → Name n
    → segments_of (parent_of true above ++ n) ≡ n ∷ above
unfolding segments_of
segments_of-parent_of above n h k = rw (is_abs-parent_of above n) (
    walk-parent_of above n h
    ∙ (ap (walk true above) (split_self b'/' n k.lacks) ∙ unfold walk in enter-Name above n k))

-- the test for a name, for concrete ones
unfoldable pub is_name : Bytes → Bool
unfolding has_byte bytes_eq
is_name s =
    not (has_byte b'/' s)
    && not (is_empty s)
    && not (bytes_eq s (codes "."))
    && not (bytes_eq s (codes ".."))

pub is_name-Name : (s : Bytes) → is_name s ≡ true → Name s
unfolding is_name
is_name-Name s h = record {
  lacks = ground arith;
  filled = ground arith;
  not_dot = ground arith;
  not_dot_dot = ground arith;
}
