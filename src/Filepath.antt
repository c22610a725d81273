-- ===== src/Filepath.antt =====
-- Go's package `path/filepath` on Unix, as far as runclaude uses it: paths as bytes.
pub mod Names
pub mod Join
use runclaude.Prelude.{
  ◌==◌, Bool, true, false, ◌||◌, List, [], ◌∷◌, ◌++◌, Option, none, some, if◌then◌else◌,
}
use runclaude.Text.{Bytes, codes, bytes_eq, has_prefix, is_empty, split, join}

-- `filepath.IsAbs(p)`
unfoldable pub is_abs : Bytes → Bool
unfolding has_prefix
is_abs p = has_prefix p (codes "/")

-- the segments so far, the last one first, behind `..`: there is nothing above the root
unfoldable pub up : Bool → List Bytes → List Bytes
unfolding bytes_eq
up true [] = []
up false [] = codes ".." ∷ []
up rooted (s ∷ above) = if bytes_eq s (codes "..") then codes ".." ∷ s ∷ above else above

unfoldable pub enter : Bool → List Bytes → Bytes → List Bytes
unfolding bytes_eq up
enter rooted above s =
    if is_empty s || bytes_eq s (codes ".")
    then above
    else if bytes_eq s (codes "..")
    then up rooted above
    else s ∷ above

unfoldable pub walk : Bool → List Bytes → List Bytes → List Bytes
unfolding enter
walk rooted above [] = above
walk rooted above (s ∷ segments) = walk rooted (enter rooted above s) segments

-- what stands before the last segment
unfoldable pub parent_of : Bool → List Bytes → Bytes
parent_of true [] = codes "/"
parent_of false [] = []
parent_of rooted (s ∷ above) = parent_of rooted above ++ (s ++ codes "/")

unfoldable pub render : Bool → List Bytes → Bytes
unfolding parent_of
render true [] = codes "/"
render false [] = codes "."
render rooted (s ∷ above) = parent_of rooted above ++ s

-- the segments of `filepath.Clean(p)`, the last one first
unfoldable pub segments_of : Bytes → List Bytes
unfolding walk is_abs split
segments_of p = walk (is_abs p) [] (split b'/' p)

-- `filepath.Clean(p)`
unfoldable pub clean : Bytes → Bytes
unfolding segments_of render is_abs
clean p = render (is_abs p) (segments_of p)

-- `filepath.Join(elem...)`
unfoldable pub join_path : List Bytes → Bytes
unfolding clean join
join_path [] = []
join_path (e ∷ elems) =
    let rest = join_path elems in if is_empty e then rest else clean (join (codes "/") (e ∷ elems))

-- `filepath.Dir(p)` of a path, and what stands behind its last slash
unfoldable pub cut_last : Bytes → Option (Bytes × Bytes)
cut_last [] = none
cut_last (c ∷ s) = elim (cut_last s) [
  | some (d, b) ↦ some (c ∷ d, b)
  | none ↦ if c == b'/' then some (codes "/", s) else none
]

abbrev pub dir_part : Option (Bytes × Bytes) → Bytes
dir_part none = []
dir_part (some (d, b)) = d

unfoldable pub dir_of : Bytes → Bytes
unfolding clean cut_last
dir_of p = clean (dir_part (cut_last p))

-- `filepath.SplitList(path)`
unfoldable pub split_list : Bytes → List Bytes
unfolding split
split_list s = if is_empty s then [] else split b':' s
