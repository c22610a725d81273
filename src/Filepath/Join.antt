-- ===== src/Filepath/Join.antt =====
-- package `path/filepath`: `Join` on an absolute directory, and which of two paths in one directory
-- contains the other.
use runclaude.Prelude.{
  ◌≡◌, refl, sym, ap, ◌∙◌, true, false, ◌||◌, List, [], ◌∷◌, ◌++◌, arith, append_assoc,
}
use runclaude.Text.{Bytes, codes, bytes_eq, has_prefix, has_byte, is_empty, split, join}
use runclaude.Text.Split.{split_self, split-append_between}
use runclaude.Mountinfo.{trim_slashes, path_contains}
use runclaude.Filepath.{is_abs, enter, walk, parent_of, render, segments_of, clean, join_path}
use runclaude.Filepath.Names.{
  Name, enter-Name, is_abs-parent_of, segments_of-Names, segments_of-parent_of,
}

-- `d + "/" + n` for the clean form of an absolute directory `d`
unfoldable pub entry_path : Bytes → Bytes → Bytes
unfolding parent_of
entry_path d n = parent_of true (segments_of d) ++ n

is_abs-append : (p t : Bytes) → is_abs p ≡ true → is_abs (p ++ t) ≡ true
unfolding is_abs has_prefix
is_abs-append [] t h = cc
is_abs-append (c ∷ p) t h = h

is_abs-filled : (p : Bytes) → is_abs p ≡ true → is_empty p ≡ false
unfolding is_abs has_prefix
is_abs-filled [] h = cc
is_abs-filled (c ∷ p) h = refl

walk-append : (above a b : List Bytes) → walk true above (a ++ b) ≡ walk true (walk true above a) b
unfolding walk
walk-append above [] b = refl
walk-append above (s ∷ a) b = walk-append (enter true above s) a b

segments_of-join :
    (p n : Bytes) → is_abs p ≡ true → Name n → segments_of (p ++ b'/' ∷ n) ≡ n ∷ segments_of p
unfolding segments_of
segments_of-join p n abs k = rw (is_abs-append p (b'/' ∷ n) abs) (
    rw abs (
      ap (walk true []) (split-append_between b'/' p n)
      ∙ (walk-append [] (split b'/' p) (split b'/' n)
          ∙ (ap (walk true (walk true [] (split b'/' p))) (split_self b'/' n k.lacks)
              ∙ unfold walk in enter-Name _ n k))))

clean_lem : (p : Bytes) → clean p ≡ render (is_abs p) (segments_of p)
unfolding clean
clean_lem p = refl

clean_entry : (p n : Bytes) → is_abs p ≡ true → Name n → clean (p ++ b'/' ∷ n) ≡ entry_path p n
unfolding entry_path render
clean_entry p n abs k =
    clean_lem (p ++ b'/' ∷ n)
    ∙ rw (is_abs-append p (b'/' ∷ n) abs) (rw (segments_of-join p n abs k))

join_path_two : (p n : Bytes) → is_empty p ≡ false → join_path (p ∷ n ∷ []) ≡ clean (p ++ b'/' ∷ n)
unfolding join_path join
join_path_two p n h = ground arith

join_path_three :
    (p m n : Bytes)
    → is_empty p ≡ false
    → join_path (p ∷ m ∷ n ∷ []) ≡ clean (p ++ b'/' ∷ (m ++ b'/' ∷ n))
unfolding join_path join
join_path_three p m n h = ground arith

-- `filepath.Join(p, n)` of an absolute path and a name
pub join_path_entry :
    (p n : Bytes) → is_abs p ≡ true → Name n → join_path (p ∷ n ∷ []) ≡ entry_path p n
join_path_entry p n abs k = join_path_two p n (is_abs-filled p abs) ∙ clean_entry p n abs k

pub segments_of-entry_path :
    (p n : Bytes) → is_abs p ≡ true → Name n → segments_of (entry_path p n) ≡ n ∷ segments_of p
unfolding entry_path
segments_of-entry_path p n abs k =
    segments_of-parent_of (segments_of p) n (segments_of-Names p abs) k

pub is_abs-entry_path : (p n : Bytes) → is_abs (entry_path p n) ≡ true
unfolding entry_path
is_abs-entry_path p n = is_abs-parent_of (segments_of p) n

entry_path-segments :
    (p n : Bytes) {above : List Bytes}
    → segments_of p ≡ above
    → entry_path p n ≡ parent_of true above ++ n
unfolding entry_path
entry_path-segments p n e = ap (λ s. parent_of true s ++ n) e

entry_path_flat :
    (p m n : Bytes) → (parent_of true (m ∷ segments_of p) ++ n) ≡ entry_path p (m ++ b'/' ∷ n)
unfolding entry_path parent_of
entry_path_flat p m n =
    append_assoc (parent_of true (segments_of p)) (m ++ codes "/") n
    ∙ ap (◌++◌ (parent_of true (segments_of p))) (append_assoc m (codes "/") n)

-- `filepath.Join(p, m, n)`, and `filepath.Join(filepath.Join(p, m), n)`
segments_of-trailing : (p : Bytes) → is_abs p ≡ true → segments_of (p ++ b'/' ∷ []) ≡ segments_of p
unfolding segments_of walk enter split
segments_of-trailing p abs = rw (is_abs-append p (b'/' ∷ []) abs) (
    rw abs (
      ap (walk true []) (split-append_between b'/' p []) ∙ walk-append [] (split b'/' p) ([] ∷ [])))

-- `filepath.Join(p, "/" + n)`
pub join_path_rooted :
    (p n : Bytes) → is_abs p ≡ true → Name n → join_path (p ∷ (b'/' ∷ n) ∷ []) ≡ entry_path p n
unfolding entry_path
join_path_rooted p n abs k =
    join_path_two p (b'/' ∷ n) (is_abs-filled p abs)
    ∙ (ap clean (sym (append_assoc p (b'/' ∷ []) (b'/' ∷ n)))
        ∙ (clean_entry (p ++ b'/' ∷ []) n (is_abs-append p (b'/' ∷ []) abs) k
            ∙ entry_path-segments (p ++ b'/' ∷ []) n (segments_of-trailing p abs)))

pub entry_path_entry :
    (p m n : Bytes)
    → is_abs p ≡ true
    → Name m
    → entry_path (entry_path p m) n ≡ entry_path p (m ++ b'/' ∷ n)
entry_path_entry p m n abs k =
    entry_path-segments (entry_path p m) n (segments_of-entry_path p m abs k)
    ∙ entry_path_flat p m n

pub join_path_deep :
    (p m n : Bytes)
    → is_abs p ≡ true
    → Name m
    → Name n
    → join_path (p ∷ m ∷ n ∷ []) ≡ entry_path p (m ++ b'/' ∷ n)
join_path_deep p m n abs j k =
    join_path_three p m n (is_abs-filled p abs)
    ∙ (ap clean (sym (append_assoc p (b'/' ∷ m) (b'/' ∷ n)))
        ∙ (clean_entry (p ++ b'/' ∷ m) n (is_abs-append p (b'/' ∷ m) abs) k
            ∙ (entry_path-segments (p ++ b'/' ∷ m) n (segments_of-join p m abs j)
                ∙ entry_path_flat p m n)))

append_filled : (d n : Bytes) → is_empty n ≡ false → is_empty (d ++ n) ≡ false
append_filled [] n h = h
append_filled (x ∷ d) n h = refl

-- A path whose end is no slash keeps it.
trim_slashes-append :
    (d n : Bytes) → trim_slashes n ≡ n → is_empty n ≡ false → trim_slashes (d ++ n) ≡ d ++ n
unfolding trim_slashes
trim_slashes-append [] n h f = h
trim_slashes-append (c ∷ d) n h f =
    rw (trim_slashes-append d n h f) (ground (arith, append_filled d n f))

has_prefix-same : (d s t : Bytes) → has_prefix (d ++ s) (d ++ t) ≡ has_prefix s t
unfolding has_prefix
has_prefix-same [] s t = refl
has_prefix-same (c ∷ d) s t = ground (arith, has_prefix-same d s t)

bytes_eq-same : (d s t : Bytes) → bytes_eq (d ++ s) (d ++ t) ≡ bytes_eq s t
unfolding bytes_eq
bytes_eq-same [] s t = refl
bytes_eq-same (c ∷ d) s t = ground (arith, bytes_eq-same d s t)

-- Of two paths in a directory one contains the other if their rests say so.
contains_same :
    (d n c : Bytes)
    → trim_slashes n ≡ n
    → is_empty n ≡ false
    → path_contains (d ++ n) (d ++ c) ≡ (bytes_eq c n || has_prefix c (n ++ codes "/"))
unfolding path_contains
contains_same d n c h f =
    rw (trim_slashes-append d n h f, append_filled d n f)
      (rw (bytes_eq-same d c n, append_assoc d n (codes "/"))
        (rw (has_prefix-same d c (n ++ codes "/"))))

pub path_contains-entry_path :
    (d n c : Bytes)
    → trim_slashes n ≡ n
    → is_empty n ≡ false
    → path_contains (entry_path d n) (entry_path d c)
      ≡ (bytes_eq c n || has_prefix c (n ++ codes "/"))
unfolding entry_path
path_contains-entry_path d n c h f = contains_same (parent_of true (segments_of d)) n c h f

-- A name, and a name followed by a path, end in no slash and hold none before it.
pub trim_slashes-lacks : (n : Bytes) → has_byte b'/' n ≡ false → trim_slashes n ≡ n
unfolding trim_slashes has_byte
trim_slashes-lacks [] h = refl
trim_slashes-lacks (c ∷ n) h = ground (arith, trim_slashes-lacks n)

pub has_prefix-name :
    (c n : Bytes) → has_byte b'/' c ≡ false → has_prefix c (n ++ codes "/") ≡ false
unfolding has_prefix has_byte
has_prefix-name [] [] h = refl
has_prefix-name [] (y ∷ n) h = refl
has_prefix-name (x ∷ c) [] h = ground arith
has_prefix-name (x ∷ c) (y ∷ n) h = ground (arith, has_prefix-name c n)
