-- ===== src/Launch/Exclude/Listed.antt =====
-- vcs.go, `vcsExcludeBinds`: what the copies say, and where they are shown.
use runclaude.Prelude.{
  ◌≡◌, refl, ap, ◌∙◌, ℕ, suc, Bool, true, ◌||◌, if◌then◌else◌, false, List, [], ◌∷◌, Option, none,
  some, map, arith, All, Bool-cases,
}
use runclaude.Filepath.{join_path}
use runclaude.Text.{Bytes, codes, bytes_eq, split, is_empty, has_byte, trim_space}
use runclaude.Text.Equality.{bytes_eq_iff, bytes_eq_refl}
use runclaude.Vcs.{File, absent, unreadable, contents, any_line, exclude_copy, write_exclude_copy}
use runclaude.Vcs.Exclude.{exclude_copy-any_line}
use runclaude.Binds.{Bind}
use runclaude.Launch.Binds.{Host}
use runclaude.Launch.Exclude.{
  Copy, add_copy, add_path, exclude_of, resolve_git_dir, resolve_jj_git_store, copies_from,
  exclude_paths, vcs_exclude_binds,
}

-- the copy lists the pattern
abbrev pub Lists : Bytes → Copy → Type 0
Lists pattern c = any_line pattern (split 10 c.1) ≡ true

copy-Lists :
    (pattern existing : Bytes)
    → has_byte 10 pattern ≡ false
    → trim_space pattern ≡ pattern
    → is_empty pattern ≡ false
    → any_line pattern (split 10 (exclude_copy pattern existing)) ≡ true
copy-Lists pattern existing one trimmed filled = ground (
  arith,
  exclude_copy-any_line pattern pattern one trimmed filled existing,
  bytes_eq_refl pattern,
  Bool-cases (any_line pattern (split 10 existing)),
)

write-Lists :
    (pattern : Bytes) (f : File) {out : Bytes}
    → has_byte 10 pattern ≡ false
    → trim_space pattern ≡ pattern
    → is_empty pattern ≡ false
    → write_exclude_copy pattern f ≡ some out
    → any_line pattern (split 10 out) ≡ true
unfolding write_exclude_copy
write-Lists pattern unreadable one trimmed filled h = cc
write-Lists pattern absent {out} one trimmed filled h =
    let e : exclude_copy pattern [] ≡ out = cc in
    rw (← e) (copy-Lists pattern [] one trimmed filled)
write-Lists pattern (contents b) {out} one trimmed filled h =
    let e : exclude_copy pattern b ≡ out = cc in rw (← e) (copy-Lists pattern b one trimmed filled)

add_copy-some :
    (b : Bind) (o : Option Bytes) (rest : Option (List Copy)) {copies : List Copy}
    → add_copy b o rest ≡ some copies
    → (out : Bytes) × (later : List Copy) × (o ≡ some out)
      × (rest ≡ some later)
      × (copies ≡ (b, out) ∷ later)
add_copy-some b none rest h = cc
add_copy-some b (some out) none h = cc
add_copy-some b (some out) (some later) h = (out, later, refl, refl, cc)

-- how often a path is in the list
unfoldable pub count : Bytes → List Bytes → ℕ
count place [] = 0
count place (p ∷ ps) = if bytes_eq p place then suc (count place ps) else count place ps

-- the path is that of the exclude file in the directory
unfoldable pub is_exclude_of : Option Bytes → Bytes → Bool
is_exclude_of none place = false
is_exclude_of (some d) place = bytes_eq (join_path (d ∷ codes "info" ∷ codes "exclude" ∷ [])) place

count-add_path :
    (place : Bytes) (a b : Option Bytes)
    → count place (add_path (exclude_of a) (exclude_of b))
      ≡ (if is_exclude_of a place || is_exclude_of b place then 1 else 0)
unfolding count is_exclude_of
count-add_path place none none = refl
count-add_path place none (some d) = ground arith
count-add_path place (some d) none = ground arith
count-add_path place (some d) (some e) =
    let p = join_path (d ∷ codes "info" ∷ codes "exclude" ∷ []) in
    let q = join_path (e ∷ codes "info" ∷ codes "exclude" ∷ []) in
    ground (arith, bytes_eq_iff p q, bytes_eq_iff p place, bytes_eq_iff q place)

-- where a copy is shown
abbrev pub shown_at : Copy → Bytes
shown_at c = c.0.target

module _ (read : Bytes → File) (decimal : ℕ → Bytes) (out_dir pattern : Bytes)
    (one : has_byte 10 pattern ≡ false) (trimmed : trim_space pattern ≡ pattern)
    (filled : is_empty pattern ≡ false) where
  copies_from-Lists :
      (i : ℕ) (paths : List Bytes) {copies : List Copy}
      → copies_from read decimal out_dir pattern i paths ≡ some copies
      → (map shown_at copies ≡ paths) × All (Lists pattern) copies
  unfolding copies_from
  copies_from-Lists i [] {copies} h = let e : copies ≡ [] = cc in rw e (refl, tt)
  copies_from-Lists i (p ∷ paths) {copies} h =
      let (out, later, written, rest, e) = add_copy-some _ _ _ h in
      let below = copies_from-Lists (suc i) paths rest in
      rw e (ap (◌∷◌ p) below.0, (write-Lists pattern (read p) one trimmed filled written, below.1))

  -- For a pattern with no newline and no white space around it, the copies that `vcsExcludeBinds`
  -- returns are shown at the file info/exclude of the git directory and of the jj store, where they
  -- are found, once each and once in all where these are the same, and nowhere else; and each copy
  -- lists the pattern.
  pub vcs_exclude_binds-Lists :
      (h : Host) (cwd place : Bytes) {copies : List Copy}
      → vcs_exclude_binds h read decimal cwd out_dir pattern ≡ some copies
      → (count place (map shown_at copies) ≡ (
          if is_exclude_of (resolve_git_dir h cwd) place
            || is_exclude_of (resolve_jj_git_store h cwd) place
          then 1
          else 0))
        × All (Lists pattern) copies
  unfolding vcs_exclude_binds exclude_paths
  vcs_exclude_binds-Lists h cwd place e =
      let r = copies_from-Lists 1 (exclude_paths h cwd) e in
      (
        ap (count place) (r.0)
            ∙ count-add_path place (resolve_git_dir h cwd) (resolve_jj_git_store h cwd),
        r.1,
      )
