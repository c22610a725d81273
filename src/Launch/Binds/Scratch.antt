-- ===== src/Launch/Binds/Scratch.antt =====
-- main.go: what is mounted at the scratch directories of claude.
use runclaude.Prelude.{
  ◌≡◌, refl, sym, ap, ◌∙◌, Bool, true, false, List, [], ◌∷◌, ◌++◌, some, map, append_assoc, arith,
  All, Bool-cases, inl, inr,
}
use runclaude.Text.{Bytes, codes, bytes_eq, member, has_prefix, is_empty}
use runclaude.Text.Equality.{bytes_eq_iff, bytes_eq_refl, bytes_eq_comm}
use runclaude.Filepath.{is_abs, join_path, segments_of}
use runclaude.Filepath.Names.{Name, is_name, is_name-Name}
use runclaude.Mountinfo.{path_contains}
use runclaude.Filepath.Join.{
  path_contains-entry_path, trim_slashes-lacks, entry_path, join_path_entry, is_abs-entry_path,
  segments_of-entry_path,
}
use runclaude.Binds.{Bind, dest, place, dedup_from, dedup_binds}
use runclaude.Binds.Visible.{
  visible_at, Elsewhere, Beside, dedup_from-append, place-Elsewhere, dedup_from-Elsewhere,
  visible_at-place_new, visible_at-dedup_from,
}
use runclaude.Launch.Binds.{Host}
use runclaude.Launch.Binds.Hidden.{All-member, beside}
use runclaude.Launch.Binds.Claude.{
  claude_dir, claude_scratch, tmpfs_at, claude_scratch_binds, extra_binds,
}
use runclaude.Launch.Binds.Order.{
  Start, json_bind, when, workspace_part, settings_part, start_binds,
}

is_abs-filled : (p : Bytes) → is_abs p ≡ true → is_empty p ≡ false
unfolding is_abs has_prefix
is_abs-filled [] h = cc
is_abs-filled (c ∷ p) h = refl

dest-tmpfs_at : (d : Bytes) → is_abs d ≡ true → dest (tmpfs_at d) ≡ d
unfolding dest
dest-tmpfs_at d h = rw (is_abs-filled d h)

module _ (home : Bytes) (abs : is_abs home ≡ true) where
  scratch : Bytes → Bytes
  scratch name = join_path (claude_dir home ∷ name ∷ [])

  home_claude : claude_dir home ≡ entry_path home (codes ".claude")
  unfolding is_name
  home_claude = join_path_entry home (codes ".claude") abs (is_name-Name _ refl)

  dir_abs : is_abs (claude_dir home) ≡ true
  dir_abs = rw home_claude (is_abs-entry_path home (codes ".claude"))

  scratch_abs : (name : Bytes) → Name name → is_abs (scratch name) ≡ true
  unfolding scratch
  scratch_abs name k =
      rw (join_path_entry (claude_dir home) name dir_abs k)
        (is_abs-entry_path (claude_dir home) name)

  segments_of-scratch :
      (name : Bytes)
      → Name name
      → segments_of (scratch name) ≡ name ∷ codes ".claude" ∷ segments_of home
  unfolding scratch is_name
  segments_of-scratch name k =
      ap segments_of (join_path_entry (claude_dir home) name dir_abs k)
      ∙ (segments_of-entry_path (claude_dir home) name dir_abs k
          ∙ ap (◌∷◌ name) (
              ap segments_of home_claude
              ∙ segments_of-entry_path home (codes ".claude") abs (is_name-Name _ refl)))

  -- the destinations are different for different names
  scratch-eq : (m n : Bytes) → Name m → Name n → bytes_eq (scratch m) (scratch n) ≡ bytes_eq m n
  scratch-eq m n j k = elim (Bool-cases (bytes_eq m n)) [
    | inl e ↦
        ground (arith, e, ap scratch ((bytes_eq_iff m n).0 e), bytes_eq_iff (scratch m) (scratch n))
    | inr e ↦ elim (Bool-cases (bytes_eq (scratch m) (scratch n))) [
      | inl f ↦
          let same : segments_of (scratch m) ≡ segments_of (scratch n) =
            ap segments_of ((bytes_eq_iff (scratch m) (scratch n)).0 f) in
          ground (arith, same, segments_of-scratch m j, segments_of-scratch n k, bytes_eq_iff m n)
      | inr f ↦ f ∙ sym e
    ]
  ]

  self_contained : (name : Bytes) → Name name → path_contains (scratch name) (scratch name) ≡ true
  unfolding scratch
  self_contained name k = rw (join_path_entry (claude_dir home) name dir_abs k) (
      path_contains-entry_path (claude_dir home) name name (trim_slashes-lacks name k.lacks)
        k.filled
      ∙ rw (bytes_eq_refl name))

  apart :
      (n name : Bytes)
      → Name n
      → Name name
      → bytes_eq name n ≡ false
      → path_contains (dest (tmpfs_at (scratch n))) (scratch name) ≡ false
  unfolding scratch
  apart n name j k e =
      rw (dest-tmpfs_at (scratch n) (scratch_abs n j))
        (beside (claude_dir home) name n dir_abs k j e)

  Distinct : List Bytes → Type 0
  Distinct [] = Unit
  Distinct (n ∷ names) = (member n names ≡ false) × Distinct names

  covers : List Bytes → List Bind
  covers names = map (λ n. tmpfs_at (scratch n)) names

  covers-Beside :
      (name : Bytes) (names : List Bytes)
      → Name name
      → All Name names
      → member name names ≡ false
      → Beside (scratch name) (covers names)
  unfolding covers member
  covers-Beside name [] k ks h = tt
  covers-Beside name (n ∷ names) k ks h =
      (apart n name ks.0 k (ground arith), covers-Beside name names k ks.1 (ground arith))

  visible_at-covers :
      (name : Bytes) (names : List Bytes) (placed : List Bind)
      → Name name
      → All Name names
      → Distinct names
      → member name names ≡ true
      → Elsewhere (scratch name) placed
      → visible_at (scratch name) (dedup_from placed (covers names))
        ≡ some (tmpfs_at (scratch name))
  unfolding covers member dedup_from Distinct
  visible_at-covers name [] placed k ks u m h = cc
  visible_at-covers name (n ∷ names) placed k ks u m h = elim (Bool-cases (bytes_eq name n)) [
    | inl e ↦
        let same : n ≡ name = sym ((bytes_eq_iff name n).0 e) in
        visible_at-dedup_from (scratch name) (place (tmpfs_at (scratch n)) placed) (covers names)
          (covers-Beside name names k ks.1 (rw (← same) u.0))
        ∙ rw same (
            visible_at-place_new (scratch name) (tmpfs_at (scratch name)) placed
              (dest-tmpfs_at (scratch name) (scratch_abs name k)) (self_contained name k) h)
    | inr e ↦
        visible_at-covers name names (place (tmpfs_at (scratch n)) placed) k ks.1 u.1 (ground arith)
          (place-Elsewhere (scratch name) (tmpfs_at (scratch n)) placed
            (rw (dest-tmpfs_at (scratch n) (scratch_abs n ks.0))
              (scratch-eq n name ks.0 k ∙ bytes_eq_comm n name ∙ e))
            h)
  ]

  scratch_Names : All Name claude_scratch
  unfolding is_name
  scratch_Names = (
    is_name-Name _ refl,
    (is_name-Name _ refl, (is_name-Name _ refl, (is_name-Name _ refl, (is_name-Name _ refl, tt)))),
  )

  scratch_Name : (name : Bytes) → member name claude_scratch ≡ true → Name name
  scratch_Name name m = All-member Name name claude_scratch scratch_Names m

  scratch_Distinct : Distinct claude_scratch
  unfolding Distinct member bytes_eq
  scratch_Distinct = (refl, (refl, (refl, (refl, (refl, tt)))))

  visible_at-scratch :
      (name : Bytes) (before later : List Bind)
      → member name claude_scratch ≡ true
      → Elsewhere (scratch name) before
      → Beside (scratch name) later
      → visible_at (scratch name) (dedup_binds (before ++ (claude_scratch_binds home ++ later)))
        ≡ some (tmpfs_at (scratch name))
  unfolding dedup_binds claude_scratch_binds scratch covers
  visible_at-scratch name before later m h k =
      let names = claude_scratch_binds home in
      let placed = dedup_from [] before in
      rw (dedup_from-append [] before (names ++ later), dedup_from-append placed names later)
        (visible_at-dedup_from (scratch name) (dedup_from placed names) later k
          ∙ visible_at-covers name claude_scratch placed (scratch_Name name m) scratch_Names
              scratch_Distinct m (dedup_from-Elsewhere (scratch name) [] before h tt))

regroup :
    (on : Bool) (a b c d e : List Bind)
    → on ≡ true
    → a ++ (when on (b ++ (c ++ d)) ++ e) ≡ (a ++ b) ++ (c ++ (d ++ e))
regroup on a b c d e h = rw h (
    ap (◌++◌ a) (append_assoc b (c ++ d) e ∙ ap (◌++◌ b) (append_assoc c d e))
    ∙ sym (append_assoc a b (c ++ (d ++ e))))

-- For an absolute home and a start for claude, if no bind that is given before has the destination of a
-- given scratch directory of ~/.claude, and none of an exclude file, of settings.json or of
-- runclaude.json has it or a directory above it, then after the removal of duplicates and with the
-- binds mounted in their order, a private tmpfs is what is seen at that directory, whatever is bound
-- above it before.
pub scratch-mounted :
    (h : Host) (s : Start) (name : Bytes)
    → is_abs s.home ≡ true
    → s.claude_like ≡ true
    → member name claude_scratch ≡ true
    → Elsewhere
        (join_path (claude_dir s.home ∷ name ∷ []))
        (workspace_part h s ++ extra_binds h s.home s.merged)
    → Beside
        (join_path (claude_dir s.home ∷ name ∷ []))
        (settings_part s ++ json_bind s.runclaude_json ∷ [])
    → visible_at (join_path (claude_dir s.home ∷ name ∷ [])) (dedup_binds (start_binds h s))
      ≡ some (tmpfs_at (join_path (claude_dir s.home ∷ name ∷ [])))
unfolding start_binds scratch
scratch-mounted h s name abs like m before later =
    rw
      (regroup s.claude_like (workspace_part h s) (extra_binds h s.home s.merged)
        (claude_scratch_binds s.home) (settings_part s) (json_bind s.runclaude_json ∷ []) like)
      (visible_at-scratch s.home abs name (workspace_part h s ++ extra_binds h s.home s.merged)
        (settings_part s ++ json_bind s.runclaude_json ∷ []) m before later)
