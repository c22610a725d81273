-- ===== src/Launch/Binds/Hidden.antt =====
-- main.go, `claudeBinds`: what of ~/.claude stays on the host.
use runclaude.Prelude.{
  ◌≡◌, refl, ap, ◌∙◌, Bool, true, false, ◌||◌, List, [], ◌∷◌, ◌++◌, arith, All, All-append,
  Bool-cases, inl, inr,
}
use runclaude.Text.{Bytes, codes, bytes_eq, member, has_prefix}
use runclaude.Text.Equality.{bytes_eq_iff}
use runclaude.Mountinfo.{path_contains, trim_slashes}
use runclaude.Filepath.{is_abs, join_path}
use runclaude.Filepath.Names.{Name, is_name, is_name-Name}
use runclaude.Filepath.Join.{
  entry_path, join_path_entry, join_path_deep, is_abs-entry_path, entry_path_entry,
  path_contains-entry_path, trim_slashes-lacks, has_prefix-name,
}
use runclaude.Binds.{Bind}
use runclaude.Launch.Binds.{Host, existing_binds}
use runclaude.Launch.Binds.Claude.{
  credential_files, claude_scratch, claude_dir, shared_entries, or_no_entries, exec_dirs,
  claude_binds,
}

existing_binds-All :
    (P : Bytes → Type 0) (exists : Bytes → Bool) (ps : List Bytes)
    → All P ps
    → All (λ (b : Bind). P b.path) (existing_binds exists ps)
unfolding existing_binds
existing_binds-All P exists [] h = tt
existing_binds-All P exists (p ∷ ps) h = elim (Bool-cases (exists p)) [
  | inl e ↦ rw e (h.0, existing_binds-All P exists ps h.1)
  | inr e ↦ rw e (existing_binds-All P exists ps h.1)
]

-- a name beside a hidden one does not contain it
pub beside :
    (dir name n : Bytes)
    → is_abs dir ≡ true
    → Name name
    → Name n
    → bytes_eq name n ≡ false
    → path_contains (join_path (dir ∷ n ∷ [])) (join_path (dir ∷ name ∷ [])) ≡ false
beside dir name n abs k j ne =
    rw (join_path_entry dir n abs j, join_path_entry dir name abs k)
      (path_contains-entry_path dir n name (trim_slashes-lacks n j.lacks) j.filled
        ∙ rw ne (has_prefix-name name n k.lacks))

pub member-ne :
    (name n : Bytes) (l : List Bytes)
    → member name l ≡ true
    → member n l ≡ false
    → bytes_eq name n ≡ false
unfolding member
member-ne name n [] h k = cc
member-ne name n (x ∷ l) h k =
    ground (arith, member-ne name n l, bytes_eq_iff name x, bytes_eq_iff n x, bytes_eq_iff name n)

pub All-member :
    (P : Bytes → Type 0) (x : Bytes) (l : List Bytes) → All P l → member x l ≡ true → P x
unfolding member
All-member P x [] h m = cc
All-member P x (y ∷ l) h m = elim (Bool-cases (bytes_eq x y)) [
  | inl e ↦ rw ((bytes_eq_iff x y).0 e) h.0
  | inr e ↦ All-member P x l h.1 (ground arith)
]

-- the names that `claudeBinds` skips
abbrev pub hidden_names : List Bytes
hidden_names = credential_files ++ claude_scratch

hidden-Names : All Name hidden_names
unfolding is_name
hidden-Names =
    (name refl, (name refl, (name refl, (name refl, (name refl, (name refl, (name refl, tt)))))))
  where
    name : {s : Bytes} → is_name s ≡ true → Name s
    name {s} h = is_name-Name s h

member-append : (x : Bytes) (a b : List Bytes) → member x (a ++ b) ≡ (member x a || member x b)
unfolding member
member-append x [] b = refl
member-append x (y ∷ a) b = ground (arith, member-append x a b)

module _ (home name : Bytes) (abs : is_abs home ≡ true)
    (secret : member name hidden_names ≡ true) where
  -- a path neither is the hidden one nor lies above it
  abbrev pub Apart : Bytes → Type 0
  Apart p = path_contains p (join_path (claude_dir home ∷ name ∷ [])) ≡ false

  claude_dir-abs : is_abs (claude_dir home) ≡ true
  unfolding is_name
  claude_dir-abs =
      rw (join_path_entry home (codes ".claude") abs (is_name-Name _ refl))
        (is_abs-entry_path home (codes ".claude"))

  shared-Apart :
      (n : Bytes)
      → Name n
      → member n hidden_names ≡ false
      → Apart (join_path (claude_dir home ∷ n ∷ []))
  shared-Apart n k e =
      beside (claude_dir home) name n claude_dir-abs
        (All-member Name name hidden_names hidden-Names secret) k
        (member-ne name n hidden_names secret e)

  shared_entries-Apart :
      (names : List Bytes) → All Name names → All Apart (shared_entries (claude_dir home) names)
  unfolding shared_entries
  shared_entries-Apart [] h = tt
  shared_entries-Apart (n ∷ names) h = elim (Bool-cases (member n credential_files)) [
    | inl e ↦ rw e (shared_entries-Apart names h.1)
    | inr e ↦ rw e (elim (Bool-cases (member n claude_scratch)) [
      | inl f ↦ rw f (shared_entries-Apart names h.1)
      | inr f ↦ rw f (
        shared-Apart n h.0 (member-append n credential_files claude_scratch ∙ ground (arith, e, f)),
        shared_entries-Apart names h.1,
      )
    ])
  ]

  secret_path : join_path (claude_dir home ∷ name ∷ []) ≡ entry_path home (codes ".claude/" ++ name)
  unfolding is_name
  secret_path =
      join_path_entry (claude_dir home) name claude_dir-abs
        (All-member Name name hidden_names hidden-Names secret)
      ∙ (ap (λ d. entry_path d name)
            (join_path_entry home (codes ".claude") abs (is_name-Name _ refl))
          ∙ entry_path_entry home (codes ".claude") name abs (is_name-Name _ refl))

  config_json-Apart : Apart (join_path (home ∷ codes ".claude.json" ∷ []))
  unfolding is_name bytes_eq has_prefix trim_slashes
  config_json-Apart =
      rw (secret_path, join_path_entry home (codes ".claude.json") abs (is_name-Name _ refl))
        (path_contains-entry_path home (codes ".claude.json") (codes ".claude/" ++ name) refl refl)

  config_dir-Apart : Apart (join_path (home ∷ codes ".config" ∷ codes "claude" ∷ []))
  unfolding is_name bytes_eq has_prefix trim_slashes
  config_dir-Apart =
      rw
        (
          secret_path,
          join_path_deep home (codes ".config") (codes "claude") abs (is_name-Name _ refl)
              (is_name-Name _ refl),
        )
        (path_contains-entry_path home (codes ".config/claude") (codes ".claude/" ++ name) refl
          refl)

  -- For an absolute home, where the entries of ~/.claude are names, and where neither the
  -- directory of the claude executable nor that of what it resolves to is or contains a given
  -- credential file or scratch directory of ~/.claude, no path that `claudeBinds` binds is or
  -- contains that file or directory.
  pub claude_binds-Apart :
      (h : Host)
      → All Name (or_no_entries (h.read_dir (claude_dir home)))
      → All Apart (exec_dirs h.eval_symlinks (h.look_path (codes "claude")))
      → All (λ (b : Bind). Apart b.path) (claude_binds h home)
  unfolding claude_binds
  claude_binds-Apart h entries dirs = existing_binds-All Apart h.exists _ (
      All-append Apart
        (shared_entries (claude_dir home) (or_no_entries (h.read_dir (claude_dir home)))) _
        (shared_entries-Apart (or_no_entries (h.read_dir (claude_dir home))) entries)
        (config_json-Apart, (config_dir-Apart, dirs)))
