-- ===== src/Gitconfig/Secrets.antt =====
-- gitconfig.go, `sanitizeGitConfig`: the options that carry credentials, by the names in gitconfig(5).
use runclaude.Prelude.{
  ◌≡◌, ◌⊎◌, refl, Bool, true, false, List, [], ◌∷◌, Option, All, All-map, Bool-cases, inl, inr,
}
use mathlib.Core.Path.{subst}
use runclaude.Text.{Bytes, codes, bytes_eq, to_lower}
use runclaude.Text.Equality.{bytes_eq_iff}
use runclaude.Dict.{Dict, lookup}
use runclaude.Gitconfig.{
  GitOption, Subsection, Section, git_config_credential_keys, git_config_url_keys, or_no_keys,
  keys_for, is_named, clean_sections,
}
use runclaude.Gitconfig.Clean.{Stripped, OptionsClean, clean_sections-SectionClean}

-- the options that are to go, each with its section
abbrev pub secrets : List (Bytes × Bytes)
secrets =
    (codes "http", codes "extraHeader")
    ∷ (codes "http", codes "cookieFile")
    ∷ (codes "sendemail", codes "smtpUser")
    ∷ (codes "sendemail", codes "smtpPass")
    ∷ (codes "imap", codes "user")
    ∷ (codes "imap", codes "pass")
    ∷ []

-- the options that hold URLs
abbrev pub urls : List (Bytes × Bytes)
urls =
    (codes "remote", codes "url")
    ∷ (codes "remote", codes "pushurl")
    ∷ (codes "url", codes "insteadOf")
    ∷ (codes "url", codes "pushInsteadOf")
    ∷ []

-- What holds of the keys that a table lists for a section holds of its entry.
listed :
    (P : Bytes → Type 0) (keys : Dict (List Bytes)) (section name : Bytes)
    → is_named section name ≡ true
    → All P (keys_for keys name)
    → All P (or_no_keys (lookup section keys))
unfolding is_named
listed P keys section name e a =
    subst (λ n. All P (or_no_keys (lookup n keys))) ((bytes_eq_iff (to_lower name) section).0 e) a

module _ (Url : Type 0) (parse : Bytes → Option Url) (has_user : Url → Bool) (anonymous : Url → Url)
    (print : Url → Bytes) (is_key : Bytes → Bytes → Bool)
    (remove_option : Bytes → List GitOption → List GitOption) where
  abbrev Plain : Bytes → Type 0
  Plain = Stripped Url parse has_user anonymous print is_key remove_option

  -- no option in a section of the name has the key
  abbrev pub Lacking : Bytes → List GitOption → Bytes × Bytes → Type 0
  Lacking name opts (section, key) =
      (is_named section name ≡ false) ⊎ All (λ o. is_key o.key key ≡ false) opts

  -- where an option in a section of the name has the key, its URL has lost its user
  abbrev pub Anonymous : Bytes → List GitOption → Bytes × Bytes → Type 0
  Anonymous name opts (section, key) =
      (is_named section name ≡ false) ⊎ All (λ o. (is_key o.key key ≡ false) ⊎ Plain o.value) opts

  abbrev pub OptionsSafe : Bytes → List GitOption → Type 0
  OptionsSafe name opts = All (Lacking name opts) secrets × All (Anonymous name opts) urls

  abbrev pub SubsectionSafe : Bytes → Subsection → Type 0
  SubsectionSafe name sub =
      OptionsSafe name sub.options × ((is_named (codes "url") name ≡ false) ⊎ Plain sub.name)

  abbrev pub SectionSafe : Section → Type 0
  SectionSafe s =
      (is_named (codes "credential") s.name ≡ false)
      × OptionsSafe s.name s.options
      × All (SubsectionSafe s.name) s.subsections

  by_name :
      (P : Bytes → Type 0) (keys : Dict (List Bytes)) (section name : Bytes) {ks : List Bytes}
      → or_no_keys (lookup section keys) ≡ ks
      → All P (keys_for keys name)
      → (is_named section name ≡ false) ⊎ All P ks
  by_name P keys section name e a = elim (Bool-cases (is_named section name)) [
    | inl f ↦ inr (rw (← e) (listed P keys section name f a))
    | inr f ↦ inl f
  ]

  two :
      (P : Bytes → Type 0) (b : Bool) {k j : Bytes}
      → (b ≡ false) ⊎ All P (k ∷ j ∷ [])
      → ((b ≡ false) ⊎ P k) × ((b ≡ false) ⊎ P j)
  two P b (inl e) = (inl e, inl e)
  two P b (inr a) = (inr a.0, inr a.1.0)

  options_safe :
      (name : Bytes) (opts : List GitOption)
      → OptionsClean Url parse has_user anonymous print is_key remove_option name opts
      → OptionsSafe name opts
  unfolding lookup bytes_eq
  options_safe name opts clean =
      let P : Bytes → Type 0 = λ k. All (λ o. is_key o.key k ≡ false) opts in
      let Q : Bytes → Type 0 = λ k. All (λ o. (is_key o.key k ≡ false) ⊎ Plain o.value) opts in
      let http = two P _ (by_name P git_config_credential_keys (codes "http") name refl clean.0) in
      let mail =
        two P _ (by_name P git_config_credential_keys (codes "sendemail") name refl clean.0) in
      let imap = two P _ (by_name P git_config_credential_keys (codes "imap") name refl clean.0) in
      let remote = two Q _ (by_name Q git_config_url_keys (codes "remote") name refl clean.1) in
      let url = two Q _ (by_name Q git_config_url_keys (codes "url") name refl clean.1) in
      (
        (http.0, (http.1, (mail.0, (mail.1, (imap.0, (imap.1, tt)))))),
        (remote.0, (remote.1, (url.0, (url.1, tt)))),
      )

  -- If `RemoveOption` leaves no option with the key and nothing that was not there, then no section
  -- named `credential` is left; http, sendemail and imap sections and their subsections have none of
  -- the six options that carry credentials; and the URLs of remote and url sections, and the names of
  -- the subsections of url, are texts that are no URL with a user, or were printed from one whose user
  -- was taken away.
  pub clean_sections-SectionSafe :
      ((k : Bytes) (opts : List GitOption)
        → All (λ o. is_key o.key k ≡ false) (remove_option k opts))
      → ((P : GitOption → Type 0) (k : Bytes) (opts : List GitOption)
          → All P opts
          → All P (remove_option k opts))
      → (ss : List Section)
      → All SectionSafe (clean_sections Url parse has_user anonymous print is_key remove_option ss)
  clean_sections-SectionSafe removes keeps ss =
      All-map _ _ (clean_sections Url parse has_user anonymous print is_key remove_option ss)
        (λ s c. (
          c.0,
          options_safe s.name s.options c.1.0,
          All-map _ _ s.subsections (λ sub d. (options_safe s.name sub.options d.0, d.1)) c.1.1,
        ))
        (clean_sections-SectionClean Url parse has_user anonymous print is_key remove_option removes
          keeps ss)
