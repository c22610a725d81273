-- ===== src/Gitconfig/Clean.antt =====
-- gitconfig.go, `sanitizeGitConfig`: what is left of credentials in the sections.
use runclaude.Prelude.{
  ◌≡◌, ◌⊎◌, refl, Bool, true, false, List, [], ◌∷◌, Option, none, some, map, All, All-map,
  Bool-cases, inl, inr,
}
use runclaude.Text.{Bytes, codes}
use runclaude.Gitconfig.{
  GitOption, Subsection, Section, git_config_credential_keys, git_config_url_keys, keys_for,
  is_named, kept, strip_parsed, strip_userinfo_option, remove_options, strip_options, clean_options,
  clean_subsection, clean_sections,
}

module _ (Url : Type 0) (parse : Bytes → Option Url) (has_user : Url → Bool) (anonymous : Url → Url)
    (print : Url → Bytes) (is_key : Bytes → Bytes → Bool)
    (remove_option : Bytes → List GitOption → List GitOption) where
  abbrev user_in : Option Url → Bool
  user_in none = false
  user_in (some u) = has_user u

  -- whether a text is a URL with a user
  abbrev pub has_userinfo : Bytes → Bool
  has_userinfo v = user_in (parse v)

  abbrev Lacks : Bytes → GitOption → Type 0
  Lacks k o = is_key o.key k ≡ false

  -- the text is not a URL with a user, or is what a URL prints that had one and has none now
  abbrev pub Stripped : Bytes → Type 0
  Stripped v =
      (has_userinfo v ≡ false) ⊎ ((u : Url) × (has_user u ≡ true) × (v ≡ print (anonymous u)))

  abbrev pub HidesUser : Bytes → GitOption → Type 0
  HidesUser k o = (is_key o.key k ≡ false) ⊎ Stripped o.value

  -- no option has a key of credentials, and those with a key of URLs are stripped
  abbrev pub OptionsClean : Bytes → List GitOption → Type 0
  OptionsClean name opts =
      All (λ k. All (Lacks k) opts) (keys_for git_config_credential_keys name)
      × All (λ k. All (HidesUser k) opts) (keys_for git_config_url_keys name)

  abbrev pub SubsectionClean : Bytes → Subsection → Type 0
  SubsectionClean name sub =
      OptionsClean name sub.options × ((is_named (codes "url") name ≡ false) ⊎ Stripped sub.name)

  abbrev pub SectionClean : Section → Type 0
  SectionClean s =
      (is_named (codes "credential") s.name ≡ false)
      × (OptionsClean s.name s.options × All (SubsectionClean s.name) s.subsections)

  remove_options-All :
      (P : GitOption → Type 0)
      → ((k : Bytes) (opts : List GitOption) → All P opts → All P (remove_option k opts))
      → (ks : List Bytes) (opts : List GitOption) → All P opts
      → All P (remove_options Url parse has_user anonymous print is_key remove_option ks opts)
  unfolding remove_options
  remove_options-All P keeps [] opts a = a
  remove_options-All P keeps (k ∷ ks) opts a =
      remove_options-All P keeps ks (remove_option k opts) (keeps k opts a)

  module _ (removes : (k : Bytes) (opts : List GitOption) → All (Lacks k) (remove_option k opts))
      (keeps : (P : GitOption → Type 0) (k : Bytes) (opts : List GitOption)
        → All P opts
        → All P (remove_option k opts)) where
    remove_options-Lacks :
        (ks : List Bytes) (opts : List GitOption)
        → All
            (λ k.
              All
                (Lacks k)
                (remove_options Url parse has_user anonymous print is_key remove_option ks opts))
            ks
    unfolding remove_options
    remove_options-Lacks [] opts = tt
    remove_options-Lacks (k ∷ ks) opts = (
      remove_options-All (Lacks k) (keeps (Lacks k)) ks _ (removes k opts),
      remove_options-Lacks ks (remove_option k opts),
    )

    strip_parsed_clean :
        (v : Bytes) (p : Option Url)
        → parse v ≡ p
        → Stripped (strip_parsed Url parse has_user anonymous print is_key remove_option v p)
    strip_parsed_clean v none e = inl (rw e refl)
    strip_parsed_clean v (some u) e = elim (Bool-cases (has_user u)) [
      | inl h ↦ rw h (inr (u, h, refl))
      | inr h ↦ rw h (inl (rw e h))
    ]

    strip_userinfo_option-All :
        (P : GitOption → Type 0) (k : Bytes)
        → ((o : GitOption) (v : Bytes) → Stripped v → P o → P (record { key = o.key; value = v }))
        → (opts : List GitOption) → All P opts
        → All P
            (strip_userinfo_option Url parse has_user anonymous print is_key remove_option k opts)
    unfolding strip_userinfo_option
    strip_userinfo_option-All P k h [] a = tt
    strip_userinfo_option-All P k h (o ∷ os) a = (
      elim (Bool-cases (is_key o.key k)) [
        | inl e ↦ rw e (h o _ (strip_parsed_clean o.value (parse o.value) refl) a.0)
        | inr e ↦ rw e a.0
      ],
      strip_userinfo_option-All P k h os a.1,
    )

    strip_userinfo_option-HidesUser :
        (k : Bytes) (opts : List GitOption)
        → All
            (HidesUser k)
            (strip_userinfo_option Url parse has_user anonymous print is_key remove_option k opts)
    unfolding strip_userinfo_option
    strip_userinfo_option-HidesUser k [] = tt
    strip_userinfo_option-HidesUser k (o ∷ os) = (
      elim (Bool-cases (is_key o.key k)) [
        | inl e ↦ rw e (inr (strip_parsed_clean o.value (parse o.value) refl))
        | inr e ↦ rw e (inl e)
      ],
      strip_userinfo_option-HidesUser k os,
    )

    strip_options-All :
        (P : GitOption → Type 0)
        → ((o : GitOption) (v : Bytes) → Stripped v → P o → P (record { key = o.key; value = v }))
        → (ks : List Bytes) (opts : List GitOption) → All P opts
        → All P (strip_options Url parse has_user anonymous print is_key remove_option ks opts)
    unfolding strip_options
    strip_options-All P h [] opts a = a
    strip_options-All P h (k ∷ ks) opts a =
        strip_options-All P h ks _ (strip_userinfo_option-All P k h opts a)

    strip_options-HidesUser :
        (ks : List Bytes) (opts : List GitOption)
        → All
            (λ k.
              All
                (HidesUser k)
                (strip_options Url parse has_user anonymous print is_key remove_option ks opts))
            ks
    unfolding strip_options
    strip_options-HidesUser [] opts = tt
    strip_options-HidesUser (k ∷ ks) opts = (
      strip_options-All (HidesUser k) (λ o v f a. inr f) ks _
          (strip_userinfo_option-HidesUser k opts),
      strip_options-HidesUser ks _,
    )

    clean_options-OptionsClean :
        (name : Bytes) (opts : List GitOption)
        → OptionsClean name
            (clean_options Url parse has_user anonymous print is_key remove_option name opts)
    clean_options-OptionsClean name opts = (
      All-map _ _ (keys_for git_config_credential_keys name)
          (λ k a.
            strip_options-All (Lacks k) (λ o v f b. b) (keys_for git_config_url_keys name) _ a)
          (remove_options-Lacks (keys_for git_config_credential_keys name) opts),
      strip_options-HidesUser (keys_for git_config_url_keys name) _,
    )

    clean_subsections :
        (name : Bytes) (subs : List Subsection)
        → All (SubsectionClean name) (
            map
              (clean_subsection Url parse has_user anonymous print is_key remove_option name)
              subs)
    clean_subsections name [] = tt
    clean_subsections name (sub ∷ subs) = (
      (
        clean_options-OptionsClean name sub.options,
        elim (Bool-cases (is_named (codes "url") name)) [
          | inl e ↦ rw e (inr (strip_parsed_clean sub.name (parse sub.name) refl))
          | inr e ↦ rw e (inl refl)
        ],
      ),
      clean_subsections name subs,
    )

    -- every section that is left, where `RemoveOption` leaves no option with the key and nothing new
    pub clean_sections-SectionClean :
        (ss : List Section)
        → All SectionClean
            (clean_sections Url parse has_user anonymous print is_key remove_option ss)
    unfolding clean_sections kept
    clean_sections-SectionClean [] = tt
    clean_sections-SectionClean (s ∷ ss) =
        elim (Bool-cases (is_named (codes "credential") s.name)) [
          | inl e ↦ rw e (clean_sections-SectionClean ss)
          | inr e ↦ rw e (
            (
              e,
              (clean_options-OptionsClean s.name s.options, clean_subsections s.name s.subsections),
            ),
            clean_sections-SectionClean ss,
          )
        ]
