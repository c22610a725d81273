-- ===== src/Tests/Gitconfigs.antt =====
-- The git configuration at concrete sections, with small stand-ins for go-git and package `net/url`.
use runclaude.Prelude.{
  ◌≡◌, Bool, false, List, [], ◌∷◌, some, All, if◌then◌else◌, ◌==◌, Bool-cases, inl, inr,
}
use runclaude.Text.{Bytes, codes, bytes_eq, to_lower, has_byte}
use runclaude.Gitconfig.{GitOption, Section, clean_sections}
use runclaude.Gitconfig.Secrets.{SectionSafe, clean_sections-SectionSafe}

-- a text with a user is one with an at sign, and loses what stands up to the last of them
abbrev behind_at : Bytes → Bytes
behind_at [] = []
behind_at (x ∷ s) =
    let rest = behind_at s in if has_byte 64 s then rest else if x == 64 then s else x ∷ s

abbrev same_key : Bytes → Bytes → Bool
same_key a b = bytes_eq (to_lower a) (to_lower b)

abbrev without : Bytes → List GitOption → List GitOption
without k [] = []
without k (o ∷ os) = let rest = without k os in if same_key o.key k then rest else o ∷ rest

without_removes :
    (k : Bytes) (opts : List GitOption) → All (λ o. same_key o.key k ≡ false) (without k opts)
without_removes k [] = tt
without_removes k (o ∷ os) = elim (Bool-cases (same_key o.key k)) [
  | inl e ↦ rw e (without_removes k os)
  | inr e ↦ rw e (e, without_removes k os)
]

without_keeps :
    (P : GitOption → Type 0) (k : Bytes) (opts : List GitOption)
    → All P opts
    → All P (without k opts)
without_keeps P k [] a = tt
without_keeps P k (o ∷ os) a = elim (Bool-cases (same_key o.key k)) [
  | inl e ↦ rw e (without_keeps P k os a.1)
  | inr e ↦ rw e (a.0, without_keeps P k os a.1)
]

abbrev git_sections : List Section
git_sections =
    record {
      name = codes "Credential";
      options = record { key = codes "helper"; value = codes "store" } ∷ [];
      subsections = [];
    }
    ∷ record {
      name = codes "http";
      options = record { key = codes "extraheader"; value = codes "token" } ∷ [];
      subsections = [];
    }
    ∷ record {
      name = codes "url";
      options = [];
      subsections =
          record {
            name = codes "https://me:pw@host/";
            options = record { key = codes "insteadOf"; value = codes "u@gh:" } ∷ [];
          }
          ∷ [];
    }
    ∷ []

clean_sections-SectionSafe_example :
    All
      (SectionSafe Bytes some (has_byte 64) behind_at (λ u. u) same_key without)
      (clean_sections Bytes some (has_byte 64) behind_at (λ u. u) same_key without git_sections)
clean_sections-SectionSafe_example =
    clean_sections-SectionSafe Bytes some (has_byte 64) behind_at (λ u. u) same_key without
      without_removes without_keeps git_sections
