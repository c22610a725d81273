-- ===== src/Launch/Environment/Scrubbed.antt =====
-- main.go, `mainErr`: which variables the container sees.
use runclaude.Prelude.{
  ◌≡◌, refl, ap, ◌∙◌, ap₂, Bool, true, false, List, [], ◌∷◌, ◌++◌, append-nil, if◌then◌else◌, arith,
  Bool-cases, inl, inr, All,
}
use runclaude.Text.{Bytes, codes, bytes_eq, cut_byte, member, is_empty, has_byte}
use runclaude.Text.Equality.{bytes_eq_iff}
use runclaude.Environ.{aws_env_skip, name_of, env_value, scrub_aws_creds}
use runclaude.Environ.Scrubbed.{entries_of, entries_of-scrub_aws_creds}
use runclaude.Launch.Binds.Hidden.{member-ne}
use runclaude.Launch.Environment.{when_set, bedrock_vars, child_env, container_env}

pub entries_of-append :
    (n : Bytes) (a b : List Bytes) → entries_of n (a ++ b) ≡ entries_of n a ++ entries_of n b
unfolding entries_of
entries_of-append n [] b = refl
entries_of-append n (e ∷ a) b = ground (arith, entries_of-append n a b)

cut_byte-named :
    (name r : Bytes) → has_byte 61 name ≡ false → (cut_byte 61 (name ++ (61 ∷ r))).0 ≡ name
unfolding cut_byte has_byte
cut_byte-named [] r h = refl
cut_byte-named (c ∷ name) r h = ground (arith, cut_byte-named name r)

name_of-named :
    (name r : Bytes) → has_byte 61 name ≡ false → name_of (name ++ (codes "=" ++ r)) ≡ name
unfolding cut_byte
name_of-named name r h = cut_byte-named name r h

-- an entry that is put in under its name
pub entries_of-named :
    (n name r : Bytes)
    → has_byte 61 name ≡ false
    → entries_of n ((name ++ (codes "=" ++ r)) ∷ [])
      ≡ (if bytes_eq name n then (name ++ (codes "=" ++ r)) ∷ [] else [])
unfolding entries_of
entries_of-named n name r h = ground (arith, name_of-named name r h)

entries_of-when_set :
    (n name r : Bytes)
    → has_byte 61 name ≡ false
    → entries_of n (when_set name r) ≡ (if bytes_eq name n then when_set name r else [])
entries_of-when_set n name r h = elim (Bool-cases (is_empty r)) [
  | inl f ↦ rw f (unfold entries_of in ground arith)
  | inr f ↦ rw f (entries_of-named n name r h)
]

-- what the container has of a variable under Bedrock: the stubs, and the host's regions where they are
-- not empty
unfoldable pub bedrock_entries : Bytes → List Bytes → List Bytes
bedrock_entries n environ =
    if bytes_eq (codes "CLAUDE_CODE_USE_BEDROCK") n
    then codes "CLAUDE_CODE_USE_BEDROCK=1" ∷ []
    else if bytes_eq (codes "AWS_ACCESS_KEY_ID") n
    then codes "AWS_ACCESS_KEY_ID=AKIA000RUNCLAUDESTUB" ∷ []
    else if bytes_eq (codes "AWS_SECRET_ACCESS_KEY") n
    then codes "AWS_SECRET_ACCESS_KEY=runclaude-stub-secret-do-not-use" ∷ []
    else if bytes_eq (codes "AWS_REGION") n
    then when_set (codes "AWS_REGION") (env_value (codes "AWS_REGION") environ)
    else if bytes_eq (codes "AWS_DEFAULT_REGION") n
    then when_set (codes "AWS_DEFAULT_REGION") (env_value (codes "AWS_DEFAULT_REGION") environ)
    else []

differ : (a b n : Bytes) → bytes_eq b a ≡ false → bytes_eq a n ≡ true → bytes_eq b n ≡ false
differ a b n h e = ground (arith, ap (bytes_eq b) ((bytes_eq_iff a n).0 e))

pick :
    (v w x y z : Bytes) (n : Bytes) (a b c d e : List Bytes)
    → All (λ k. bytes_eq k v ≡ false) (w ∷ x ∷ y ∷ z ∷ [])
    → All (λ k. bytes_eq k w ≡ false) (x ∷ y ∷ z ∷ [])
    → All (λ k. bytes_eq k x ≡ false) (y ∷ z ∷ [])
    → bytes_eq z y ≡ false
    → (if bytes_eq v n then a else [])
        ++ ((if bytes_eq w n then b else [])
            ++ ((if bytes_eq x n then c else [])
                ++ ((if bytes_eq y n then d else []) ++ (if bytes_eq z n then e else []))))
      ≡ (if bytes_eq v n
          then a
          else if bytes_eq w n
          then b
          else if bytes_eq x n
          then c
          else if bytes_eq y n
          then d
          else if bytes_eq z n
          then e
          else [])
pick v w x y z n a b c d e h j k l = elim (Bool-cases (bytes_eq v n)) [
  | inl f ↦
      rw
        (
          f,
          differ v w n h.0 f,
          differ v x n h.1.0 f,
          differ v y n h.1.1.0 f,
          differ v z n h.1.1.1.0 f,
        )
        (append-nil a)
  | inr f ↦ elim (Bool-cases (bytes_eq w n)) [
    | inl g ↦
        rw (f, g, differ w x n j.0 g, differ w y n j.1.0 g, differ w z n j.1.1.0 g) (append-nil b)
    | inr g ↦ elim (Bool-cases (bytes_eq x n)) [
      | inl i ↦ rw (f, g, i, differ x y n k.0 i, differ x z n k.1.0 i) (append-nil c)
      | inr i ↦ elim (Bool-cases (bytes_eq y n)) [
        | inl m ↦ rw (f, g, i, m, differ y z n l m) (append-nil d)
        | inr m ↦ rw (f, g, i, m) refl
      ]
    ]
  ]
]

entries_of-bedrock_vars :
    (n : Bytes) (environ : List Bytes)
    → entries_of n (bedrock_vars true environ) ≡ bedrock_entries n environ
unfolding has_byte bedrock_entries bytes_eq bedrock_vars
entries_of-bedrock_vars n environ =
    let region = env_value (codes "AWS_REGION") environ in
    let default_region = env_value (codes "AWS_DEFAULT_REGION") environ in
    entries_of-append n (codes "CLAUDE_CODE_USE_BEDROCK=1" ∷ []) _
    ∙ ap₂ ◌++◌ (entries_of-named n (codes "CLAUDE_CODE_USE_BEDROCK") (codes "1") refl) (
        entries_of-append n (codes "AWS_ACCESS_KEY_ID=AKIA000RUNCLAUDESTUB" ∷ []) _
        ∙ ap₂ ◌++◌
            (entries_of-named n (codes "AWS_ACCESS_KEY_ID") (codes "AKIA000RUNCLAUDESTUB") refl)
            (entries_of-append n
                (codes "AWS_SECRET_ACCESS_KEY=runclaude-stub-secret-do-not-use" ∷ []) _
              ∙ ap₂ ◌++◌
                  (entries_of-named n (codes "AWS_SECRET_ACCESS_KEY")
                    (codes "runclaude-stub-secret-do-not-use") refl)
                  (entries_of-append n (when_set (codes "AWS_REGION") region) _
                    ∙ ap₂ ◌++◌ (entries_of-when_set n (codes "AWS_REGION") region refl)
                        (entries_of-when_set n (codes "AWS_DEFAULT_REGION") default_region refl))))
    ∙ pick (codes "CLAUDE_CODE_USE_BEDROCK") (codes "AWS_ACCESS_KEY_ID")
        (codes "AWS_SECRET_ACCESS_KEY") (codes "AWS_REGION") (codes "AWS_DEFAULT_REGION") n _ _ _ _
        _ (refl, (refl, (refl, (refl, tt)))) (refl, (refl, (refl, tt))) (refl, (refl, tt)) refl

module _ (n : Bytes) (other : bytes_eq child_env n ≡ false) where
  child_entry : (config : Bytes) → entries_of n ((child_env ++ (codes "=" ++ config)) ∷ []) ≡ []
  unfolding has_byte
  child_entry config = entries_of-named n child_env config refl ∙ rw other refl

  -- in a container for claude
  entries_of-container_env :
      (bedrock : Bool) (config : Bytes) (environ : List Bytes)
      → entries_of n (container_env true bedrock config environ)
        ≡ (if member n aws_env_skip then [] else entries_of n environ)
          ++ entries_of n (bedrock_vars bedrock environ)
  unfolding container_env
  entries_of-container_env bedrock config environ =
      entries_of-append n (scrub_aws_creds environ) _
      ∙ ap₂ ◌++◌ (entries_of-scrub_aws_creds n environ) (
          entries_of-append n (bedrock_vars bedrock environ) _
          ∙ ap (◌++◌ (entries_of n (bedrock_vars bedrock environ))) (child_entry config)
          ∙ append-nil _)

  -- In a start for claude, the environment of the container's first stage has no entry of a variable
  -- of the list that `scrubAWSCreds` skips, except under Bedrock: then CLAUDE_CODE_USE_BEDROCK,
  -- AWS_ACCESS_KEY_ID and AWS_SECRET_ACCESS_KEY have one fixed entry each, and AWS_REGION and
  -- AWS_DEFAULT_REGION have the host's value where it is not empty. The variable is not that of the
  -- container's configuration.
  pub entries_of-container_env_aws :
      (bedrock : Bool) (config : Bytes) (environ : List Bytes)
      → member n aws_env_skip ≡ true
      → entries_of n (container_env true bedrock config environ)
        ≡ (if bedrock then bedrock_entries n environ else [])
  entries_of-container_env_aws false config environ m =
      entries_of-container_env false config environ
      ∙ rw m (unfold bedrock_vars in unfold entries_of in refl)
  entries_of-container_env_aws true config environ m =
      entries_of-container_env true config environ ∙ rw m (entries_of-bedrock_vars n environ)

  bedrock_entries_none :
      (environ : List Bytes) → member n aws_env_skip ≡ false → bedrock_entries n environ ≡ []
  unfolding bedrock_entries member
  bedrock_entries_none environ m =
      rw
        (
          lacks (codes "CLAUDE_CODE_USE_BEDROCK") refl,
          lacks (codes "AWS_ACCESS_KEY_ID") refl,
          lacks (codes "AWS_SECRET_ACCESS_KEY") refl,
          lacks (codes "AWS_REGION") refl,
          lacks (codes "AWS_DEFAULT_REGION") refl,
        )
        refl
    where
      lacks : (name : Bytes) → member name aws_env_skip ≡ true → bytes_eq name n ≡ false
      lacks name k = member-ne name n aws_env_skip k m

  -- the entries of every other variable stay
  pub entries_of-container_env_other :
      (bedrock : Bool) (config : Bytes) (environ : List Bytes)
      → member n aws_env_skip ≡ false
      → entries_of n (container_env true bedrock config environ) ≡ entries_of n environ
  entries_of-container_env_other false config environ m =
      entries_of-container_env false config environ
      ∙ rw m (unfold bedrock_vars in unfold entries_of in append-nil (entries_of n environ))
  entries_of-container_env_other true config environ m =
      entries_of-container_env true config environ
      ∙ rw m (
          ap (◌++◌ (entries_of n environ))
            (entries_of-bedrock_vars n environ ∙ bedrock_entries_none environ m)
          ∙ append-nil (entries_of n environ))
