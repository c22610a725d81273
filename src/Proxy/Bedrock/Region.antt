-- ===== src/Proxy/Bedrock/Region.antt =====
-- The hosts that have a region.
use runclaude.Prelude.{
  ℕ, ◌+◌, ◌-◌, ◌==◌, take, ◌≡◌, refl, sym, ap, ◌∙◌, ◌≢◌, ◌↔◌, inl, inr, true, false, [], ◌∷◌, ◌++◌,
  arith, Bool-cases, if◌then◌else◌, append_assoc, length,
}
use runclaude.Text.{Bytes, has_byte, has_prefix, has_suffix, trim_prefix, trim_suffix}
use runclaude.Text.Affix.{
  has_prefix-append, has_suffix-append, has_suffix-split, trim_prefix-append, trim_suffix-append,
  trim_prefix-split, trim_suffix-split, trim_suffix_none,
}
use runclaude.Proxy.Bedrock.{host_prefix, host_suffix, bedrock_region}

region_host :
    (region : Bytes)
    → has_byte b'.' region ≡ false
    → bedrock_region (host_prefix ++ (region ++ host_suffix)) ≡ region
unfolding bedrock_region
region_host region plain =
    let host = host_prefix ++ (region ++ host_suffix) in
    let p : has_prefix host host_prefix ≡ true =
      has_prefix-append host_prefix (region ++ host_suffix) in
    let s : has_suffix host host_suffix ≡ true =
      rw (← append_assoc host_prefix region host_suffix)
        (has_suffix-append (host_prefix ++ region) host_suffix) in
    let tp : trim_prefix host host_prefix ≡ region ++ host_suffix =
      trim_prefix-append host_prefix (region ++ host_suffix) in
    let ts : trim_suffix (region ++ host_suffix) host_suffix ≡ region =
      trim_suffix-append region host_suffix in
    rw (p, s) (rw tp (rw ts (rw plain)))

count_byte : ℕ → Bytes → ℕ
count_byte c [] = 0
count_byte c (x ∷ s) = (if x == c then 1 else 0) + count_byte c s

count_byte-append : (c : ℕ) (s t : Bytes) → count_byte c (s ++ t) ≡ count_byte c s + count_byte c t
unfolding count_byte
count_byte-append c [] t = omega arith
count_byte-append c (x ∷ s) t = omega (arith, count_byte-append c s t)

count_byte-zero : (c : ℕ) (s : Bytes) → has_byte c s ≡ false → count_byte c s ≡ 0
unfolding count_byte has_byte
count_byte-zero c [] h = refl
count_byte-zero c (x ∷ s) h = ground (arith, count_byte-zero c s)

count_prefix : count_byte b'.' host_prefix ≡ 1
unfolding count_byte
count_prefix = refl

count_suffix : count_byte b'.' host_suffix ≡ 2
unfolding count_byte
count_suffix = refl

-- The prefix and the suffix cannot overlap in a host whose middle holds no dot.
no_overlap :
    (host rest : Bytes)
    → host ≡ host_prefix ++ rest
    → has_suffix host host_suffix ≡ true
    → has_byte b'.' rest ≡ false
    → ⊥
no_overlap host rest e s plain =
    let pre = take (length host - length host_suffix) host in
    let parts : host_prefix ++ rest ≡ pre ++ host_suffix =
      sym e ∙ has_suffix-split host host_suffix s in
    omega (
      arith,
      ap (count_byte b'.') parts,
      count_byte-append b'.' host_prefix rest,
      count_byte-append b'.' pre host_suffix,
      count_byte-zero b'.' rest plain,
      count_prefix,
      count_suffix,
    )

region_parts :
    (host region : Bytes)
    → region ≢ []
    → bedrock_region host ≡ region
    → (has_prefix host host_prefix ≡ true)
      × (has_suffix host host_suffix ≡ true)
      × (trim_suffix (trim_prefix host host_prefix) host_suffix ≡ region)
      × (has_byte b'.' region ≡ false)
unfolding bedrock_region
region_parts host region ne e = ground arith

region_sound :
    (host region : Bytes)
    → region ≢ []
    → bedrock_region host ≡ region
    → (host ≡ host_prefix ++ (region ++ host_suffix)) × (has_byte b'.' region ≡ false)
region_sound host region ne e =
    let rest = trim_prefix host host_prefix in
    let (p, s, m, plain) = region_parts host region ne e in
    let split : host ≡ host_prefix ++ rest = trim_prefix-split host host_prefix p in
    elim (Bool-cases (has_suffix rest host_suffix)) [
      | inl t ↦ (
        split
            ∙ ap (◌++◌ host_prefix)
                (trim_suffix-split rest host_suffix t ∙ ap (λ x. x ++ host_suffix) m),
        plain,
      )
      | inr t ↦
          let whole : rest ≡ region = sym (trim_suffix_none rest host_suffix t) ∙ m in
          absurd (no_overlap host rest split s (ap (has_byte b'.') whole ∙ plain))
    ]

-- A host has a region `r` that is not empty exactly if it is `bedrock-runtime.r.amazonaws.com`
-- and `r` holds no dot.
pub bedrock_region_iff :
    (host region : Bytes)
    → region ≢ []
    → (bedrock_region host ≡ region)
      ↔ ((host ≡ host_prefix ++ (region ++ host_suffix)) × (has_byte b'.' region ≡ false))
bedrock_region_iff host region ne =
    (region_sound host region ne, λ e. ap bedrock_region e.0 ∙ region_host region e.1)
