-- ===== src/Vcs/Exclude.antt =====
-- vcs.go, `writeExcludeCopy`: the lines of the copy.
use runclaude.Prelude.{
  ◌≡◌, refl, sym, ap, ◌∙◌, inl, inr, ℕ, true, false, ◌||◌, List, [], ◌∷◌, ◌++◌, arith, Bool-cases,
  append_assoc,
}
use runclaude.Text.{
  Bytes, bytes_eq, has_suffix, split, trim_space, is_empty, has_byte, trim_left, trim_right,
  trim_suffix,
}
use runclaude.Text.Equality.{bytes_eq_iff}
use runclaude.Text.Affix.{trim_suffix-split}
use runclaude.Text.Split.{split-append_between}
use runclaude.Vcs.{any_line, exclude_copy}

any_line-append :
    (pattern : Bytes) (a b : List Bytes)
    → any_line pattern (a ++ b) ≡ (any_line pattern a || any_line pattern b)
unfolding any_line
any_line-append pattern [] b = refl
any_line-append pattern (x ∷ a) b = ground (arith, any_line-append pattern a b)

split_lacks : (c : ℕ) (s : Bytes) → has_byte c s ≡ false → split c s ≡ s ∷ []
unfolding split has_byte
split_lacks c [] h = refl
split_lacks c (x ∷ s) h = ground (arith, split_lacks c s, h)

any_line_blank : (q : Bytes) → is_empty q ≡ false → any_line q (split 10 []) ≡ false
unfolding any_line split trim_space trim_left trim_right bytes_eq
any_line_blank [] h = cc
any_line_blank (x ∷ q) h = refl

module _ (pattern q : Bytes) (one : has_byte 10 pattern ≡ false)
    (trimmed : trim_space pattern ≡ pattern) (filled : is_empty q ≡ false) where
  -- the lines that the pattern and its newline make
  any_line-pattern : any_line q (split 10 (pattern ++ (10 ∷ []))) ≡ bytes_eq pattern q
  unfolding any_line
  any_line-pattern =
      rw (split-append_between 10 pattern [])
        (rw (split_lacks 10 pattern one) (rw trimmed (ground (arith, any_line_blank q filled))))

  -- a pattern put behind a newline
  any_line-added :
      (a : Bytes)
      → any_line q (split 10 (a ++ (10 ∷ (pattern ++ (10 ∷ [])))))
        ≡ (any_line q (split 10 a) || bytes_eq pattern q)
  any_line-added a = rw (split-append_between 10 a (pattern ++ (10 ∷ []))) (
      any_line-append q (split 10 a) (split 10 (pattern ++ (10 ∷ [])))
      ∙ ap (◌||◌ (any_line q (split 10 a))) any_line-pattern)

  any_line-ended :
      (t : Bytes)
      → any_line q (split 10 ((t ++ (10 ∷ [])) ++ (pattern ++ (10 ∷ []))))
        ≡ (any_line q (split 10 (t ++ (10 ∷ []))) || bytes_eq pattern q)
  any_line-ended t = rw (append_assoc t (10 ∷ []) (pattern ++ (10 ∷ []))) (
      any_line-added t
      ∙ rw (split-append_between 10 t []) (
          rw (any_line-append q (split 10 t) (split 10 []))
            (ground (arith, any_line_blank q filled))))

  any_line_at_end :
      (a t : Bytes)
      → a ≡ t ++ (10 ∷ [])
      → any_line q (split 10 (a ++ (pattern ++ (10 ∷ []))))
        ≡ (any_line q (split 10 a) || bytes_eq pattern q)
  any_line_at_end a t e = rw e (any_line-ended t)

  any_line_there :
      (existing : Bytes)
      → any_line pattern (split 10 existing) ≡ true
      → any_line q (split 10 existing) ≡ (any_line q (split 10 existing) || bytes_eq pattern q)
  any_line_there existing h = elim (Bool-cases (bytes_eq pattern q)) [
    | inl e ↦
        let there : any_line q (split 10 existing) ≡ true =
          ap (λ p. any_line p (split 10 existing)) (sym ((bytes_eq_iff pattern q).0 e)) ∙ h in
        ground (arith, there)
    | inr e ↦ ground (arith, e)
  ]

  -- For a pattern with no newline and no white space around it, the lines of the copy that are not
  -- blank are, but for white space around them, those that were there and the pattern.
  pub exclude_copy-any_line :
      (existing : Bytes)
      → any_line q (split 10 (exclude_copy pattern existing))
        ≡ (any_line q (split 10 existing) || bytes_eq pattern q)
  unfolding exclude_copy
  exclude_copy-any_line [] = elim (Bool-cases (any_line pattern (split 10 []))) [
    | inl h ↦ rw h (any_line_there [] h)
    | inr h ↦
        rw h (any_line-pattern ∙ ap (λ b. b || bytes_eq pattern q) (sym (any_line_blank q filled)))
  ]
  exclude_copy-any_line (x ∷ s) = elim (Bool-cases (any_line pattern (split 10 (x ∷ s)))) [
    | inl h ↦ rw h (any_line_there (x ∷ s) h)
    | inr h ↦ elim (Bool-cases (has_suffix (x ∷ s) (10 ∷ []))) [
      | inl e ↦ rw h (
          rw e (
            any_line_at_end (x ∷ s) (trim_suffix (x ∷ s) (10 ∷ []))
              (trim_suffix-split (x ∷ s) (10 ∷ []) e)))
      | inr e ↦ rw h (rw e (any_line-added (x ∷ s)))
    ]
  ]
