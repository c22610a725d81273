-- ===== src/Launch/Plan/Run.antt =====
-- main.go: what is made of a list of operations when some fail.
use runclaude.Prelude.{
  ◌≡◌, refl, ap, ℕ, suc, ◌+◌, length, Bool, true, false, ◌&&◌, ◌||◌, List, [], ◌∷◌, ◌++◌, arith,
  Bool-cases, inl, inr,
}
use runclaude.Launch.Plan.{Op, fatal, execute}

-- some operation of the list is one that is looked for
unfoldable pub any_op : (Op → Bool) → List Op → Bool
any_op wanted [] = false
any_op wanted (op ∷ ops) = wanted op || any_op wanted ops

pub any_op-append :
    (wanted : Op → Bool) (a b : List Op)
    → any_op wanted (a ++ b) ≡ (any_op wanted a || any_op wanted b)
unfolding any_op
any_op-append wanted [] b = refl
any_op-append wanted (op ∷ a) b = ground (arith, any_op-append wanted a b)

-- What is looked for behind operations among which it is not is made only if all of these are made
-- before it.
pub execute-reached :
    (fails : ℕ → Op → Bool) (wanted : Op → Bool) (n : ℕ) (before after : List Op)
    → any_op wanted before ≡ false
    → any_op wanted (execute fails n (before ++ after)) ≡ true
    → execute fails n (before ++ after) ≡ before ++ execute fails (length before + n) after
unfolding any_op execute
execute-reached fails wanted n [] after none h = ap (λ k. execute fails k after) (omega arith)
execute-reached fails wanted n (op ∷ before) after none h =
    elim (Bool-cases (fails n op && fatal op)) [
      | inl e ↦ cc (stopped fails wanted n op before after e (ground arith) h)
      | inr e ↦
          rw (e, execute-reached fails wanted (suc n) before after (ground arith) (ground arith))
            (ap (λ k. op ∷ (before ++ execute fails k after)) (omega arith))
    ]
  where
    stopped :
        (fails : ℕ → Op → Bool) (wanted : Op → Bool) (n : ℕ) (op : Op) (before after : List Op)
        → (fails n op && fatal op) ≡ true
        → wanted op ≡ false
        → any_op wanted (execute fails n (op ∷ (before ++ after))) ≡ true
        → true ≡ false
    stopped fails wanted n op before after e w k = ground arith
