-- ===== src/Claudemerge/Layers.antt =====
-- claudemerge.go, `mergeSettingsFiles`: which layer a key comes from, and which keys are scrubbed.
use runclaude.Prelude.{
  ◌≡◌, refl, sym, ap, ◌∙◌, ◌≢◌, inl, inr, true, false, [], ◌∷◌, Option, none, some, arith,
  Bool-cases,
}
use runclaude.Claudesettings.{aws_claude_settings_env_scrub, aws_claude_settings_top_level_scrub}
use runclaude.Claudesettings.Scrub.{Scrubbed}
use runclaude.Dict.{
  Dict, lookup, delete_all, insert_all, or_lookup, lookup-insert, lookup-delete_all,
  lookup-insert_all,
}
use runclaude.Json.{Json, object, as_map, as_map-object}
use runclaude.Text.{Bytes, codes, bytes_eq, member}
use runclaude.Text.Equality.{bytes_eq_iff}
use runclaude.Claudemerge.{or_new, merge_env_maps, overlay, scrub_env, merge_settings}

pub lookup-merge_env_maps :
    (dst src : Option Json) (j : Bytes)
    → lookup j (merge_env_maps dst src)
      ≡ or_lookup (lookup j (or_new (as_map src))) (lookup j (or_new (as_map dst)))
unfolding merge_env_maps
lookup-merge_env_maps dst src j = lookup-insert_all (or_new (as_map src)) (or_new (as_map dst)) j

lookup-overlay :
    (proj merged : Dict Json) (j : Bytes)
    → j ≢ codes "env"
    → lookup j (overlay proj merged) ≡ or_lookup (lookup j proj) (lookup j merged)
unfolding overlay lookup
lookup-overlay [] merged j h = refl
lookup-overlay ((k, v) ∷ proj) merged j h =
    let rest = overlay proj merged in
    let env = object (merge_env_maps (lookup (codes "env") rest) (some v)) in
    let below = lookup-overlay proj merged j h in
    elim (Bool-cases (bytes_eq k (codes "env"))) [
      | inl e ↦
          let other : bytes_eq (codes "env") j ≡ false =
            ground (arith, bytes_eq_iff (codes "env") j, h) in
          let key : bytes_eq k j ≡ false =
            ground (arith, bytes_eq_iff k j, bytes_eq_iff k (codes "env"), h) in
          rw e (lookup-insert (codes "env") j env rest ∙ rw other (rw key below))
      | inr e ↦ rw e (
          lookup-insert k j v rest ∙ elim (Bool-cases (bytes_eq k j)) [
            | inl same ↦ rw same refl
            | inr other ↦ rw other below
          ])
    ]

lookup-scrub_env :
    (o : Option (Dict Json)) (m : Dict Json) (j : Bytes)
    → j ≢ codes "env"
    → lookup j (scrub_env o m) ≡ lookup j m
unfolding scrub_env
lookup-scrub_env none m j h = refl
lookup-scrub_env (some env) m j h = ground (
  arith,
  lookup-insert (codes "env") j (object (delete_all aws_claude_settings_env_scrub env)) m,
  bytes_eq_iff (codes "env") j,
  h,
)

env_of-scrub_env :
    (o : Option (Dict Json)) (m env : Dict Json) (k : Bytes)
    → o ≡ as_map (lookup (codes "env") m)
    → as_map (lookup (codes "env") (scrub_env o m)) ≡ some env
    → member k aws_claude_settings_env_scrub ≡ true
    → lookup k env ≡ none
unfolding scrub_env bytes_eq
env_of-scrub_env none m env k e h is = cc
env_of-scrub_env (some old) m env k e h is =
    let left = delete_all aws_claude_settings_env_scrub old in
    let there : some left ≡ some env =
      sym (as_map-object left)
      ∙ (ap as_map (sym (lookup-insert (codes "env") (codes "env") (object left) m)) ∙ h) in
    let same : left ≡ env = cc in
    rw (sym same) (lookup-delete_all aws_claude_settings_env_scrub k old ∙ rw is refl)

-- The merged settings have no `awsAuthRefresh`, and their `env`, if it is a map, has no key of the
-- scrub list.
pub merge_settings-Scrubbed : (user proj : Dict Json) → Scrubbed (merge_settings user proj)
unfolding merge_settings member bytes_eq
merge_settings-Scrubbed user proj =
    let merged = overlay proj (insert_all user []) in
    let o = as_map (lookup (codes "env") merged) in
    let top = aws_claude_settings_top_level_scrub in
    (
      lookup-delete_all top (codes "awsAuthRefresh") (scrub_env o merged),
      λ env k is m.
          env_of-scrub_env o merged env k refl
            (ap as_map (sym (lookup-delete_all top (codes "env") (scrub_env o merged))) ∙ is) m,
    )

or_lookup-none : (o : Option Json) → or_lookup o none ≡ o
or_lookup-none none = refl
or_lookup-none (some v) = refl

-- Under every key but `env` and `awsAuthRefresh` the merged settings have the project's value, or
-- the user's where the project has none.
pub lookup-merge_settings :
    (user proj : Dict Json) (j : Bytes)
    → j ≢ codes "env"
    → j ≢ codes "awsAuthRefresh"
    → lookup j (merge_settings user proj) ≡ or_lookup (lookup j proj) (lookup j user)
unfolding merge_settings member lookup
lookup-merge_settings user proj j a b =
    let merged = overlay proj (insert_all user []) in
    let o = as_map (lookup (codes "env") merged) in
    let kept : lookup j (insert_all user []) ≡ lookup j user =
      lookup-insert_all user [] j ∙ or_lookup-none (lookup j user) in
    let other : bytes_eq j (codes "awsAuthRefresh") ≡ false =
      ground (arith, bytes_eq_iff j (codes "awsAuthRefresh"), b) in
    lookup-delete_all aws_claude_settings_top_level_scrub j (scrub_env o merged)
    ∙ rw other (
        lookup-scrub_env o merged j a
        ∙ (lookup-overlay proj (insert_all user []) j a ∙ ap (or_lookup (lookup j proj)) kept))
