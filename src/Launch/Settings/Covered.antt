-- ===== src/Launch/Settings/Covered.antt =====
-- claudesettings.go: whatever the container reads at a path of settings.json.
use runclaude.Prelude.{◌≡◌, refl, ℕ, suc, Bool, true, false, List, [], ◌∷◌, Option, none, some, All}
use runclaude.Text.{Bytes}
use runclaude.Dict.{Dict}
use runclaude.Json.{Json}
use runclaude.Claudesettings.{
  File, absent, unreadable, holds, Sanitized, failed, untouched, overlay, sanitize_settings,
  sanitize_settings_file, copy_of, sanitize_decoded,
}
use runclaude.Claudesettings.Scrub.{sanitize_settings-Scrubbed, Scrubbed}
use runclaude.Launch.Binds.{bind_to}
use runclaude.Launch.Settings.{
  Copy, add_sanitized, sanitize_from, claude_settings_paths, materialize_claude_settings,
}

module _ (decode : Bytes → Option (Dict Json)) (encode : Dict Json → Bytes) where
  -- the bytes are those of a map without AWS keys
  abbrev pub IsScrubbed : Bytes → Type 0
  IsScrubbed out = (m : Dict Json) × (out ≡ encode m) × Scrubbed m

  result-IsScrubbed :
      (writes : Bool) (raw : Dict Json) (o : Option (Dict Json)) {out : Bytes}
      → sanitize_settings raw ≡ o
      → copy_of decode encode writes o ≡ overlay out
      → IsScrubbed out
  result-IsScrubbed writes raw none e h = cc
  result-IsScrubbed true raw (some m) e h = (m, cc, sanitize_settings-Scrubbed raw m e)
  result-IsScrubbed false raw (some m) e h = cc

  decoded-IsScrubbed :
      (writes : Bool) (o : Option (Dict Json)) {out : Bytes}
      → sanitize_decoded decode encode writes o ≡ overlay out
      → IsScrubbed out
  decoded-IsScrubbed writes none h = cc
  decoded-IsScrubbed writes (some raw) h =
      result-IsScrubbed writes raw (sanitize_settings raw) refl h

  file-IsScrubbed :
      (writes : Bool) (f : File) {out : Bytes}
      → sanitize_settings_file decode encode writes f ≡ overlay out
      → IsScrubbed out
  file-IsScrubbed writes absent h = unfold sanitize_settings_file in cc
  file-IsScrubbed writes unreadable h = unfold sanitize_settings_file in cc
  file-IsScrubbed writes (holds b) h =
      decoded-IsScrubbed writes (decode b) (unfold sanitize_settings_file in h)

  add_sanitized-IsScrubbed :
      (src dst : Bytes) (r : Sanitized) (rest : Option (List Copy)) {copies : List Copy}
      → ((out : Bytes) → r ≡ overlay out → IsScrubbed out)
      → ((later : List Copy) → rest ≡ some later → All (λ (c : Copy). IsScrubbed c.1) later)
      → add_sanitized src dst r rest ≡ some copies
      → All (λ (c : Copy). IsScrubbed c.1) copies
  add_sanitized-IsScrubbed src dst failed rest here below h = cc
  add_sanitized-IsScrubbed src dst untouched rest {copies} here below h = below copies h
  add_sanitized-IsScrubbed src dst (overlay out) none here below h = cc
  add_sanitized-IsScrubbed src dst (overlay out) (some later) {copies} here below h =
      let e : copies ≡ (bind_to dst src, out) ∷ later = cc in rw e (here out refl, below later refl)

  module _ (read : Bytes → File) (writes : Bytes → Bool) (decimal : ℕ → Bytes)
      (out_dir : Bytes) where
    sanitize_from-IsScrubbed :
        (i : ℕ) (paths : List Bytes) (copies : List Copy)
        → sanitize_from read decode encode writes decimal out_dir i paths ≡ some copies
        → All (λ (c : Copy). IsScrubbed c.1) copies
    unfolding sanitize_from
    sanitize_from-IsScrubbed i [] copies h = let e : copies ≡ [] = cc in rw e tt
    sanitize_from-IsScrubbed i (src ∷ paths) copies h =
        add_sanitized-IsScrubbed src _ _ _ (λ out e. file-IsScrubbed _ (read src) e)
          (λ later e. sanitize_from-IsScrubbed (suc i) paths later e) h

    -- Every copy that `materializeClaudeSettings` writes is the encoding of a map with no
    -- `awsAuthRefresh`, whose `env`, if it is a map, has no key of the scrub list.
    pub materialize-IsScrubbed :
        (home cwd : Bytes) (copies : List Copy)
        → materialize_claude_settings read decode encode writes decimal home cwd out_dir
          ≡ some copies
        → All (λ (c : Copy). IsScrubbed c.1) copies
    unfolding materialize_claude_settings
    materialize-IsScrubbed home cwd copies h =
        sanitize_from-IsScrubbed 0 (claude_settings_paths home cwd) copies h
