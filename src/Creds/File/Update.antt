-- ===== src/Creds/File/Update.antt =====
-- creds/anthropic.go, `writeCredentialsFile`: what the file holds afterwards.
use runclaude.Prelude.{
  ◌≡◌, refl, ◌∙◌, ◌≢◌, ℕ, Bool, true, not, ◌&&◌, Option, none, some, if◌then◌else◌, arith,
}
use runclaude.Bits.{is_pos_int64}
use runclaude.Dict.{Dict, is_some, lookup, insert, lookup-insert}
use runclaude.Json.{Json, num, str, object, as_map, as_map-object}
use runclaude.Text.{Bytes, codes, bytes_eq, is_empty}
use runclaude.Text.Equality.{bytes_eq_iff}
use runclaude.Creds.File.{
  set_tokens, update_credentials, or_empty, Disk, Calls, replace_file, read_top,
  write_credentials_file,
}

lookup-insert_if :
    (b : Bool) (k j : Bytes) (v : Json) (m : Dict Json)
    → lookup j (if b then insert k v m else m) ≡ (if bytes_eq k j && b then some v else lookup j m)
lookup-insert_if b k j v m = ground (arith, lookup-insert k j v m)

lookup-insert_unless :
    (b : Bool) (k j : Bytes) (v : Json) (m : Dict Json)
    → lookup j (if b then m else insert k v m)
      ≡ (if bytes_eq k j && not b then some v else lookup j m)
lookup-insert_unless b k j v m = ground (arith, lookup-insert k j v m)

module _ (decimal : ℕ → Bytes) where
  pub lookup-set_tokens :
      (access refresh j : Bytes) (expires : ℕ) (m : Dict Json)
      → lookup j (set_tokens decimal access refresh expires m) ≡ (
          if bytes_eq (codes "expiresAt") j && is_pos_int64 expires
          then some (num (decimal expires))
          else if bytes_eq (codes "refreshToken") j && not (is_empty refresh)
          then some (str refresh)
          else if bytes_eq (codes "accessToken") j
          then some (str access)
          else lookup j m)
  unfolding set_tokens
  lookup-set_tokens access refresh j expires m =
      let one = insert (codes "accessToken") (str access) m in
      lookup-insert_if (is_pos_int64 expires) (codes "expiresAt") j (num (decimal expires))
        (if is_empty refresh then one else insert (codes "refreshToken") (str refresh) one)
      ∙ rw (lookup-insert_unless (is_empty refresh) (codes "refreshToken") j (str refresh) one)
          (rw (lookup-insert (codes "accessToken") j (str access) m) refl)

  pub lookup-update_credentials :
      (access refresh j : Bytes) (expires : ℕ) (m : Dict Json)
      → lookup j (update_credentials decimal access refresh expires m) ≡ (
          if bytes_eq (codes "claudeAiOauth") j
          then some (
              object (
                set_tokens decimal access refresh expires
                  (or_empty (as_map (lookup (codes "claudeAiOauth") m)))))
          else lookup j m)
  unfolding update_credentials
  lookup-update_credentials access refresh j expires m = lookup-insert (codes "claudeAiOauth") j _ m

replace_file-file :
    (calls : Calls) (out : Bytes) (d : Disk)
    → (replace_file calls out d).0.file
      ≡ (if (replace_file calls out d).1 then some out else d.file)
unfolding replace_file
replace_file-file calls out d = ground arith

module _ (decimal : ℕ → Bytes) (decode : Bytes → Option (Dict Json))
    (encode : Dict Json → Bytes) where
  -- the new contents of the file
  abbrev pub updated : Bytes → Bytes → ℕ → Disk → Bytes
  updated access refresh expires d =
      encode
        (update_credentials decimal access refresh expires (read_top decimal decode encode d.file))

  -- how the call may end
  abbrev pub After : Calls → Bytes → Bytes → ℕ → Disk → Disk × Bool → Type 0
  After calls access refresh expires d out =
      (out.0.file ≡ (if out.1 then some (updated access refresh expires d) else d.file))
      × (out.1 ≡ (calls.creates && calls.writes && calls.chmods && calls.closes && calls.renames))
      × (is_some out.0.temporary ≡ (calls.creates && (not out.1 && not calls.removes)))

  -- The file holds the whole of the updated JSON if nil is returned, which is so exactly if every call
  -- up to the renaming succeeds, and what it held before if not. Where no temporary file was there,
  -- one is left exactly if it was made, nil is not returned, and its removal fails too.
  pub write_credentials_file-Atomic :
      (calls : Calls) (access refresh : Bytes) (expires : ℕ) (d : Disk)
      → d.temporary ≡ none
      → After calls access refresh expires d
          (write_credentials_file decimal decode encode calls access refresh expires d)
  unfolding write_credentials_file replace_file
  write_credentials_file-Atomic calls access refresh expires d clean = (
    replace_file-file calls (updated access refresh expires d) d,
    ground arith,
    ground (arith, clean),
  )

  -- what a later read of the file finds under a key of `claudeAiOauth`
  abbrev pub read_oauth : Bytes → Option Bytes → Option Json
  read_oauth j file =
      lookup j
        (or_empty (as_map (lookup (codes "claudeAiOauth") (read_top decimal decode encode file))))

  -- the map that is written
  abbrev pub written : Bytes → Bytes → ℕ → Disk → Dict Json
  written access refresh expires d =
      update_credentials decimal access refresh expires (read_top decimal decode encode d.file)

  read_top-written :
      (calls : Calls) (access refresh : Bytes) (expires : ℕ) (d : Disk)
      → decode (encode (written access refresh expires d)) ≡ some (written access refresh expires d)
      → (write_credentials_file decimal decode encode calls access refresh expires d).1 ≡ true
      → read_top decimal decode encode
          ((write_credentials_file decimal decode encode calls access refresh expires d).0.file)
        ≡ written access refresh expires d
  unfolding write_credentials_file
  read_top-written calls access refresh expires d codec ok =
      rw (replace_file-file calls (encode (written access refresh expires d)) d)
        (rw ok (rw codec refl))

  -- If writing succeeds and the map written is read back as it is, a later read finds under
  -- `claudeAiOauth` the new access token, the refresh token and the expiry where they were given,
  -- and every other key as before.
  pub write_credentials_file-oauth :
      (calls : Calls) (access refresh j : Bytes) (expires : ℕ) (d : Disk)
      → decode (encode (written access refresh expires d)) ≡ some (written access refresh expires d)
      → (write_credentials_file decimal decode encode calls access refresh expires d).1 ≡ true
      → read_oauth j
          ((write_credentials_file decimal decode encode calls access refresh expires d).0.file)
        ≡ (if bytes_eq (codes "expiresAt") j && is_pos_int64 expires
            then some (num (decimal expires))
            else if bytes_eq (codes "refreshToken") j && not (is_empty refresh)
            then some (str refresh)
            else if bytes_eq (codes "accessToken") j
            then some (str access)
            else read_oauth j d.file)
  unfolding lookup bytes_eq
  write_credentials_file-oauth calls access refresh j expires d codec ok =
      let old =
        or_empty
          (as_map (lookup (codes "claudeAiOauth") (read_top decimal decode encode d.file))) in
      rw (read_top-written calls access refresh expires d codec ok) (
        rw
          (lookup-update_credentials decimal access refresh (codes "claudeAiOauth") expires
            (read_top decimal decode encode d.file))
          (rw (as_map-object (set_tokens decimal access refresh expires old))
            (lookup-set_tokens decimal access refresh j expires old)))

  pub write_credentials_file-others :
      (calls : Calls) (access refresh j : Bytes) (expires : ℕ) (d : Disk)
      → decode (encode (written access refresh expires d)) ≡ some (written access refresh expires d)
      → (write_credentials_file decimal decode encode calls access refresh expires d).1 ≡ true
      → j ≢ codes "claudeAiOauth"
      → lookup j (
          read_top decimal decode encode
            ((write_credentials_file decimal decode encode calls access refresh expires d).0.file))
        ≡ lookup j (read_top decimal decode encode d.file)
  write_credentials_file-others calls access refresh j expires d codec ok other =
      rw (read_top-written calls access refresh expires d codec ok) (
        rw
          (lookup-update_credentials decimal access refresh j expires
            (read_top decimal decode encode d.file))
          (ground (arith, bytes_eq_iff (codes "claudeAiOauth") j, other)))
