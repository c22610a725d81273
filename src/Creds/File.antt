-- ===== src/Creds/File.antt =====
-- creds/anthropic.go, `writeCredentialsFile`: the new token pair is put into the JSON of the file, the
-- rest of which stays, through a temporary file that replaces it. The codecs are parameters.
pub mod Update
use runclaude.Prelude.{
  ◌≡◌, refl, ap, ℕ, Bool, true, false, not, ◌&&◌, List, [], ◌∷◌, ◌++◌, Option, none, some,
  if◌then◌else◌,
}
use runclaude.Bits.{is_pos_int64}
use runclaude.Dict.{Dict, lookup, insert}
use runclaude.Json.{Json, num, str, obj, object, as_map}
use runclaude.Text.{Bytes, codes, is_empty}

abbrev pub or_empty : Option (Dict Json) → Dict Json
or_empty none = []
or_empty (some m) = m

module _ (decimal : ℕ → Bytes) where
  -- the changes to `oauth`
  unfoldable pub set_tokens : Bytes → Bytes → ℕ → Dict Json → Dict Json
  unfolding insert
  set_tokens access refresh expires_at_ms oauth =
      let one = insert (codes "accessToken") (str access) oauth in
      let two = if is_empty refresh then one else insert (codes "refreshToken") (str refresh) one in
      if is_pos_int64 expires_at_ms
      then insert (codes "expiresAt") (num (decimal expires_at_ms)) two
      else two

  -- the changes to `top`
  unfoldable pub update_credentials : Bytes → Bytes → ℕ → Dict Json → Dict Json
  unfolding set_tokens insert lookup as_map
  update_credentials access refresh expires_at_ms top =
      insert (codes "claudeAiOauth")
        (object (
          set_tokens access refresh expires_at_ms
            (or_empty (as_map (lookup (codes "claudeAiOauth") top)))))
        top

-- The file at the path and the temporary file, each with its contents if it exists.
pub record Disk : Type 0 where
  pub file : Option Bytes
  pub temporary : Option Bytes

-- The results of the calls, true where the call returns nil, and what a write that fails has written.
pub record Calls : Type 0 where
  pub creates : Bool
  pub writes : Bool
  pub chmods : Bool
  pub closes : Bool
  pub renames : Bool
  -- the deferred `os.Remove` of the temporary file
  pub removes : Bool
  pub partial : Bytes

-- the deferred call, on a temporary file that holds `left`
abbrev pub cleaned : Calls → Bytes → Disk → Disk
cleaned calls left d = record d { temporary = if calls.removes then none else some left }

-- the calls from `os.CreateTemp` on, that write `out`: the disk after them, and whether nil is returned
unfoldable pub replace_file : Calls → Bytes → Disk → Disk × Bool
replace_file calls out d =
    if not calls.creates
    then (d, false)
    else if not calls.writes
    then (cleaned calls calls.partial d, false)
    else if not calls.chmods
    then (cleaned calls out d, false)
    else if not calls.closes
    then (cleaned calls out d, false)
    else if not calls.renames
    then (cleaned calls out d, false)
    else (record { file = some out; temporary = none }, true)

module _ (decimal : ℕ → Bytes) (decode : Bytes → Option (Dict Json))
    (encode : Dict Json → Bytes) where
  abbrev pub read_top : Option Bytes → Dict Json
  read_top none = []
  read_top (some contents) = or_empty (decode contents)

  -- `writeCredentialsFile(path, access, refresh, expiresAtMs)`
  unfoldable pub write_credentials_file : Calls → Bytes → Bytes → ℕ → Disk → Disk × Bool
  unfolding replace_file update_credentials
  write_credentials_file calls access refresh expires_at_ms d =
      replace_file calls
        (encode (update_credentials decimal access refresh expires_at_ms (read_top d.file))) d
