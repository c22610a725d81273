-- ===== src/Trust.antt =====
-- trust.go: the mark in ~/.claude.json by which claude trusts a directory. The codec is a parameter; a
-- file is what reading it gives, and a file that holds `null` decodes to the nil map.
pub mod Marked
use runclaude.Prelude.{
  Bool, true, false, not, ◌&&◌, List, [], ◌∷◌, Option, none, some, if◌then◌else◌,
}
use runclaude.Claudemerge.{File, absent, unreadable, contents, Read, failed, nil, map_of, or_new}
use runclaude.Dict.{Dict, lookup, insert}
use runclaude.Json.{Json, bool, object, as_map}
use runclaude.Text.{Bytes, codes}

-- `v == true`
unfoldable pub is_true : Option Json → Bool
is_true (some (bool b)) = b
is_true _ = false

-- `m[k].(map[string]any)`, or an empty map
abbrev pub map_at : Bytes → Dict Json → Dict Json
map_at k m = or_new (as_map (lookup k m))

abbrev pub accepted_key : Bytes
accepted_key = codes "hasTrustDialogAccepted"

abbrev pub onboarded_key : Bytes
onboarded_key = codes "hasCompletedProjectOnboarding"

-- the test for a project that is trusted already
unfoldable pub is_trusted : Dict Json → Bool
is_trusted proj = is_true (lookup accepted_key proj) && is_true (lookup onboarded_key proj)

unfoldable pub trust_project : Dict Json → Dict Json
trust_project proj = insert onboarded_key (bool true) (insert accepted_key (bool true) proj)

-- the map that is written, or `none` where the file stays
unfoldable pub trust_root : Bytes → Dict Json → Option (Dict Json)
trust_root cwd root =
    let projects = map_at (codes "projects") root in
    let proj = map_at cwd projects in
    if is_trusted proj
    then none
    else some (
        insert (codes "projects") (object (insert cwd (object (trust_project proj)) projects)) root)

-- how `ensureProjectTrusted` ends: nil with the file as it was, an error, a panic (the assignment into
-- the nil map), or nil with the file replaced
pub data Outcome : Type 0 where
  unchanged error panic : Outcome
  replaced : Bytes → Outcome

module _ (decode : Bytes → Read) (encode : Dict Json → Bytes) (writes : Bool) where
  abbrev pub write_root : Option (Dict Json) → Outcome
  write_root none = unchanged
  write_root (some root) = if writes then replaced (encode root) else error

  abbrev pub trust_decoded : Bytes → Read → Outcome
  trust_decoded cwd failed = error
  trust_decoded cwd nil = panic
  trust_decoded cwd (map_of root) = write_root (trust_root cwd root)

  -- `ensureProjectTrusted(home, cwd)`; `writes` tells whether `os.WriteFile` and `os.Rename` succeed
  unfoldable pub ensure_project_trusted : Bytes → File → Outcome
  ensure_project_trusted cwd absent = unchanged
  ensure_project_trusted cwd unreadable = error
  ensure_project_trusted cwd (contents b) = trust_decoded cwd (decode b)
