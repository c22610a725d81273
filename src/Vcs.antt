-- ===== src/Vcs.antt =====
-- vcs.go: the copy of a repository's exclude file with one more pattern. An absent file reads as empty.
pub mod Exclude
use runclaude.Prelude.{
  ◌≡◌, Bool, true, false, not, ◌||◌, List, [], ◌∷◌, ◌++◌, Option, none, some, if◌then◌else◌,
}
use runclaude.Text.{Bytes, bytes_eq, has_suffix, split, trim_space, is_empty}

-- the loop over the lines
abbrev pub any_line : Bytes → List Bytes → Bool
unfolding trim_space bytes_eq
any_line pattern [] = false
any_line pattern (line ∷ lines) = bytes_eq (trim_space line) pattern || any_line pattern lines

-- what `writeExcludeCopy` writes, for the contents `existing`
unfoldable pub exclude_copy : Bytes → Bytes → Bytes
unfolding split any_line has_suffix
exclude_copy pattern existing =
    if any_line pattern (split 10 existing)
    then existing
    else if is_empty existing
    then pattern ++ (10 ∷ [])
    else if has_suffix existing (10 ∷ [])
    then existing ++ (pattern ++ (10 ∷ []))
    else existing ++ (10 ∷ (pattern ++ (10 ∷ [])))

-- `os.ReadFile(hostPath)`
pub data File : Type 0 where
  absent : File
  unreadable : File
  contents : Bytes → File

-- `writeExcludeCopy(hostPath, copyPath, pattern)`: the bytes given to `os.WriteFile`, or `none` where
-- reading fails
unfoldable pub write_exclude_copy : Bytes → File → Option Bytes
unfolding exclude_copy
write_exclude_copy pattern unreadable = none
write_exclude_copy pattern absent = some (exclude_copy pattern [])
write_exclude_copy pattern (contents b) = some (exclude_copy pattern b)
