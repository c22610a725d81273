-- ===== src/Mountinfo.antt =====
-- mountinfo.go: rows of /proc/self/mountinfo, and paths below a path. The lines are those that the
-- scanner of package `bufio` gives.
pub mod Escape
pub mod Paths
use runclaude.Prelude.{
  ◌≡◌, ℕ, zero, suc, ◌⊎◌, inl, inr, ◌+◌, ◌-◌, ◌*◌, ◌%◌, Bool, true, false, not, ◌&&◌, ◌||◌, List,
  [], ◌∷◌, ◌++◌, Option, none, some, ltb, leb, ◌==◌, if◌then◌else◌,
}
use runclaude.Text.{Bytes, codes, bytes_eq, has_prefix, has_byte, is_empty, is_space, push_head}

-- Go's `int`
pub data ℤ : Type 0 where
  pos : ℕ → ℤ
  negsuc : ℕ → ℤ

-- `mountEntry`
pub record MountEntry : Type 0 where
  pub mount_id : ℤ
  pub parent_id : ℤ
  pub dev : Bytes
  pub root_in_fs : Bytes
  pub mount_point : Bytes

-- `isOctalDigit(b)`
unfoldable pub is_octal_digit : ℕ → Bool
is_octal_digit b = leb 48 b && leb b 55

-- the byte of three digits; the shift by 6 drops what leaves the byte
abbrev pub octal_byte : ℕ → ℕ → ℕ → ℕ
octal_byte x y z = (x - 48) * 64 % 256 + (y - 48) * 8 + (z - 48)

-- the loop of `unescapeOctal`
unfoldable pub unescape : Bytes → Bytes
unfolding is_octal_digit
unescape [] = []
unescape (c ∷ []) = c ∷ []
unescape (c ∷ x ∷ []) = c ∷ unescape (x ∷ [])
unescape (c ∷ x ∷ y ∷ []) = c ∷ unescape (x ∷ y ∷ [])
unescape (c ∷ x ∷ y ∷ z ∷ s) =
    let skipped = unescape s in
    let kept = unescape (x ∷ y ∷ z ∷ s) in
    if c == 92 && is_octal_digit x && is_octal_digit y && is_octal_digit z
    then octal_byte x y z ∷ skipped
    else c ∷ kept

-- `unescapeOctal(s)`
unfoldable pub unescape_octal : Bytes → Bytes
unfolding has_byte unescape
unescape_octal s = if not (has_byte 92 s) then s else unescape s

abbrev pub prepend : ℕ → Option Bytes → Option Bytes
prepend c none = none
prepend c (some s) = some (c ∷ s)

-- `line[:strings.Index(line, sep)]`, with `none` where the index is negative
unfoldable pub before : Bytes → Bytes → Option Bytes
unfolding has_prefix
before sep [] = if is_empty sep then some [] else none
before sep (c ∷ s) =
    let rest = before sep s in if has_prefix (c ∷ s) sep then some [] else prepend c rest

-- `strings.Fields(s)`
abbrev pub ends_word : Bytes → Bool
unfolding is_space
ends_word [] = true
ends_word (c ∷ s) = is_space c

unfoldable pub fields : Bytes → List Bytes
unfolding is_space
fields [] = []
fields (c ∷ s) =
    let rest = fields s in
    if is_space c then rest else if ends_word s then (c ∷ []) ∷ rest else push_head c rest

-- `strconv.Atoi(s)`, with `none` for its errors
abbrev pub digits_from : ℕ → Bytes → Option ℕ
digits_from n [] = some n
digits_from n (c ∷ s) =
    let rest = digits_from (n * 10 + (c - 48)) s in if leb 48 c && leb c 57 then rest else none

abbrev pub signed : Bool → Option ℕ → Option ℤ
signed negative none = none
signed false (some n) = if ltb n 9223372036854775808 then some (pos n) else none
signed true (some zero) = some (pos 0)
signed true (some (suc n)) = if ltb n 9223372036854775808 then some (negsuc n) else none

unfoldable pub atoi : Bytes → Option ℤ
atoi [] = none
atoi (c ∷ s) =
    if c == 43 || c == 45
    then if is_empty s then none else signed (c == 45) (digits_from 0 s)
    else signed false (digits_from 0 (c ∷ s))

-- the errors of `parseMountinfo`
pub data MountinfoError : Type 0 where
  missing_separator too_few_fields bad_mount_id bad_parent_id scan_failed : MountinfoError

abbrev pub with_ids : Option ℤ → Option ℤ → Bytes → Bytes → Bytes → MountinfoError ⊎ MountEntry
with_ids none b d r p = inl bad_mount_id
with_ids (some a) none d r p = inl bad_parent_id
with_ids (some a) (some b) d r p =
    inr (record { mount_id = a; parent_id = b; dev = d; root_in_fs = r; mount_point = p })

unfoldable pub entry_of : List Bytes → MountinfoError ⊎ MountEntry
unfolding atoi unescape_octal
entry_of (a ∷ b ∷ d ∷ r ∷ p ∷ _) =
    with_ids (atoi a) (atoi b) d (unescape_octal r) (unescape_octal p)
entry_of _ = inl too_few_fields

-- the body of the loop
abbrev pub entry_before : Option Bytes → MountinfoError ⊎ MountEntry
unfolding entry_of fields
entry_before none = inl missing_separator
entry_before (some head) = entry_of (fields head)

abbrev pub add_entry :
    MountinfoError ⊎ MountEntry
    → MountinfoError ⊎ List MountEntry
    → MountinfoError ⊎ List MountEntry
add_entry (inl e) rest = inl e
add_entry (inr x) (inl e) = inl e
add_entry (inr x) (inr xs) = inr (x ∷ xs)

-- `parseMountinfo(r)`: the lines that the scanner gives, and whether it ends with an error
unfoldable pub parse_mountinfo : Bool → List Bytes → MountinfoError ⊎ List MountEntry
unfolding before
parse_mountinfo failed [] = if failed then inl scan_failed else inr []
parse_mountinfo failed (line ∷ lines) =
    add_entry (entry_before (before (codes " - ") line)) (parse_mountinfo failed lines)

unfoldable pub trim_slashes : Bytes → Bytes
trim_slashes [] = []
trim_slashes (c ∷ s) =
    let rest = trim_slashes s in if c == 47 && is_empty rest then [] else c ∷ rest

-- `pathContains(parent, child)`
unfoldable pub path_contains : Bytes → Bytes → Bool
unfolding trim_slashes has_prefix bytes_eq
path_contains parent child =
    let p = trim_slashes parent in
    if is_empty p
    then has_prefix child (codes "/")
    else bytes_eq child p || has_prefix child (p ++ codes "/")
