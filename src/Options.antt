-- ===== src/Options.antt =====
-- options.go and main.go: defaults, and the overrides of upstream servers.
use runclaude.Prelude.{Bool, not, ◌||◌, List, [], ◌∷◌, Option, none, some, if◌then◌else◌}
use runclaude.Dict.{Dict, insert}
use runclaude.Text.{Bytes, cut_byte, is_empty}

-- `boolOr(p, def)`, a nil pointer being `none`
unfoldable pub bool_or : Option Bool → Bool → Bool
bool_or (some b) def = b
bool_or none def = def

-- `strOr(s, def)`
unfoldable pub str_or : Bytes → Bytes → Bytes
str_or s def = if not (is_empty s) then s else def

abbrev pub valid_upstream : Bytes × Option Bytes → Option (Bytes × Bytes)
valid_upstream (host, none) = none
valid_upstream (host, some url) = if is_empty host || is_empty url then none else some (host, url)

abbrev pub add_upstream : Option (Bytes × Bytes) → Option (Dict Bytes) → Option (Dict Bytes)
unfolding insert
add_upstream none out = none
add_upstream (some hu) none = none
add_upstream (some (host, url)) (some out) = some (insert host url out)

-- the loop of `parseMitmUpstream`, `out` being the map so far
unfoldable pub parse_upstreams : List Bytes → Option (Dict Bytes) → Option (Dict Bytes)
unfolding cut_byte
parse_upstreams [] out = out
parse_upstreams (kv ∷ items) out =
    parse_upstreams items (add_upstream (valid_upstream (cut_byte 61 kv)) out)

-- `parseMitmUpstream(items)`; `none` where `log.Fatalf` ends the process, and no items give the nil map,
-- which is empty here
unfoldable pub parse_mitm_upstream : List Bytes → Option (Dict Bytes)
unfolding parse_upstreams
parse_mitm_upstream items = parse_upstreams items (some [])
