-- ===== src/Proxy/Usage.antt =====
-- proxy/usage.go: token accounting. A count is an `int64`, kept as its bit pattern. A price is a whole
-- number of hundredths of a dollar for a million tokens, which every price of the table is.
pub mod Frames
pub mod Totals
pub mod Streams
pub mod Reader
pub mod Prices
use runclaude.Prelude.{
  ℕ, ◌+◌, ◌*◌, ◌-◌, Bool, true, false, not, ◌&&◌, ◌||◌, List, [], ◌∷◌, ◌++◌, Option, none, some,
  ltb, leb, ◌==◌, if◌then◌else◌, drop,
}
use runclaude.Bits.{add_int64, sub_int64, is_pos_int64}
use runclaude.Dict.{Dict, lookup, insert}
use runclaude.Text.{Bytes, codes, has_prefix, contains, cut_byte, is_empty}

-- `TokenUsage`
pub record TokenUsage : Type 0 where
  pub input : ℕ
  pub output : ℕ
  pub cache_read : ℕ
  pub cache_write : ℕ

abbrev pub no_usage : TokenUsage
no_usage = record { input = 0; output = 0; cache_read = 0; cache_write = 0 }

abbrev pub is_zero : TokenUsage → Bool
is_zero u = u.input == 0 && u.output == 0 && u.cache_read == 0 && u.cache_write == 0

-- the four sums of `add`
abbrev pub plus : TokenUsage → TokenUsage → TokenUsage
plus acc u = record {
  input = add_int64 acc.input u.input;
  output = add_int64 acc.output u.output;
  cache_read = add_int64 acc.cache_read u.cache_read;
  cache_write = add_int64 acc.cache_write u.cache_write;
}

abbrev pub usage_or_none : Option TokenUsage → TokenUsage
usage_or_none none = no_usage
usage_or_none (some u) = u

-- `add(model, u)`, on the map `byModel`
unfoldable pub add_usage : Bytes → TokenUsage → Dict TokenUsage → Dict TokenUsage
add_usage model u by_model =
    if is_zero u
    then by_model
    else insert model (plus (usage_or_none (lookup model by_model)) u) by_model

-- `usageObject`
pub record UsageObject : Type 0 where
  pub input_tokens : ℕ
  pub output_tokens : ℕ
  pub cache_read_input_tokens : ℕ
  pub cache_creation_input_tokens : ℕ
  pub prompt_tokens : ℕ
  pub completion_tokens : ℕ
  pub cached_tokens : ℕ

-- `tokens()`
unfoldable pub tokens : UsageObject → TokenUsage
tokens u =
    let openai = u.input_tokens == 0 && is_pos_int64 u.prompt_tokens in
    record {
      input = if openai then sub_int64 u.prompt_tokens u.cached_tokens else u.input_tokens;
      output = if u.output_tokens == 0 then u.completion_tokens else u.output_tokens;
      cache_read = if openai then u.cached_tokens else u.cache_read_input_tokens;
      cache_write = u.cache_creation_input_tokens;
    }

-- `openAIStyle()`
unfoldable pub openai_style : UsageObject → Bool
openai_style u = is_pos_int64 u.prompt_tokens || is_pos_int64 u.completion_tokens

-- `url.PathUnescape`: a percent sign stands before two hexadecimal digits.
hex_digit : ℕ → Option ℕ
hex_digit c =
    if leb b'0' c && leb c b'9'
    then some (c - b'0')
    else if leb b'a' c && leb c b'f'
    then some (c - b'a' + 10)
    else if leb b'A' c && leb c b'F'
    then some (c - b'A' + 10)
    else none

hex_byte : Option ℕ → Option ℕ → Option ℕ
hex_byte (some h) (some l) = some (h * 16 + l)
hex_byte _ _ = none

abbrev cons_decoded : Option ℕ → Option Bytes → Option Bytes
cons_decoded (some c) (some s) = some (c ∷ s)
cons_decoded _ _ = none

unfoldable pub path_unescape : Bytes → Option Bytes
unfolding hex_digit hex_byte
path_unescape [] = some []
path_unescape (c ∷ h ∷ l ∷ s) =
    let decoded = cons_decoded (hex_byte (hex_digit h) (hex_digit l)) (path_unescape s) in
    let plain = cons_decoded (some c) (path_unescape (h ∷ l ∷ s)) in
    if c == b'%' then decoded else plain
path_unescape (c ∷ s) = if c == b'%' then none else cons_decoded (some c) (path_unescape s)

abbrev unescaped_or : Bytes → Option Bytes → Bytes
unescaped_or s none = s
unescaped_or s (some t) = t

-- `modelFromBedrockPath(path)`
unfoldable pub model_from_bedrock_path : Bytes → Bytes
unfolding has_prefix cut_byte path_unescape
model_from_bedrock_path path =
    if has_prefix path (codes "/model/")
    then (let segment = (cut_byte b'/' (drop 7 path)).0 in
        unescaped_or segment (path_unescape segment))
    else []

-- What `Observe` does with the body of a response.
pub data Observation : Type 0 where
  leave : Observation
  stream : Bytes → Observation
  json : Bytes → Observation

-- `Observe(reqPath, resp)`, on the status, whether there is a body, and the Content-Type
unfoldable pub observe : Bytes → ℕ → Bool → Bytes → Observation
unfolding model_from_bedrock_path contains
observe path status has_body content_type =
    let model = model_from_bedrock_path path in
    if is_empty model || not (status == 200) || not has_body
    then leave
    else if contains content_type (codes "vnd.amazon.eventstream")
    then stream model
    else if contains content_type (codes "application/json")
    then json model
    else leave
