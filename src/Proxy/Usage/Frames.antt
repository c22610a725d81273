-- ===== src/Proxy/Usage/Frames.antt =====
-- proxy/usage.go: the reader of AWS event streams. The decoding of JSON is a parameter: an envelope
-- gives its decoded bytes, an event its type and its two usage blocks.
use runclaude.Prelude.{
  ℕ, zero, suc, ◌+◌, ◌-◌, ◌||◌, Option, none, some, ltb, if◌then◌else◌, length, take, drop,
}
use runclaude.Bits.{add_int64, uint32}
use runclaude.Text.{Bytes, codes, bytes_eq, is_empty}
use runclaude.Proxy.Usage.{TokenUsage, no_usage, UsageObject, tokens, openai_style}

-- The result of `readEventStreamFrame`: a payload and the rest of the stream, the end of the stream
-- (`io.EOF` or `io.ErrUnexpectedEOF`), or lengths that do not fit.
pub data Frame : Type 0 where
  frame : Bytes → Bytes → Frame
  end_of_stream : Frame
  bad_lengths : Frame

-- behind the prelude, with the two lengths
unfoldable pub read_rest : ℕ → ℕ → Bytes → Frame
read_rest total_len hdr_len rest =
    if ltb total_len 16 || ltb (total_len - 16) hdr_len
    then bad_lengths
    else if ltb (length rest) (total_len - 12)
    then end_of_stream
    else frame (take (total_len - 12 - 4 - hdr_len) (drop hdr_len rest))
        (drop (total_len - 12) rest)

-- `readEventStreamFrame(r)`
unfoldable pub read_event_stream_frame : Bytes → Frame
unfolding read_rest
read_event_stream_frame s =
    if ltb (length s) 12
    then end_of_stream
    else read_rest (uint32 s) (uint32 (drop 4 s)) (drop 12 s)

-- the decoded event: `type`, `message.usage` and `usage`
pub record StreamEvent : Type 0 where
  pub type : Bytes
  pub message_usage : UsageObject
  pub usage : UsageObject

-- the variables of the loop in `parseEventStreamUsage`
pub record Totals : Type 0 where
  pub u : TokenUsage
  pub last_output : ℕ
  pub snapshot : Option TokenUsage

abbrev pub no_totals : Totals
no_totals = record { u = no_usage; last_output = 0; snapshot = none }

-- the `switch` on the type of an event
unfoldable pub count_event : StreamEvent → Totals → Totals
unfolding bytes_eq
count_event ev t =
    if bytes_eq ev.type (codes "message_start")
    then record t {
      u = record {
        input = add_int64 t.u.input ev.message_usage.input_tokens;
        output = t.u.output;
        cache_read = add_int64 t.u.cache_read ev.message_usage.cache_read_input_tokens;
        cache_write = add_int64 t.u.cache_write ev.message_usage.cache_creation_input_tokens;
      };
    }
    else if bytes_eq ev.type (codes "message_delta")
    then record t { last_output = ev.usage.output_tokens }
    else if openai_style ev.usage
    then record t { snapshot = some (tokens ev.usage) }
    else t

-- behind the loop
abbrev pub finish : Totals → TokenUsage
finish record_totals = elim record_totals.snapshot [
  | some s ↦ s
  | none ↦ record (record_totals.u) {
    output = add_int64 record_totals.u.output record_totals.last_output;
  }
]

-- What the handling of JSON gives: `none` where `json.Unmarshal` fails.
pub record Decoder : Type 0 where
  pub envelope : Bytes → Option Bytes
  pub event : Bytes → Option StreamEvent

module _ (decode : Decoder) where
  abbrev count_decoded : Option StreamEvent → Totals → Totals
  count_decoded none t = t
  count_decoded (some ev) t = count_event ev t

  abbrev count_envelope : Option Bytes → Totals → Totals
  count_envelope none t = t
  count_envelope (some bytes) t = if is_empty bytes then t else count_decoded (decode.event bytes) t

  -- the body of the loop, on the payload of a frame
  abbrev pub count_payload : Bytes → Totals → Totals
  count_payload payload = count_envelope (decode.envelope payload)

  -- one round of the loop, `next` being the rounds after it
  abbrev pub follow : Frame → (Bytes → Totals → Option Totals) → Totals → Option Totals
  follow (frame payload rest) next t = next rest (count_payload payload t)
  follow end_of_stream next t = some t
  follow bad_lengths next t = some t

  -- the loop, on fuel; `none` means that the fuel ran out
  unfoldable pub read_frames : ℕ → Bytes → Totals → Option Totals
  read_frames zero s t = none
  read_frames (suc f) s t = follow (read_event_stream_frame s) (read_frames f) t

  abbrev pub finish_counted : Option Totals → Option TokenUsage
  finish_counted none = none
  finish_counted (some t) = some (finish t)

  -- `parseEventStreamUsage(r)`: every frame takes at least 16 bytes.
  unfoldable pub parse_event_stream_usage : Bytes → Option TokenUsage
  unfolding read_frames
  parse_event_stream_usage s = finish_counted (read_frames (length s + 1) s no_totals)
