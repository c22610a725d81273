-- ===== src/Proxy/Tests/Tokens.antt =====
-- The accounting of tokens at concrete calls and streams.
use runclaude.Prelude.{ℕ, ◌≡◌, ◌≢◌, ◌%◌, false, List, [], ◌∷◌, Option, none, some, arith, length}
use runclaude.Bits.{int64_mod}
use runclaude.Dict.{Dict, lookup}
use runclaude.Fakeapi.EventStream.{message_headers, write_chunks}
use runclaude.Text.{Bytes, codes}
use runclaude.Proxy.Usage.{TokenUsage, UsageObject, usage_or_none}
use runclaude.Proxy.Usage.Frames.{Decoder, no_totals, finish, parse_event_stream_usage}
use runclaude.Proxy.Usage.Streams.{
  count_payloads, parse-write_chunks, parse_event_stream_usage-total,
}
use runclaude.Proxy.Usage.Totals.{add_calls, sum_for, add_calls-sum}
use runclaude.Proxy.Usage.Reader.{Call, read, close}

abbrev usage : TokenUsage
usage = record { input = 3; output = 5; cache_read = 0; cache_write = 1 }

abbrev model : Bytes
model = codes "claude"

abbrev usage_object : UsageObject
usage_object = record {
  input_tokens = 3;
  output_tokens = 5;
  cache_read_input_tokens = 0;
  cache_creation_input_tokens = 0;
  prompt_tokens = 0;
  completion_tokens = 0;
  cached_tokens = 0;
}

abbrev decoder : Decoder
decoder = record {
  envelope = λ b. some b;
  event = λ b.
      some (record {
        type = codes "message_delta";
        message_usage = usage_object;
        usage = usage_object;
      });
}

abbrev crc : Bytes → ℕ
crc b = length b

abbrev payloads : List Bytes
payloads = codes "one" ∷ codes "two" ∷ []

add_calls-sum_example :
    ((usage_or_none (lookup model (add_calls ((model, usage) ∷ [])))).input
      ≡ sum_for (λ u. u.input) model ((model, usage) ∷ []) % int64_mod)
    × ((usage_or_none (lookup model (add_calls ((model, usage) ∷ [])))).output
        ≡ sum_for (λ u. u.output) model ((model, usage) ∷ []) % int64_mod)
    × ((usage_or_none (lookup model (add_calls ((model, usage) ∷ [])))).cache_read
        ≡ sum_for (λ u. u.cache_read) model ((model, usage) ∷ []) % int64_mod)
    × ((usage_or_none (lookup model (add_calls ((model, usage) ∷ [])))).cache_write
        ≡ sum_for (λ u. u.cache_write) model ((model, usage) ∷ []) % int64_mod)
add_calls-sum_example = add_calls-sum model ((model, usage) ∷ [])

parse-write_chunks_example :
    parse_event_stream_usage decoder (write_chunks crc payloads)
    ≡ some (finish (count_payloads decoder payloads no_totals))
unfolding message_headers
parse-write_chunks_example =
    parse-write_chunks decoder crc payloads (omega arith, (omega arith, tt))

parse_event_stream_usage-total_example : parse_event_stream_usage decoder (1 ∷ 2 ∷ 3 ∷ []) ≢ none
parse_event_stream_usage-total_example = parse_event_stream_usage-total decoder (1 ∷ 2 ∷ 3 ∷ [])

abbrev body_calls : List Call
body_calls = read (codes "ab") false ∷ close ∷ close ∷ []

abbrev decode : Bytes → Option UsageObject
decode b = some usage_object

abbrev none_yet : Dict TokenUsage
none_yet = []
