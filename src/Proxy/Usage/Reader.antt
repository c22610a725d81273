-- ===== src/Proxy/Usage/Reader.antt =====
-- proxy/usage.go: the reader that buffers a JSON response and counts it once.
use runclaude.Prelude.{
  ◌≡◌, refl, ◌∙◌, Bool, true, false, List, [], ◌∷◌, ◌++◌, Option, none, some, arith, if◌then◌else◌,
  append-nil, append_assoc,
}
use runclaude.Dict.{Dict}
use runclaude.Text.{Bytes}
use runclaude.Proxy.Usage.{TokenUsage, no_usage, add_usage, UsageObject, tokens}

-- `jsonUsageReader`, with the tracker that it points to
pub record JsonUsageReader : Type 0 where
  pub model : Bytes
  pub tracker : Dict TokenUsage
  pub buf : Bytes
  pub done : Bool

-- What the body gives to one `Read`: the bytes, and whether `io.EOF` came with them.
pub data Call : Type 0 where
  read : Bytes → Bool → Call
  close : Call

-- `decode` is `json.Unmarshal` of the `usage` block; `none` is an error.
module _ (decode : Bytes → Option UsageObject) where
  abbrev tokens_or_none : Option UsageObject → TokenUsage
  tokens_or_none none = no_usage
  tokens_or_none (some u) = tokens u

  -- `parseJSONUsage(body)`
  unfoldable pub parse_json_usage : Bytes → TokenUsage
  parse_json_usage body = tokens_or_none (decode body)

  -- `flush()`
  unfoldable pub flush : JsonUsageReader → JsonUsageReader
  flush r =
      if r.done
      then r
      else record r { done = true; tracker = add_usage r.model (parse_json_usage r.buf) r.tracker }

  -- `Read(p)` and `Close()`
  unfoldable pub call : Call → JsonUsageReader → JsonUsageReader
  unfolding flush
  call (read chunk eof) r =
      let r' = record r { buf = r.buf ++ chunk } in if eof then flush r' else r'
  call close r = flush r

  unfoldable pub calls : List Call → JsonUsageReader → JsonUsageReader
  calls [] r = r
  calls (c ∷ cs) r = calls cs (call c r)

  -- What was read up to the first end of the body or `Close`, if there was one.
  abbrev pub body_of : List Call → Option Bytes
  body_of [] = none
  body_of (close ∷ cs) = some []
  body_of (read chunk true ∷ cs) = some chunk
  body_of (read chunk false ∷ cs) = elim (body_of cs) [ none ↦ none | some b ↦ some (chunk ++ b) ]

  abbrev charged : Bytes → Option Bytes → Bytes → Dict TokenUsage → Dict TokenUsage
  charged model none buf tracker = tracker
  charged model (some b) buf tracker = add_usage model (parse_json_usage (buf ++ b)) tracker

  calls_done :
      (cs : List Call) (r : JsonUsageReader) → r.done ≡ true → (calls cs r).tracker ≡ r.tracker
  unfolding calls call
  calls_done [] r h = refl
  calls_done (close ∷ cs) r h = ground (arith, calls_done cs (call close r))
  calls_done (read chunk eof ∷ cs) r h = ground (arith, calls_done cs (call (read chunk eof) r))

  calls-charged :
      (cs : List Call) (r : JsonUsageReader)
      → r.done ≡ false
      → (calls cs r).tracker ≡ charged r.model (body_of cs) r.buf r.tracker
  unfolding calls call
  calls-charged [] r h = refl
  calls-charged (close ∷ cs) r h = rw append-nil (ground (arith, calls_done cs (call close r)))
  calls-charged (read chunk true ∷ cs) r h =
      ground (arith, calls_done cs (call (read chunk true) r))
  calls-charged (read chunk false ∷ cs) r h =
      regroup (body_of cs) (calls-charged cs (call (read chunk false) r) h)
    where
      regroup :
          (o : Option Bytes)
          → (calls cs (call (read chunk false) r)).tracker
            ≡ charged r.model o (r.buf ++ chunk) r.tracker
          → (calls cs (call (read chunk false) r)).tracker
            ≡ charged r.model (elim o [ none ↦ none | some b ↦ some (chunk ++ b) ]) r.buf r.tracker
      regroup none e = e
      regroup (some b) e = rw append_assoc at e

  -- However the client reads and closes a response, its usage is added once, at the first end of the
  -- body or `Close`, from all that was read until then; with neither of them nothing is added.
  pub calls_once :
      (cs : List Call) (model : Bytes) (tracker : Dict TokenUsage)
      → (calls cs (record { model = model; tracker = tracker; buf = []; done = false })).tracker
        ≡ (elim (body_of cs) [
          | none ↦ tracker
          | some b ↦ add_usage model (parse_json_usage b) tracker
        ])
  calls_once cs model tracker =
      calls-charged cs (record { model = model; tracker = tracker; buf = []; done = false }) refl
      ∙ same (body_of cs)
    where
      same :
          (o : Option Bytes)
          → charged model o [] tracker
            ≡ (elim o [ none ↦ tracker | some b ↦ add_usage model (parse_json_usage b) tracker ])
      same none = refl
      same (some b) = refl
