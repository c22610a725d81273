-- ===== src/Proxy/Usage/Streams.antt =====
-- The reader of event streams against the encoder of package fakeapi.
use runclaude.Prelude.{
  ℕ, zero, suc, ◌+◌, ◌-◌, ◌%◌, ◌≤◌, ◌<◌, ◌≡◌, ◌≢◌, refl, ap, ap₂, ◌∙◌, List, [], ◌∷◌, ◌++◌, none,
  some, arith, length, take, drop, All, append_assoc, length-append, take-length-append,
  drop-length-append, length-drop,
}
use runclaude.Bits.{put_uint32, uint32, uint32-put_uint32}
use runclaude.Text.{Bytes, codes}
use runclaude.Fakeapi.EventStream.{seal, message_headers, write_message, write_chunks}
use runclaude.Proxy.Usage.Frames.{
  Frame, frame, end_of_stream, bad_lengths, read_rest, read_event_stream_frame, Totals, no_totals,
  finish, Decoder, count_payload, follow, read_frames, parse_event_stream_usage,
}

read_rest_lem :
    (hdr payload crc rest : Bytes)
    → length crc ≡ 4
    → read_rest (16 + length hdr + length payload) (length hdr) (((hdr ++ payload) ++ crc) ++ rest)
      ≡ frame payload rest
unfolding read_rest
read_rest_lem hdr payload crc rest four =
    let all = ((hdr ++ payload) ++ crc) ++ rest in
    let total = 16 + length hdr + length payload in
    let size : length all ≡ length hdr + length payload + 4 + length rest = omega (
      arith,
      length-append ((hdr ++ payload) ++ crc) rest,
      length-append (hdr ++ payload) crc,
      length-append hdr payload,
    ) in
    let body : drop (length hdr) all ≡ payload ++ (crc ++ rest) =
      ap (drop (length hdr))
        (append_assoc (hdr ++ payload) crc rest ∙ append_assoc hdr payload (crc ++ rest))
      ∙ drop-length-append hdr (payload ++ (crc ++ rest)) in
    let p : total - 12 - 4 - length hdr ≡ length payload = omega arith in
    let front : take (total - 12 - 4 - length hdr) (drop (length hdr) all) ≡ payload =
      rw (p, body) (take-length-append payload (crc ++ rest)) in
    let back : drop (total - 12) all ≡ rest =
      let q : total - 12 ≡ length ((hdr ++ payload) ++ crc) =
        omega (arith, length-append (hdr ++ payload) crc, length-append hdr payload) in
      rw q (drop-length-append ((hdr ++ payload) ++ crc) rest) in
    ground arith

read_prelude :
    (total hdr_len sum : ℕ) (rest : Bytes)
    → total < 4294967296
    → hdr_len < 4294967296
    → read_event_stream_frame (put_uint32 total ++ (put_uint32 hdr_len ++ (put_uint32 sum ++ rest)))
      ≡ read_rest total hdr_len rest
unfolding read_event_stream_frame
read_prelude total hdr_len sum rest a b =
    rw (uint32-put_uint32 total (put_uint32 hdr_len ++ (put_uint32 sum ++ rest)) a)
      (rw (uint32-put_uint32 hdr_len (put_uint32 sum ++ rest) b) (ground arith))

read-seal :
    (crc : Bytes → ℕ) (hdr payload rest : Bytes)
    → 16 + length hdr + length payload < 4294967296
    → read_event_stream_frame (seal crc hdr payload ++ rest) ≡ frame payload rest
unfolding seal
read-seal crc hdr payload rest small =
    let total = 16 + length hdr + length payload in
    let t : total % 4294967296 ≡ total = omega arith in
    let h : length hdr % 4294967296 ≡ length hdr = omega arith in
    let prelude = put_uint32 (total % 4294967296) ++ put_uint32 (length hdr % 4294967296) in
    let msg = prelude ++ (put_uint32 (crc prelude) ++ (hdr ++ payload)) in
    read_prelude (total % 4294967296) (length hdr % 4294967296) (crc prelude) _ (omega arith)
      (omega arith)
    ∙ ap₂ (λ a b. read_rest a b (((hdr ++ payload) ++ put_uint32 (crc msg)) ++ rest)) t h
    ∙ read_rest_lem hdr payload (put_uint32 (crc msg)) rest refl

-- One frame is read back with its payload, and what follows it is left.
pub read-write_message :
    (crc : Bytes → ℕ) (event_type payload rest : Bytes)
    → 16 + length (message_headers event_type) + length payload < 4294967296
    → read_event_stream_frame (write_message crc event_type payload ++ rest) ≡ frame payload rest
unfolding write_message
read-write_message crc event_type payload rest small =
    read-seal crc (message_headers event_type) payload rest small

-- A frame is at least 16 bytes long.
frame_shorter :
    (s payload rest : Bytes)
    → read_event_stream_frame s ≡ frame payload rest
    → length rest + 16 ≤ length s
unfolding read_event_stream_frame read_rest
frame_shorter s payload rest h =
    ground (arith, length-drop 12 s, length-drop (uint32 s - 12) (drop 12 s))

chunks_cons :
    (crc : Bytes → ℕ) (p : Bytes) (ps : List Bytes)
    → write_chunks crc (p ∷ ps) ≡ write_message crc (codes "chunk") p ++ write_chunks crc ps
unfolding write_chunks
chunks_cons crc p ps = refl

module _ (decode : Decoder) where
  follow-total :
      (r : Frame) (f : ℕ) (s : Bytes) (t : Totals)
      → ((payload rest : Bytes) → r ≡ frame payload rest → length rest < f)
      → ((rest : Bytes) (u : Totals) → length rest < f → read_frames decode f rest u ≢ none)
      → follow decode r (read_frames decode f) t ≢ none
  follow-total (frame payload rest) f s t h next = next rest _ (h payload rest refl)
  follow-total end_of_stream f s t h next = λ e. cc
  follow-total bad_lengths f s t h next = λ e. cc

  read_frames-total :
      (f : ℕ) (s : Bytes) (t : Totals) → length s < f → read_frames decode f s t ≢ none
  unfolding read_frames
  read_frames-total zero s t h = elim h [ ]
  read_frames-total (suc f) s t h =
      follow-total (read_event_stream_frame s) f s t
        (λ payload rest e. omega (arith, frame_shorter s payload rest e))
        (λ rest u l. read_frames-total f rest u l)

  -- The reader of a stream ends on every input: the fuel of the model is enough.
  pub parse_event_stream_usage-total : (s : Bytes) → parse_event_stream_usage decode s ≢ none
  unfolding parse_event_stream_usage
  parse_event_stream_usage-total s e =
      let t = read_frames-total (length s + 1) s no_totals (omega arith) in ground arith

  abbrev pub count_payloads : List Bytes → Totals → Totals
  count_payloads [] t = t
  count_payloads (p ∷ ps) t = count_payloads ps (count_payload decode p t)

  step :
      (f : ℕ) (s payload rest : Bytes) (t : Totals)
      → read_event_stream_frame s ≡ frame payload rest
      → read_frames decode (suc f) s t ≡ read_frames decode f rest (count_payload decode payload t)
  unfolding read_frames
  step f s payload rest t e = rw e

  read_frames-write_chunks :
      (crc : Bytes → ℕ) (f : ℕ) (ps : List Bytes) (t : Totals)
      → All (λ p. 16 + length (message_headers (codes "chunk")) + length p < 4294967296) ps
      → length (write_chunks crc ps) < f
      → read_frames decode f (write_chunks crc ps) t ≡ some (count_payloads ps t)
  read_frames-write_chunks crc zero ps t small h = elim h [ ]
  read_frames-write_chunks crc (suc f) [] t small h =
      unfold read_frames write_chunks read_event_stream_frame in refl
  read_frames-write_chunks crc (suc f) (p ∷ ps) t small h =
      let first = read-write_message crc (codes "chunk") p (write_chunks crc ps) small.0 in
      let shorter = frame_shorter _ p (write_chunks crc ps) first in
      rw (chunks_cons crc p ps) (step f _ p (write_chunks crc ps) t first)
      ∙ read_frames-write_chunks crc f ps (count_payload decode p t) small.1
          (omega (arith, shorter, ap length (chunks_cons crc p ps), h))

  -- A stream that the encoder wrote chunk by chunk is counted payload by payload, in order.
  pub parse-write_chunks :
      (crc : Bytes → ℕ) (ps : List Bytes)
      → All (λ p. 16 + length (message_headers (codes "chunk")) + length p < 4294967296) ps
      → parse_event_stream_usage decode (write_chunks crc ps)
        ≡ some (finish (count_payloads ps no_totals))
  unfolding parse_event_stream_usage
  parse-write_chunks crc ps small = rw (
      read_frames-write_chunks crc (length (write_chunks crc ps) + 1) ps no_totals small
        (omega arith))
