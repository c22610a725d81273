-- ===== src/Fakeapi/EventStream.antt =====
-- fakeapi/eventstream.go: the encoder of AWS event streams. `crc` is `crc32.ChecksumIEEE`. A name of
-- more than 255 bytes, at which `appendHeader` panics, is not among the three names written.
use runclaude.Prelude.{ℕ, ◌+◌, ◌%◌, List, [], ◌∷◌, ◌++◌, length}
use runclaude.Bits.{put_uint16, put_uint32}
use runclaude.Text.{Bytes, codes}

-- `appendHeader(buf, name, value)`: what it appends
unfoldable pub append_header : Bytes → Bytes → Bytes
append_header name value =
    length name % 256 ∷ (name ++ (7 ∷ (put_uint16 (length value % 65536) ++ value)))

-- the three headers of `writeMessage`
unfoldable pub message_headers : Bytes → Bytes
unfolding append_header
message_headers event_type =
    append_header (codes ":event-type") event_type
    ++ (append_header (codes ":content-type") (codes "application/json")
        ++ append_header (codes ":message-type") (codes "event"))

module _ (crc : Bytes → ℕ) where
  -- a message of given headers: `totalLen`, `hdrLen` and `preludeCRC`, the headers, the payload, and
  -- the checksum of all that stands before it
  unfoldable pub seal : Bytes → Bytes → Bytes
  seal hdr payload =
      let prelude =
        put_uint32 ((16 + length hdr + length payload) % 4294967296)
        ++ put_uint32 (length hdr % 4294967296) in
      let msg = prelude ++ (put_uint32 (crc prelude) ++ (hdr ++ payload)) in
      msg ++ put_uint32 (crc msg)

  -- `writeMessage(eventType, payload)`: the bytes written
  unfoldable pub write_message : Bytes → Bytes → Bytes
  unfolding seal message_headers
  write_message event_type payload = seal (message_headers event_type) payload

  -- `send("chunk", …)` for each payload in turn
  unfoldable pub write_chunks : List Bytes → Bytes
  unfolding write_message
  write_chunks [] = []
  write_chunks (p ∷ ps) = write_message (codes "chunk") p ++ write_chunks ps
