-- ===== src/Websocket/Receive.antt =====
-- Receiving: _receive_ws_frame in transport/websocket.py.
use seigr_toolset_transmissi.Common.{
  ℕ, ◌+◌, ◌≡◌, [], Bytes, Bool, true, false, not, some, Result, ok, err, ◌>>=◌, ◌>>◌, raise_if,
  rethrow, ltb, leb, ◌==◌, if◌then◌else◌, length, take, drop, bit_and,
}
use seigr_toolset_transmissi.Common.Int.{pos_part}
use seigr_toolset_transmissi.Struct.{unpack_uint}
use seigr_toolset_transmissi.Websocket.{
  WsError, frame_too_large, incomplete_read, bad_opcode, struct_failure, Opcode, continuation, text,
  binary, close, ping, pong, Connection, apply_mask, mask_byte,
}

-- `reader.readexactly(n)`: the bytes, and what is left in the stream.
unfoldable pub readexactly : ℕ → Bytes → Result WsError (Bytes × Bytes)
readexactly n stream =
    if ltb (length stream) n then err incomplete_read else ok (take n stream, drop n stream)

-- `WebSocketOpcode(value)`
unfoldable pub opcode_of : ℕ → Result WsError Opcode
opcode_of value =
    if value == 0x0
    then ok continuation
    else if value == 0x1
    then ok text
    else if value == 0x2
    then ok binary
    else if value == 0x8
    then ok close
    else if value == 0x9
    then ok ping
    else if value == 0xA
    then ok pong
    else err bad_opcode

abbrev pub read_length : ℕ → Bytes → Result WsError (ℕ × Bytes)
read_length width stream = do
  (raw, rest) ← readexactly width stream
  value ← rethrow (λ _. struct_failure) (unpack_uint width raw)
  ok (pos_part value, rest)

unfoldable pub extended_length : ℕ → Bytes → Result WsError (ℕ × Bytes)
extended_length payload_len stream =
    if payload_len == 126
    then read_length 2 stream
    else if payload_len == 127
    then read_length 8 stream
    else ok (payload_len, stream)

unfoldable pub read_mask : Bool → Bytes → Result WsError (Bytes × Bytes)
read_mask true stream = readexactly 4 stream
read_mask false stream = ok ([], stream)

abbrev pub unmask : Bool → Bytes → Bytes → Bytes
unmask true mask payload = apply_mask mask 0 payload
unmask false mask payload = payload

-- What the statistics add for a frame.
abbrev pub counted_size : Bool → ℕ → ℕ → ℕ
counted_size masked payload_len size =
    2
    + (if leb 126 payload_len then 2 else 0)
    + (if leb 65536 payload_len then 8 else 0)
    + (if masked then 4 else 0)
    + size

abbrev pub note_pong : Opcode → ℕ → Connection → Connection
note_pong pong now c = record c { last_pong_received = some now }
note_pong _ now c = c

-- The statistics and the time of a pong, for a frame that was read.
abbrev pub counted_in : ℕ → Opcode → Bool → ℕ → ℕ → Connection → Connection
counted_in now opcode masked payload_len size c = note_pong opcode now (record c {
  bytes_received = c.bytes_received + counted_size masked payload_len size;
  frames_received = c.frames_received + 1;
})

-- A frame that was read, what the stream holds behind it, and the connection.
pub record Received : Type 0 where
  pub opcode : Opcode
  pub payload : Bytes
  pub stream : Bytes
  pub connection : Connection

-- `_receive_ws_frame` behind the two header bytes
unfoldable pub receive_behind : ℕ → ℕ → ℕ → Bytes → Connection → Result WsError Received
receive_behind now first second stream c = do
  opcode ← opcode_of (bit_and first 0x0F)
  let masked = not (bit_and second 0x80 == 0)
  (payload_len, after_length) ← extended_length (bit_and second 0x7F) stream
  raise_if (ltb c.max_frame_size payload_len) frame_too_large
  (mask, after_mask) ← read_mask masked after_length
  (raw, rest) ← readexactly payload_len after_mask
  let payload = unmask masked mask raw
  ok (record {
    opcode = opcode;
    payload = payload;
    stream = rest;
    connection = counted_in now opcode masked payload_len (length payload) c;
  })

-- `_receive_ws_frame`
unfoldable pub receive_ws_frame : ℕ → Bytes → Connection → Result WsError Received
receive_ws_frame now stream c = do
  (header, rest) ← readexactly 2 stream
  receive_behind now (mask_byte header 0) (mask_byte header 1) rest c

pub same_result : (a b : Received) → ◌≡◌ {A = Result WsError Received} (ok a) (ok b) → a ≡ b
same_result a b h = cc h
