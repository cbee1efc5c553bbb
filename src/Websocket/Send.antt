-- ===== src/Websocket/Send.antt =====
-- Sending: _send_ws_frame and its callers in transport/websocket.py.
use seigr_toolset_transmissi.Common.{
  ℕ, ◌+◌, [], ◌∷◌, ◌++◌, Bytes, Bool, true, false, not, some, Result, ok, ◌>>=◌, ◌>>◌, raise_if,
  rethrow, ltb, if◌then◌else◌, length, bit_or,
}
use seigr_toolset_transmissi.Common.Int.{pos}
use seigr_toolset_transmissi.Struct.{StructError, pack_uint}
use seigr_toolset_transmissi.Frame.{Frame}
use seigr_toolset_transmissi.Frame.Wire.{to_bytes}
use seigr_toolset_transmissi.Websocket.{
  WsError, frame_too_large, not_open, ping_too_large, struct_failure, not_serializable, Opcode,
  opcode_value, binary, ping, pong, WsState, is_open, Connection, apply_mask,
}

abbrev pub packed : Result StructError Bytes → Result WsError Bytes
packed r = rethrow (λ _. struct_failure) r

abbrev pub mask_bit : Connection → ℕ
mask_bit c = if c.is_client then 0x80 else 0x00

-- The header's second byte and the extended length.
unfoldable pub length_bytes : ℕ → ℕ → Result WsError Bytes
length_bytes bit size =
    if ltb size 126
    then ok (bit_or bit size ∷ [])
    else if ltb size 65536
    then (packed (pack_uint 2 (pos size)) >>= λ bs. ok (bit_or bit 126 ∷ bs))
    else (packed (pack_uint 8 (pos size)) >>= λ bs. ok (bit_or bit 127 ∷ bs))

-- The mask with the masked payload, or the payload as it is.
abbrev pub body : Bool → Bytes → Bytes → Bytes
body true mask payload = mask ++ apply_mask mask 0 payload
body false mask payload = payload

abbrev pub note_ping : Opcode → ℕ → Connection → Connection
note_ping ping now c = record c { last_ping_sent = some now }
note_ping _ now c = c

-- `_send_ws_frame`, with the bytes that it writes
unfoldable pub send_ws_frame :
    Bytes → ℕ → Opcode → Bytes → Connection → Result WsError (Bytes × Connection)
send_ws_frame mask now opcode payload c = do
  raise_if (ltb c.max_frame_size (length payload)) frame_too_large
  size ← length_bytes (mask_bit c) (length payload)
  let frame_data = bit_or 0x80 (opcode_value opcode) ∷ (size ++ body c.is_client mask payload)
  ok (
    frame_data,
    note_ping opcode now (record c {
      bytes_sent = c.bytes_sent + length frame_data;
      frames_sent = c.frames_sent + 1;
    }),
  )

abbrev pub is_state_open : WsState → Bool
is_state_open is_open = true
is_state_open _ = false

-- `send`
unfoldable pub send : Bytes → ℕ → Bytes → Connection → Result WsError (Bytes × Connection)
send mask now bytes c = do
  raise_if (not (is_state_open c.state)) not_open
  send_ws_frame mask now binary bytes c

-- `send_frame`
unfoldable pub send_frame : Bytes → ℕ → Frame → Connection → Result WsError (Bytes × Connection)
send_frame mask now frame c = do
  raise_if (not (is_state_open c.state)) not_open
  frame_bytes ← rethrow (λ _. not_serializable) (to_bytes frame)
  send_ws_frame mask now binary frame_bytes c

-- `ping` and `pong`
unfoldable pub send_ping : Bytes → ℕ → Bytes → Connection → Result WsError (Bytes × Connection)
send_ping mask now payload c = do
  raise_if (ltb 125 (length payload)) ping_too_large
  send_ws_frame mask now ping payload c

unfoldable pub send_pong : Bytes → ℕ → Bytes → Connection → Result WsError (Bytes × Connection)
send_pong mask now payload c = do
  raise_if (ltb 125 (length payload)) ping_too_large
  send_ws_frame mask now pong payload c
