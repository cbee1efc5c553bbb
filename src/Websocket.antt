-- ===== src/Websocket.antt =====
-- seigr_toolset_transmissions/transport/websocket.py, class WebSocketTransport, as far as one connection
-- goes: its frames, its state and its statistics. What is written goes to the result, what is read comes
-- from the argument `stream`; a mask is four random bytes handed in. Left out: the text of a close
-- reason, which is read with a lossy decoder, and the sockets.
pub mod Send
pub mod Receive
pub mod Loop
pub mod Lengths
pub mod RoundTrip
pub mod Arrival
pub mod Ends
pub mod Delivery
pub mod Closing
mod Examples
use seigr_toolset_transmissi.Common.{
  ℕ, zero, suc, ◌+◌, ◌%◌, [], ◌∷◌, Bytes, Bool, Option, none, some, bit_xor,
}

-- STTTransportError with its messages, and what the library calls raise: IncompleteReadError,
-- ValueError of an opcode, `struct.error`, and a frame that does not serialize.
pub data WsError : Type 0 where
  frame_too_large not_open ping_too_large incomplete_read bad_opcode struct_failure : WsError
  not_serializable server_mode : WsError

-- WebSocketOpcode
pub data Opcode : Type 0 where
  continuation text binary close ping pong : Opcode

abbrev pub opcode_value : Opcode → ℕ
opcode_value continuation = 0x0
opcode_value text = 0x1
opcode_value binary = 0x2
opcode_value close = 0x8
opcode_value ping = 0x9
opcode_value pong = 0xA

-- WebSocketState
pub data WsState : Type 0 where
  connecting is_open closing closed : WsState

pub record Connection : Type 0 where
  pub is_client : Bool
  pub state : WsState
  pub max_frame_size : ℕ
  pub close_code : Option ℕ
  pub last_ping_sent : Option ℕ
  pub last_pong_received : Option ℕ
  pub bytes_sent : ℕ
  pub bytes_received : ℕ
  pub frames_sent : ℕ
  pub frames_received : ℕ

-- mask[i]; a mask has four bytes.
abbrev pub mask_byte : Bytes → ℕ → ℕ
mask_byte [] i = 0
mask_byte (b ∷ bs) zero = b
mask_byte (b ∷ bs) (suc i) = mask_byte bs i

-- `payload[i] ^= mask[i % 4]` from index i on
unfoldable pub apply_mask : Bytes → ℕ → Bytes → Bytes
apply_mask mask i [] = []
apply_mask mask i (b ∷ bs) = bit_xor b (mask_byte mask (i % 4)) ∷ apply_mask mask (i + 1) bs
