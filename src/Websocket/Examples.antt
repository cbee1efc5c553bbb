-- ===== src/Websocket/Examples.antt =====
-- Runs of the websocket connection, and its theorems at concrete inputs.
use native.Mathlib.Decide.{dec_lt}
use seigr_toolset_transmissi.Common.{
  ℕ, ◌≡◌, refl, [], ◌∷◌, ◌++◌, Bytes, Bool, true, false, none, some, ok, map, ◌+◌, length, arith,
  leb, if◌then◌else◌,
}
use seigr_toolset_transmissi.Common.Int.{pos}
use seigr_toolset_transmissi.Common.Order.{lt_wf}
use seigr_toolset_transmissi.Struct.{pack_uint, be}
use seigr_toolset_transmissi.Varint.{encode_nat, encode_loop}
use seigr_toolset_transmissi.Frame.{Frame, post_init}
use seigr_toolset_transmissi.Frame.Wire.{to_bytes, from_bytes}
use seigr_toolset_transmissi.Frame.Wire.Body.{received}
use seigr_toolset_transmissi.Websocket.{binary, is_open, closed, Connection, apply_mask}
use seigr_toolset_transmissi.Websocket.Send.{
  send_ws_frame, length_bytes, send, send_frame, is_state_open,
}
use seigr_toolset_transmissi.Websocket.Receive.{
  readexactly, opcode_of, extended_length, read_mask, counted_in, Received, receive_behind,
  receive_ws_frame,
}
use seigr_toolset_transmissi.Websocket.Arrival.{
  receive_ws_frame-send, bytes_received-bytes_sent, receive_ws_frame-send_frame,
}
use seigr_toolset_transmissi.Websocket.Loop.{
  message, Setting, Run, client_receive_loop, receive_frames, close_payload, close_connection,
}
use seigr_toolset_transmissi.Websocket.Ends.{loops_end}
use seigr_toolset_transmissi.Serialization.Utf8.{encode}
use seigr_toolset_transmissi.Websocket.Closing.{receive_frames-close_connection}
use seigr_toolset_transmissi.Websocket.Delivery.{
  none_sent, then_sent, fit_nil, fit_cons, receive_frames-Sends,
}

-- An open connection with these counters.
abbrev opened : Bool → ℕ → ℕ → Connection
opened client bytes frames = record {
  is_client = client;
  state = is_open;
  max_frame_size = 1000;
  close_code = none;
  last_ping_sent = none;
  last_pong_received = none;
  bytes_sent = bytes;
  bytes_received = 0;
  frames_sent = frames;
  frames_received = 0;
}

abbrev four : Bytes
four = 1 ∷ 2 ∷ 3 ∷ 4 ∷ []

abbrev masked_frame : Bytes
masked_frame = 130 ∷ 130 ∷ 1 ∷ 2 ∷ 3 ∷ 4 ∷ 8 ∷ 5 ∷ []

sent_masked :
    send_ws_frame four 5 binary (9 ∷ 7 ∷ []) (opened true 0 0) ≡ ok (masked_frame, opened true 8 1)
unfolding send_ws_frame length_bytes apply_mask
sent_masked = refl

receive_ws_frame-send_example :
    receive_ws_frame 6 (masked_frame ++ (77 ∷ [])) (opened false 0 0)
    ≡ ok (record {
      opcode = binary;
      payload = 9 ∷ 7 ∷ [];
      stream = 77 ∷ [];
      connection = counted_in 6 binary true 2 2 (opened false 0 0);
    })
receive_ws_frame-send_example =
    receive_ws_frame-send four 5 6 binary (9 ∷ 7 ∷ []) masked_frame (77 ∷ []) (opened true 0 0)
      (opened true 8 1) (opened false 0 0) refl (omega arith) sent_masked

abbrev after_masked : Received
after_masked = record {
  opcode = binary;
  payload = 9 ∷ 7 ∷ [];
  stream = [];
  connection = counted_in 6 binary true 2 2 (opened false 0 0);
}

received_masked : receive_ws_frame 6 (masked_frame ++ []) (opened false 0 0) ≡ ok after_masked
unfolding receive_ws_frame receive_behind readexactly opcode_of extended_length read_mask apply_mask
received_masked = refl

bytes_received-bytes_sent_example :
    after_masked.connection.bytes_received + 0 ≡ 0 + 8 + (if leb 65536 2 then 2 else 0)
bytes_received-bytes_sent_example =
    bytes_received-bytes_sent four 5 6 binary (9 ∷ 7 ∷ []) masked_frame [] (opened true 0 0)
      (opened true 8 1) (opened false 0 0) after_masked refl (omega arith) sent_masked
      received_masked

abbrev sample : Frame
sample = record {
  frame_type = pos 2;
  session_id = 1 ∷ 2 ∷ 3 ∷ 4 ∷ 5 ∷ 6 ∷ 7 ∷ 8 ∷ [];
  sequence = pos 3;
  stream_id = pos 4;
  payload = 11 ∷ [];
  flags = pos 0;
  timestamp = pos 9;
  crypto_metadata = none;
  is_encrypted = false;
}

abbrev sample_wire : Bytes
sample_wire =
    130 ∷ 35 ∷ 0x53 ∷ 0x54 ∷ 32 ∷ 2 ∷ 0 ∷ 1 ∷ 2 ∷ 3 ∷ 4 ∷ 5 ∷ 6 ∷ 7 ∷ 8 ∷ 0 ∷ 0 ∷ 0 ∷ 0 ∷ 0 ∷ 0 ∷ 0
    ∷ 3 ∷ 0 ∷ 0 ∷ 0 ∷ 0 ∷ 0 ∷ 0 ∷ 0 ∷ 9 ∷ 0 ∷ 0 ∷ 0 ∷ 4 ∷ 0 ∷ 11 ∷ []

sample_valid : post_init sample ≡ ok sample
unfolding post_init
sample_valid = refl

sample_sent : send_frame four 5 sample (opened false 0 0) ≡ ok (sample_wire, opened false 37 1)
unfolding send_frame send_ws_frame length_bytes to_bytes pack_uint be encode_nat encode_loop lt_wf
    dec_lt
sample_sent = refl

receive_ws_frame-send_frame_example :
    (d : Received) × (receive_ws_frame 6 (sample_wire ++ []) (opened true 0 0) ≡ ok d)
    × (d.opcode ≡ binary)
    × (d.stream ≡ [])
    × (from_bytes d.payload false none ≡ ok (received sample, length d.payload))
receive_ws_frame-send_frame_example =
    receive_ws_frame-send_frame four 5 6 sample sample_wire [] none (opened false 0 0)
      (opened false 37 1) (opened true 0 0) refl (omega arith) sample_valid sample_sent

abbrev setting : Setting
setting = record { message_handler = true; on_frame_received = false; mask = four; now = 6 }

first_sent : send four 1 (5 ∷ []) (opened false 0 0) ≡ ok (130 ∷ 1 ∷ 5 ∷ [], opened false 3 1)
unfolding send send_ws_frame length_bytes
first_sent = refl

second_sent :
    send four 2 (6 ∷ 7 ∷ []) (opened false 3 1) ≡ ok (130 ∷ 2 ∷ 6 ∷ 7 ∷ [], opened false 7 2)
unfolding send send_ws_frame length_bytes
second_sent = refl

receive_frames-Sends_example :
    (run : Run) × (receive_frames setting (130 ∷ 1 ∷ 5 ∷ 130 ∷ 2 ∷ 6 ∷ 7 ∷ []) (opened true 0 0)
      ≡ ok run)
    × (run.events ≡ map message ((5 ∷ []) ∷ (6 ∷ 7 ∷ []) ∷ []))
    × (run.connection.state ≡ closed)
receive_frames-Sends_example =
    receive_frames-Sends setting ((5 ∷ []) ∷ (6 ∷ 7 ∷ []) ∷ []) (opened false 0 0) (opened true 0 0)
      (130 ∷ 1 ∷ 5 ∷ 130 ∷ 2 ∷ 6 ∷ 7 ∷ []) refl refl refl refl
      (fit_cons (omega arith) (fit_cons (omega arith) fit_nil))
      (then_sent four 1 (130 ∷ 1 ∷ 5 ∷ []) _ _ refl first_sent
        (then_sent four 2 (130 ∷ 2 ∷ 6 ∷ 7 ∷ []) _ _ refl second_sent none_sent))

loops_end_example :
    ((run : Run) × (receive_frames setting (130 ∷ 1 ∷ 5 ∷ []) (opened true 0 0) ≡ ok run)
      × (is_state_open run.connection.state ≡ false))
    × (is_state_open
          (client_receive_loop setting (130 ∷ 1 ∷ 5 ∷ []) (opened false 0 0)).connection.state
        ≡ false)
loops_end_example = loops_end setting (130 ∷ 1 ∷ 5 ∷ []) (opened true 0 0) (opened false 0 0) refl

abbrev going_away : Bytes
going_away = 3 ∷ 233 ∷ 98 ∷ 121 ∷ 101 ∷ []

going_away_made : close_payload 1001 (98 ∷ 121 ∷ 101 ∷ []) ≡ some going_away
unfolding close_payload pack_uint be encode
going_away_made = refl

receive_frames-close_connection_example :
    ((close_connection setting 1001 (98 ∷ 121 ∷ 101 ∷ []) (opened false 0 0)).connection.state
      ≡ closed)
    × (run : Run) × (receive_frames setting
          ((close_connection setting 1001 (98 ∷ 121 ∷ 101 ∷ []) (opened false 0 0)).output)
          (opened true 0 0)
        ≡ ok run)
    × (run.connection.state ≡ closed)
    × (run.connection.close_code ≡ some 1001)
receive_frames-close_connection_example =
    receive_frames-close_connection setting setting 1001 (98 ∷ 121 ∷ 101 ∷ []) going_away
      (opened false 0 0) (opened true 0 0) refl refl refl refl going_away_made (omega arith)
      (omega arith) (omega arith)
