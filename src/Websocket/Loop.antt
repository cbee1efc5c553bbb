-- ===== src/Websocket/Loop.antt =====
-- The receive loops of a client, receive_frames, and of a server, _client_receive_loop, and close,
-- transport/websocket.py. The handlers that are called are events; they do not raise. The stream ends with its last byte.
use seigr_toolset_transmissi.Common.{
  ℕ, zero, suc, List, [], ◌∷◌, ◌++◌, Bytes, Bool, true, false, Option, none, some, Result, ok, err,
  ltb, if◌then◌else◌, length, take,
}
use seigr_toolset_transmissi.Common.Int.{pos}
use seigr_toolset_transmissi.Struct.{from_be, pack_uint}
use seigr_toolset_transmissi.Serialization.{Text}
use seigr_toolset_transmissi.Serialization.Utf8.{encode, decode}
use seigr_toolset_transmissi.Frame.{Frame}
use seigr_toolset_transmissi.Frame.Wire.{from_bytes}
use seigr_toolset_transmissi.Websocket.{
  WsError, server_mode, Opcode, continuation, text, binary, close, ping, pong, is_open, closing,
  closed, Connection,
}
use seigr_toolset_transmissi.Websocket.Send.{send_ws_frame, is_state_open}
use seigr_toolset_transmissi.Websocket.Receive.{receive_ws_frame}

-- A call of message_handler, or of on_frame_received, which is given all that from_bytes returns: the
-- frame with the number of bytes that it took.
pub data Event : Type 0 where
  message : Bytes → Event
  stt_frame : Frame × ℕ → Event

-- Which callbacks are set; the masks and the time of the frames that are sent.
pub record Setting : Type 0 where
  pub message_handler : Bool
  pub on_frame_received : Bool
  pub mask : Bytes
  pub now : ℕ

-- What a part of a run has written and called, and the connection behind it.
pub record Run : Type 0 where
  pub output : Bytes
  pub events : List Event
  pub connection : Connection

abbrev pub quiet : Connection → Run
quiet c = record { output = []; events = []; connection = c }

-- `except Exception: self.state = CLOSED`
abbrev pub failed : Connection → Run
failed c = quiet (record c { state = closed })

-- A frame written in the loop; what it raises ends the loop.
abbrev pub reply : Setting → Opcode → Bytes → Connection → Run
reply s opcode payload c = elim (send_ws_frame s.mask s.now opcode payload c) [
  | ok sent ↦ record { output = sent.0; events = []; connection = sent.1 }
  | err e ↦ failed c
]

-- `STTFrame.from_bytes(payload)`; what is no frame is passed over.
abbrev pub parsed : Bytes → List Event
parsed payload = elim (from_bytes payload false none) [ ok read ↦ stt_frame read ∷ [] | err e ↦ [] ]

abbrev pub messages : Setting → Bytes → List Event
messages s payload = if s.message_handler then message payload ∷ [] else []

abbrev pub take_code : Bytes → Connection → Connection
take_code payload c =
    if ltb (length payload) 2
    then c
    else record c { close_code = some (from_be 0 (take 2 payload)) }

abbrev pub closed_by : Run → Run
closed_by run = record run { connection = record run.connection { state = closed } }

abbrev pub answer_close : Setting → Bytes → Connection → Run
answer_close s payload c = elim c.state [
  | closing ↦ failed c
  | _ ↦ closed_by (reply s close payload c)
]

-- The body of the loop for a frame that was read.
unfoldable pub handle : Setting → Opcode → Bytes → Connection → Run
handle s binary payload c = record {
  output = [];
  events = messages s payload ++ (if s.on_frame_received then parsed payload else []);
  connection = c;
}
handle s text payload c = record { output = []; events = messages s payload; connection = c }
handle s ping payload c = reply s pong payload c
handle s pong payload c = quiet c
handle s close payload c = answer_close s payload (take_code payload c)
handle s continuation payload c = quiet c

abbrev pub prepend : Run → Run → Run
prepend first rest = record {
  output = first.output ++ rest.output;
  events = first.events ++ rest.events;
  connection = rest.connection;
}

-- `while self.state == OPEN`, with the body for a frame that was read
unfoldable pub receive_loop : (Opcode → Bytes → Connection → Run) → ℕ → ℕ → Bytes → Connection → Run
receive_loop body now zero stream c = quiet c
receive_loop body now (suc fuel) stream c = elim (is_state_open c.state) [
  | false ↦ quiet c
  | true ↦ elim (receive_ws_frame now stream c) [
    | err e ↦ failed c
    | ok d ↦
        let step = body d.opcode d.payload d.connection in
        prepend step (receive_loop body now fuel d.stream step.connection)
  ]
]

-- `receive_frames`; a frame has two bytes at least, so the fuel lasts for the stream.
unfoldable pub receive_frames : Setting → Bytes → Connection → Result WsError Run
receive_frames s stream c =
    if c.is_client
    then ok (receive_loop (handle s) s.now (suc (length stream)) stream c)
    else err server_mode

-- The body of the loop that a server runs for one of its clients, _client_receive_loop: a text that is
-- no UTF-8 ends the loop, where there is a message handler.
abbrev pub text_messages : Bool → Bytes → Option Text → Connection → Run
text_messages false payload decoded c = quiet c
text_messages true payload none c = failed c
text_messages true payload (some t) c = record {
  output = [];
  events = message payload ∷ [];
  connection = c;
}

unfoldable pub serve : Setting → Opcode → Bytes → Connection → Run
serve s binary payload c = record {
  output = [];
  events = messages s payload ++ (if s.on_frame_received then parsed payload else []);
  connection = c;
}
serve s text payload c = text_messages s.message_handler payload (decode payload) c
serve s ping payload c = reply s pong payload c
serve s pong payload c = quiet c
serve s close payload c = closed_by (reply s close payload c)
serve s continuation payload c = quiet c

-- `_client_receive_loop`
unfoldable pub client_receive_loop : Setting → Bytes → Connection → Run
client_receive_loop s stream c = receive_loop (serve s) s.now (suc (length stream)) stream c

-- `struct.pack("!H", code)` and the reason behind it
unfoldable pub close_payload : ℕ → Text → Option Bytes
close_payload code reason = elim (pack_uint 2 (pos code)) [
  | err e ↦ none
  | ok bs ↦ elim (encode reason) [ none ↦ none | some text_bytes ↦ some (bs ++ text_bytes) ]
]

-- The close frame that is sent; what it raises is passed over.
abbrev pub say_close : Setting → ℕ → Text → Connection → Run
say_close s code reason c = elim (close_payload code reason) [
  | none ↦ quiet c
  | some payload ↦ reply s close payload c
]

-- `close`, of a connection with a writer
unfoldable pub close_connection : Setting → ℕ → Text → Connection → Run
close_connection s code reason c = elim c.state [
  | closed ↦ quiet c
  | is_open ↦ closed_by (say_close s code reason (record c { state = closing }))
  | _ ↦ failed c
]
