-- ===== src/Websocket/Arrival.antt =====
-- What one end of a websocket sends, the other receives: _send_ws_frame and send_frame against
-- _receive_ws_frame, transport/websocket.py, and STTFrame.from_bytes, frame/frame.py.
use seigr_toolset_transmissi.Common.{
  ℕ, ◌+◌, ◌≤◌, ◌≡◌, refl, sym, ap, ◌∙◌, [], ◌∷◌, ◌++◌, append_assoc, append-nil, Bytes, Bool, true,
  false, not, Option, Result, ok, err, >>=-eq-ok, raise_if, rethrow, leb, if◌then◌else◌, length,
  length-append, bit_or, arith,
}
use seigr_toolset_transmissi.Stc.{Stc}
use seigr_toolset_transmissi.Frame.{Frame, FrameError, post_init}
use seigr_toolset_transmissi.Frame.Wire.{to_bytes, from_bytes}
use seigr_toolset_transmissi.Frame.Wire.Body.{received}
use seigr_toolset_transmissi.Frame.Wire.RoundTrip.{from_bytes-to_bytes}
use seigr_toolset_transmissi.Websocket.{
  not_open, not_serializable, Opcode, opcode_value, continuation, text, binary, close, ping, pong,
  Connection, apply_mask,
}
use seigr_toolset_transmissi.Websocket.Send.{
  mask_bit, body, send_ws_frame, is_state_open, send_frame,
}
use seigr_toolset_transmissi.Websocket.Receive.{
  counted_in, counted_size, note_pong, Received, same_result, receive_ws_frame,
}
use seigr_toolset_transmissi.Websocket.Lengths.{length_bytes-Sized, readexactly-prefix}
use seigr_toolset_transmissi.Websocket.RoundTrip.{
  opcode_of-value, second_byte, receive_behind-body, send_ws_frame-inv, length-apply_mask,
}

header_split :
    (frame size extension behind rest : Bytes) (first second : ℕ)
    → frame ≡ first ∷ (size ++ behind)
    → size ≡ second ∷ extension
    → frame ++ rest ≡ (first ∷ second ∷ []) ++ (extension ++ (behind ++ rest))
header_split frame size extension behind rest first second made written =
    rw (made, written) (ap (λ t. first ∷ second ∷ t) (append_assoc extension behind rest))

-- A frame that one end sent with a mask of four bytes is read by the other end, if the payload is not
-- over its limit, whatever follows on the stream: opcode and payload are those that were sent, the rest
-- of the stream is untouched, and the statistics have counted the frame.
pub receive_ws_frame-send :
    (mask : Bytes) (now later : ℕ) (op : Opcode) (payload frame rest : Bytes) (c c' r : Connection)
    → length mask ≡ 4
    → length payload ≤ r.max_frame_size
    → send_ws_frame mask now op payload c ≡ ok (frame, c')
    → receive_ws_frame later (frame ++ rest) r
      ≡ ok (record {
        opcode = op;
        payload = payload;
        stream = rest;
        connection = counted_in later op c.is_client (length payload) (length payload) r;
      })
unfolding receive_ws_frame
receive_ws_frame-send mask now later op payload frame rest c c' r four fits sent =
    let (size, sized, made, _, _) = send_ws_frame-inv mask now op payload frame c c' sent in
    let z = length_bytes-Sized (mask_bit c) (length payload) size sized in
    let (masked, low) = second_byte c.is_client z.second z.below in
    let first = bit_or 0x80 (opcode_value op) in
    let second = bit_or (mask_bit c) z.second in
    let behind = body c.is_client mask payload ++ rest in
    let split =
      header_split frame size z.extension (body c.is_client mask payload) rest first second made
        z.written in
    rw (split, readexactly-prefix 2 (first ∷ second ∷ []) (z.extension ++ behind) refl)
      (receive_behind-body later first second c.is_client mask payload z.extension rest op r four
        fits (opcode_of-value op) masked (rw low (z.read behind)))

length-body :
    (on : Bool) (mask payload : Bytes)
    → length mask ≡ 4
    → length (body on mask payload) ≡ (if on then 4 else 0) + length payload
length-body true mask payload four =
    omega (
      arith,
      length-append mask (apply_mask mask 0 payload),
      length-apply_mask mask 0 payload,
      four,
    )
length-body false mask payload four = omega arith

length-frame :
    (mask : Bytes) (now : ℕ) (op : Opcode) (payload frame : Bytes) (c c' : Connection)
    → length mask ≡ 4
    → send_ws_frame mask now op payload c ≡ ok (frame, c')
    → length frame + (if leb 65536 (length payload) then 2 else 0)
      ≡ counted_size c.is_client (length payload) (length payload)
length-frame mask now op payload frame c c' four sent =
    let (size, sized, made, _, _) = send_ws_frame-inv mask now op payload frame c c' sent in
    let z = length_bytes-Sized (mask_bit c) (length payload) size sized in
    let total : length frame ≡ 2 + length z.extension + length (body c.is_client mask payload) =
      rw (made, z.written)
        (omega (arith, length-append z.extension (body c.is_client mask payload))) in
    rw (total, length-body c.is_client mask payload four, z.wide) (ground arith)

note_pong-bytes_received :
    (op : Opcode) (now : ℕ) (c : Connection)
    → (note_pong op now c).bytes_received ≡ c.bytes_received
note_pong-bytes_received continuation now c = refl
note_pong-bytes_received text now c = refl
note_pong-bytes_received binary now c = refl
note_pong-bytes_received close now c = refl
note_pong-bytes_received ping now c = refl
note_pong-bytes_received pong now c = refl

-- For a frame that one end sent with a mask of four bytes, what the receiver adds to its received bytes
-- is what the sender added to its sent bytes, and two more if the payload has 65536 bytes or more.
pub bytes_received-bytes_sent :
    (mask : Bytes) (now later : ℕ) (op : Opcode) (payload frame rest : Bytes) (c c' r : Connection)
    (d : Received)
    → length mask ≡ 4
    → length payload ≤ r.max_frame_size
    → send_ws_frame mask now op payload c ≡ ok (frame, c')
    → receive_ws_frame later (frame ++ rest) r ≡ ok d
    → d.connection.bytes_received + c.bytes_sent
      ≡ r.bytes_received + c'.bytes_sent + (if leb 65536 (length payload) then 2 else 0)
bytes_received-bytes_sent mask now later op payload frame rest c c' r d four fits sent got =
    let (size, sized, made, count, _) = send_ws_frame-inv mask now op payload frame c c' sent in
    let wire = length-frame mask now op payload frame c c' four sent in
    let arrived =
      receive_ws_frame-send mask now later op payload frame rest c c' r four fits sent in
    let same = same_result d _ (sym got ∙ arrived) in
    let counted =
      ap (λ (x : Received). x.connection.bytes_received) same
      ∙ note_pong-bytes_received op later _ in
    omega (arith, counted, wire, count)

rethrow-inv :
    (r : Result FrameError Bytes) (bs : Bytes)
    → rethrow (λ _. not_serializable) r ≡ ok bs
    → r ≡ ok bs
rethrow-inv (ok a) bs h = cc h
rethrow-inv (err e) bs h = cc h

from_bytes-whole :
    (f : Frame) (bs : Bytes) (wrapper : Option Stc)
    → post_init f ≡ ok f
    → to_bytes f ≡ ok bs
    → from_bytes bs false wrapper ≡ ok (received f, length bs)
from_bytes-whole f bs wrapper valid sent =
    let got = from_bytes-to_bytes f bs [] wrapper valid sent in rw (append-nil bs) at got

-- An STT frame that one end sends over an open websocket with a mask of four bytes reaches the other
-- end, if that allows frames as large: what is received is one binary frame whose payload is all read
-- by from_bytes, as the frame that was sent but for two fields: it is marked as encrypted exactly if its
-- metadata are there and not empty, and empty metadata arrive as none.
pub receive_ws_frame-send_frame :
    (mask : Bytes) (now later : ℕ) (f : Frame) (frame rest : Bytes) (wrapper : Option Stc)
    (c c' r : Connection)
    → length mask ≡ 4
    → c.max_frame_size ≤ r.max_frame_size
    → post_init f ≡ ok f
    → send_frame mask now f c ≡ ok (frame, c')
    → (d : Received) × (receive_ws_frame later (frame ++ rest) r ≡ ok d)
      × (d.opcode ≡ binary)
      × (d.stream ≡ rest)
      × (from_bytes d.payload false wrapper ≡ ok (received f, length d.payload))
unfolding send_frame
receive_ws_frame-send_frame mask now later f frame rest wrapper c c' r four limits valid sent =
    let (_, _, after) = >>=-eq-ok (raise_if (not (is_state_open c.state)) not_open) _ sent in
    let (bs, e, out) = >>=-eq-ok (rethrow (λ _. not_serializable) (to_bytes f)) _ after in
    let (_, _, _, _, fits) = send_ws_frame-inv mask now binary bs frame c c' out in
    let got =
      receive_ws_frame-send mask now later binary bs frame rest c c' r four
        (omega (arith, limits, fits)) out in
    (_, got, refl, refl, from_bytes-whole f bs wrapper valid (rethrow-inv (to_bytes f) bs e))
