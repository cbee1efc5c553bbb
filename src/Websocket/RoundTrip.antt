-- ===== src/Websocket/RoundTrip.antt =====
-- A frame that _send_ws_frame writes is read back by _receive_ws_frame, transport/websocket.py.
use seigr_toolset_transmissi.Common.{
  ℕ, ◌+◌, ◌%◌, ◌≤◌, ◌<◌, ◌≡◌, refl, ap, ◌∙◌, [], ◌∷◌, ◌++◌, append_assoc, Bytes, Bool, true, false,
  not, Result, ok, >>=-eq-ok, raise_if, ltb, ◌==◌, if◌then◌else◌, length, bit_and, bit_or, arith,
}
use seigr_toolset_transmissi.Common.Bits.{top_bit, low_bits, top_bit_or, zero-bit_or, bit_xor_twice}
use seigr_toolset_transmissi.Websocket.{
  WsError, frame_too_large, Opcode, opcode_value, continuation, text, binary, close, ping, pong,
  Connection, apply_mask, mask_byte,
}
use seigr_toolset_transmissi.Websocket.Send.{mask_bit, length_bytes, body, note_ping, send_ws_frame}
use seigr_toolset_transmissi.Websocket.Receive.{
  opcode_of, extended_length, read_mask, unmask, counted_in, receive_behind,
}
use seigr_toolset_transmissi.Websocket.Lengths.{readexactly-prefix}

pub opcode_of-value :
    (op : Opcode) → opcode_of (bit_and (bit_or 0x80 (opcode_value op)) 0x0F) ≡ ok op
unfolding opcode_of
opcode_of-value continuation = refl
opcode_of-value text = refl
opcode_of-value binary = refl
opcode_of-value close = refl
opcode_of-value ping = refl
opcode_of-value pong = refl

pub second_byte :
    (on : Bool) (n : ℕ)
    → n < 128
    → (not (bit_and (bit_or (if on then 0x80 else 0x00) n) 0x80 == 0) ≡ on)
      × (bit_and (bit_or (if on then 0x80 else 0x00) n) 0x7F ≡ n)
second_byte true n h =
    let top : bit_and (n + 128) 0x80 ≡ 128 = omega (arith, top_bit (n + 128) (omega arith)) in
    rw (top_bit_or n h, top) (refl, omega (arith, low_bits (n + 128)))
second_byte false n h =
    let top : bit_and n 0x80 ≡ 0 = omega (arith, top_bit n (omega arith)) in
    rw (zero-bit_or n, top) (refl, omega (arith, low_bits n))

pub length-apply_mask :
    (mask : Bytes) (i : ℕ) (bs : Bytes) → length (apply_mask mask i bs) ≡ length bs
unfolding apply_mask
length-apply_mask mask i [] = refl
length-apply_mask mask i (b ∷ bs) = omega (arith, length-apply_mask mask (i + 1) bs)

-- The mask is its own inverse.
pub apply_mask_twice :
    (mask : Bytes) (i : ℕ) (bs : Bytes) → apply_mask mask i (apply_mask mask i bs) ≡ bs
unfolding apply_mask
apply_mask_twice mask i [] = refl
apply_mask_twice mask i (b ∷ bs) =
    rw (bit_xor_twice b (mask_byte mask (i % 4)), apply_mask_twice mask (i + 1) bs) refl

read_mask-body :
    (on : Bool) (mask payload rest : Bytes)
    → length mask ≡ 4
    → (key raw : Bytes) × (read_mask on (body on mask payload ++ rest) ≡ ok (key, raw ++ rest))
      × (length raw ≡ length payload)
      × (unmask on key raw ≡ payload)
unfolding read_mask
read_mask-body true mask payload rest h = (
  mask,
  apply_mask mask 0 payload,
  rw (append_assoc, readexactly-prefix 4 mask (apply_mask mask 0 payload ++ rest) h) refl,
  length-apply_mask mask 0 payload,
  apply_mask_twice mask 0 payload,
)
read_mask-body false mask payload rest h = ([], payload, refl, refl, refl)

note_ping-bytes_sent :
    (op : Opcode) (now : ℕ) (c : Connection) → (note_ping op now c).bytes_sent ≡ c.bytes_sent
note_ping-bytes_sent continuation now c = refl
note_ping-bytes_sent text now c = refl
note_ping-bytes_sent binary now c = refl
note_ping-bytes_sent close now c = refl
note_ping-bytes_sent ping now c = refl
note_ping-bytes_sent pong now c = refl

written_parts :
    (op : Opcode) (now : ℕ) (made frame : Bytes) (d c' : Connection)
    → ◌≡◌ {A = Result WsError (Bytes × Connection)} (ok (made, note_ping op now d)) (ok (frame, c'))
    → (frame ≡ made) × (c'.bytes_sent ≡ d.bytes_sent)
written_parts op now made frame d c' h =
    let first : frame ≡ made = cc h in
    let second : c' ≡ note_ping op now d = cc h in
    (first, ap (λ (x : Connection). x.bytes_sent) second ∙ note_ping-bytes_sent op now d)

-- What was sent: the header, the length, and the payload under the mask.
pub send_ws_frame-inv :
    (mask : Bytes) (now : ℕ) (op : Opcode) (payload frame : Bytes) (c c' : Connection)
    → send_ws_frame mask now op payload c ≡ ok (frame, c')
    → (size : Bytes) × (length_bytes (mask_bit c) (length payload) ≡ ok size)
      × (frame ≡ bit_or 0x80 (opcode_value op) ∷ (size ++ body c.is_client mask payload))
      × (c'.bytes_sent ≡ c.bytes_sent + length frame)
      × (length payload ≤ c.max_frame_size)
unfolding send_ws_frame
send_ws_frame-inv mask now op payload frame c c' h =
    let (_, passed, after) =
      >>=-eq-ok (raise_if (ltb c.max_frame_size (length payload)) frame_too_large) _ h in
    let (size, e, out) = >>=-eq-ok (length_bytes (mask_bit c) (length payload)) _ after in
    let (made, count) = written_parts op now _ frame _ c' out in
    (size, e, made, rw made count, ground (arith, passed))

pub receive_behind-body :
    (now first second : ℕ) (on : Bool) (mask payload extended rest : Bytes) (op : Opcode)
    (r : Connection)
    → length mask ≡ 4
    → length payload ≤ r.max_frame_size
    → opcode_of (bit_and first 0x0F) ≡ ok op
    → not (bit_and second 0x80 == 0) ≡ on
    → extended_length (bit_and second 0x7F) (extended ++ (body on mask payload ++ rest))
      ≡ ok (length payload, body on mask payload ++ rest)
    → receive_behind now first second (extended ++ (body on mask payload ++ rest)) r
      ≡ ok (record {
        opcode = op;
        payload = payload;
        stream = rest;
        connection = counted_in now op on (length payload) (length payload) r;
      })
unfolding receive_behind
receive_behind-body now first second on mask payload extended rest op r four fits known masked
      read =
    let (key, raw, keyed, size, plain) = read_mask-body on mask payload rest four in
    let allowed : ltb r.max_frame_size (length payload) ≡ false = ground arith in
    rw
      (
        known,
        masked,
        read,
        allowed,
        keyed,
        readexactly-prefix (length payload) raw rest size,
        plain,
      )
      refl
