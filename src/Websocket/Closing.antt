-- ===== src/Websocket/Closing.antt =====
-- A close that one end sends is taken and answered by the other, transport/websocket.py.
use seigr_toolset_transmissi.Common.{
  ℕ, zero, suc, ◌≤◌, ◌≡◌, refl, ap, [], ◌++◌, append-nil, Bytes, Bool, true, false, Option-cases,
  Result-cases, inl, inr, some, Result, ok, >>=-eq-ok, raise_if, length, length-append, take,
  take_prefix, ltb, arith,
}
use seigr_toolset_transmissi.Common.Int.{pos}
use seigr_toolset_transmissi.Struct.{pack_uint, unpack_uint, from_be}
use seigr_toolset_transmissi.Struct.Laws.{unpack_uint-pack}
use seigr_toolset_transmissi.Serialization.{Text}
use seigr_toolset_transmissi.Serialization.Utf8.{encode}
use seigr_toolset_transmissi.Websocket.{
  WsError, frame_too_large, Opcode, close, is_open, closing, closed, Connection,
}
use seigr_toolset_transmissi.Websocket.Send.{mask_bit, length_bytes, send_ws_frame, is_state_open}
use seigr_toolset_transmissi.Websocket.Receive.{counted_in, receive_ws_frame}
use seigr_toolset_transmissi.Websocket.Arrival.{receive_ws_frame-send}
use seigr_toolset_transmissi.Websocket.Loop.{
  Setting, Run, quiet, handle, take_code, closed_by, reply, receive_loop, receive_frames, say_close,
  close_payload, close_connection,
}

close_payload-inv :
    (code : ℕ) (reason : Text) (payload : Bytes)
    → close_payload code reason ≡ some payload
    → (head : Bytes) × (rest : Bytes) × (pack_uint 2 (pos code) ≡ ok head)
      × (payload ≡ head ++ rest)
unfolding close_payload
close_payload-inv code reason payload h = elim (Result-cases (pack_uint 2 (pos code))) [
  | inr failing ↦ absurd (cc (rw (close_payload, failing.1) at h))
  | inl packed ↦ elim (Option-cases (encode reason)) [
    | inl missing ↦ absurd (cc (rw (close_payload, packed.1, missing) at h))
    | inr there ↦ (packed.0, there.0, packed.1, cc (rw (close_payload, packed.1, there.1) at h))
  ]
]

unpack_uint-inv : (width v : ℕ) (bs : Bytes) → unpack_uint width bs ≡ ok (pos v) → from_be 0 bs ≡ v
unfolding unpack_uint
unpack_uint-inv width v bs h = ground arith

-- The close code at the front of the payload.
close_payload-code :
    (code : ℕ) (reason : Text) (payload : Bytes)
    → close_payload code reason ≡ some payload
    → (from_be 0 (take 2 payload) ≡ code) × (2 ≤ length payload)
close_payload-code code reason payload h =
    let (head, rest, packed, made) = close_payload-inv code reason payload h in
    let (back, two) = unpack_uint-pack 2 (pos code) head packed in
    rw (made, take_prefix 2 head rest two)
      (unpack_uint-inv 2 code head back, omega (arith, length-append head rest, two))

take_code-long :
    (payload : Bytes) (c : Connection)
    → 2 ≤ length payload
    → take_code payload c ≡ record c { close_code = some (from_be 0 (take 2 payload)) }
take_code-long payload c h = ground arith

same_sent :
    (a b : Bytes) (c d : Connection)
    → ◌≡◌ {A = Result WsError (Bytes × Connection)} (ok (a, c)) (ok (b, d))
    → d ≡ c
same_sent a b c d h = cc h

sent_close :
    (mask : Bytes) (now : ℕ) (payload frame : Bytes) (c c' : Connection)
    → send_ws_frame mask now close payload c ≡ ok (frame, c')
    → c'.close_code ≡ c.close_code
unfolding send_ws_frame
sent_close mask now payload frame c c' h =
    let (_, _, after) =
      >>=-eq-ok (raise_if (ltb c.max_frame_size (length payload)) frame_too_large) _ h in
    let (size, _, out) = >>=-eq-ok (length_bytes (mask_bit c) (length payload)) _ after in
    ap (λ (x : Connection). x.close_code) (same_sent _ frame _ c' out)

-- Whether the reply can be sent or not.
closed_by-reply :
    (s : Setting) (payload : Bytes) (c : Connection)
    → ((closed_by (reply s close payload c)).connection.state ≡ closed)
      × ((closed_by (reply s close payload c)).connection.close_code ≡ c.close_code)
closed_by-reply s payload c = elim (Result-cases (send_ws_frame s.mask s.now close payload c)) [
  | inr failing ↦ rw (reply, failing.1) (refl, refl)
  | inl sent ↦
      let kept = sent_close s.mask s.now payload (sent.0.0) c (sent.0.1) (sent.1) in
      rw (reply, sent.1) (refl, kept)
]

handle-close :
    (s : Setting) (payload : Bytes) (r : Connection)
    → r.state ≡ is_open
    → 2 ≤ length payload
    → ((handle s close payload r).connection.state ≡ closed)
      × ((handle s close payload r).connection.close_code ≡ some (from_be 0 (take 2 payload)))
unfolding handle
handle-close s payload r running long =
    rw (handle, take_code-long payload r long, running)
      (
        refl,
        (closed_by-reply s payload
            (record r { state = is_open; close_code = some (from_be 0 (take 2 payload)) })).1,
      )

receive_loop-shut :
    (body : Opcode → Bytes → Connection → Run) (now fuel : ℕ) (stream : Bytes) (c : Connection)
    → c.state ≡ closed
    → receive_loop body now fuel stream c ≡ quiet c
unfolding receive_loop
receive_loop-shut body now zero stream c shut = refl
receive_loop-shut body now (suc fuel) stream c shut = rw (receive_loop, ap is_state_open shut) refl

-- The body of the loop for a close frame, and then the end of the loop.
receive_loop-close :
    (fuel : ℕ) (s : Setting) (now : ℕ) (on : Bool) (payload wire : Bytes) (r : Connection)
    → r.state ≡ is_open
    → 2 ≤ length payload
    → receive_ws_frame s.now wire r
      ≡ ok (record {
        opcode = close;
        payload = payload;
        stream = [];
        connection = counted_in now close on (length payload) (length payload) r;
      })
    → ((receive_loop (handle s) s.now (suc fuel) wire r).connection.state ≡ closed)
      × ((receive_loop (handle s) s.now (suc fuel) wire r).connection.close_code
          ≡ some (from_be 0 (take 2 payload)))
unfolding receive_loop
receive_loop-close fuel s now on payload wire r running long got =
    let r' = counted_in now close on (length payload) (length payload) r in
    let (shut, code) = handle-close s payload r' running long in
    let rest =
      receive_loop-shut (handle s) s.now fuel [] ((handle s close payload r').connection) shut in
    let open_now = ap is_state_open running in rw (receive_loop, open_now, got, rest) (shut, code)

small_sent :
    (mask : Bytes) (now : ℕ) (op : Opcode) (payload : Bytes) (c : Connection)
    → length payload ≤ 125
    → length payload ≤ c.max_frame_size
    → (out : Bytes × Connection) × (send_ws_frame mask now op payload c ≡ ok out)
unfolding send_ws_frame length_bytes
small_sent mask now op payload c short fits =
    let allowed : ltb c.max_frame_size (length payload) ≡ false = ground arith in
    let small : ltb (length payload) 126 ≡ true = ground arith in
    elim (Result-cases (send_ws_frame mask now op payload c)) [
      | inl sent ↦ sent
      | inr failing ↦ absurd (cc (rw (send_ws_frame, length_bytes, allowed, small) at failing.1))
    ]

-- close on an open connection, with a code and a reason that make a payload of 125 bytes at most, which
-- is over neither end's limit, and a mask of four bytes: the connection is closed, and an open client
-- that reads what close has written takes the code, and is closed.
pub receive_frames-close_connection :
    (t s : Setting) (code : ℕ) (reason : Text) (payload : Bytes) (c r : Connection)
    → length t.mask ≡ 4
    → c.state ≡ is_open
    → r.state ≡ is_open
    → r.is_client ≡ true
    → close_payload code reason ≡ some payload
    → length payload ≤ 125
    → length payload ≤ c.max_frame_size
    → length payload ≤ r.max_frame_size
    → ((close_connection t code reason c).connection.state ≡ closed)
      × (run : Run) × (receive_frames s ((close_connection t code reason c).output) r ≡ ok run)
      × (run.connection.state ≡ closed)
      × (run.connection.close_code ≡ some code)
unfolding close_connection receive_frames
receive_frames-close_connection t s code reason payload c r four from to client made short fits
      room =
    let ((frame, c'), sent) =
      small_sent t.mask t.now close payload (record c { state = closing }) short fits in
    let (taken, long) = close_payload-code code reason payload made in
    let got =
      receive_ws_frame-send t.mask t.now s.now close payload frame [] (record c { state = closing })
        c' r four room sent in
    let read : receive_ws_frame s.now frame r ≡ _ = rw (append-nil frame) at got in
    let (shut, coded) =
      receive_loop-close (length frame) s s.now c.is_client payload frame r to long read in
    let written : close_connection t code reason c
        ≡ record { output = frame; events = []; connection = record c' { state = closed } } =
      rw (close_connection, from, say_close, made, reply, sent) refl in
    rw written (
      refl,
      receive_loop (handle s) s.now (suc (length frame)) frame r,
      rw client refl,
      shut,
      rw taken at coded,
    )
