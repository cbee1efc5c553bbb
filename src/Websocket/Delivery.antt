-- ===== src/Websocket/Delivery.antt =====
-- What several sends put on the stream is delivered by receive_frames, and a close is answered,
-- transport/websocket.py.
use seigr_toolset_transmissi.Common.{
  ℕ, zero, suc, ◌≤◌, ◌<◌, ◌≡◌, refl, ap, List, [], ◌∷◌, ◌++◌, map, Bytes, true, false, not, ok,
  >>=-eq-ok, raise_if, length, length-append, arith,
}
use seigr_toolset_transmissi.Websocket.{not_open, binary, is_open, closed, Connection, Opcode}
use seigr_toolset_transmissi.Websocket.Send.{is_state_open, send, send_ws_frame}
use seigr_toolset_transmissi.Websocket.Receive.{readexactly, counted_in, receive_ws_frame}
use seigr_toolset_transmissi.Websocket.RoundTrip.{send_ws_frame-inv}
use seigr_toolset_transmissi.Websocket.Arrival.{receive_ws_frame-send}
use seigr_toolset_transmissi.Websocket.Loop.{
  message, Setting, Run, handle, failed, receive_loop, receive_frames,
}

-- A run of sends, one for each of the payloads, with what they write.
pub data Sends : List Bytes → Connection → Bytes → Type 0 where
  none_sent : {c : Connection} → Sends [] c []
  then_sent :
      {payload : Bytes} {payloads : List Bytes} {c : Connection}
      → (mask : Bytes) (now : ℕ) (frame wire : Bytes) (c' : Connection) → length mask ≡ 4
      → send mask now payload c ≡ ok (frame, c')
      → Sends payloads c' wire
      → Sends (payload ∷ payloads) c (frame ++ wire)

-- No payload is over the limit.
pub data AllFit (limit : ℕ) : List Bytes → Type 0 where
  fit_nil : AllFit limit []
  fit_cons :
      {payload : Bytes} {payloads : List Bytes}
      → length payload ≤ limit
      → AllFit limit payloads
      → AllFit limit (payload ∷ payloads)

send-inv :
    (mask : Bytes) (now : ℕ) (payload frame : Bytes) (c c' : Connection)
    → send mask now payload c ≡ ok (frame, c')
    → send_ws_frame mask now binary payload c ≡ ok (frame, c')
unfolding send
send-inv mask now payload frame c c' sent =
    (>>=-eq-ok (raise_if (not (is_state_open c.state)) not_open) _ sent).2

-- At the end of the stream the loop closes the connection.
receive_loop-end :
    (body : Opcode → Bytes → Connection → Run) (now fuel : ℕ) (r : Connection)
    → is_state_open r.state ≡ true
    → receive_loop body now (suc fuel) [] r ≡ failed r
unfolding receive_loop receive_ws_frame readexactly
receive_loop-end body now fuel r running = rw (receive_loop, running) refl

handle-binary :
    (s : Setting) (payload : Bytes) (r : Connection)
    → s.message_handler ≡ true
    → s.on_frame_received ≡ false
    → ((handle s binary payload r).events ≡ message payload ∷ [])
      × ((handle s binary payload r).connection ≡ r)
unfolding handle
handle-binary s payload r on off = (rw (on, off) refl, refl)

length-Sends :
    (payloads : List Bytes) (c : Connection) (wire : Bytes)
    → Sends payloads c wire
    → length payloads ≤ length wire
length-Sends [] c wire none_sent = omega arith
length-Sends (payload ∷ payloads) c wire (then_sent mask now frame rest c' four sent more) =
    let (_, _, made, _, _) =
      send_ws_frame-inv mask now binary payload frame c c'
        (send-inv mask now payload frame c c' sent) in
    let long : 0 < length frame = rw made (omega arith) in
    omega (arith, length-append frame rest, long, length-Sends payloads c' rest more)

receive_loop-Sends :
    (fuel : ℕ) (s : Setting) (payloads : List Bytes) (c r : Connection) (wire : Bytes)
    → s.message_handler ≡ true
    → s.on_frame_received ≡ false
    → is_state_open r.state ≡ true
    → AllFit r.max_frame_size payloads
    → Sends payloads c wire
    → length payloads < fuel
    → ((receive_loop (handle s) s.now fuel wire r).events ≡ map message payloads)
      × ((receive_loop (handle s) s.now fuel wire r).connection.state ≡ closed)
unfolding receive_loop handle
receive_loop-Sends zero s payloads c r wire on off running fit sends enough = absurd (omega arith)
receive_loop-Sends (suc fuel) s [] c r wire on off running fit none_sent enough =
    rw (receive_loop-end (handle s) s.now fuel r running) (refl, refl)
receive_loop-Sends (suc fuel) s (payload ∷ payloads) c r wire on off running (fit_cons one fits)
      (then_sent mask now frame rest c' four sent more) enough =
    let got =
      receive_ws_frame-send mask now s.now binary payload frame rest c c' r four one
        (send-inv mask now payload frame c c' sent) in
    let r' = counted_in s.now binary c.is_client (length payload) (length payload) r in
    let (events, state) =
      receive_loop-Sends fuel s payloads c' r' rest on off running fits more (omega arith) in
    let called = (handle-binary s payload r' on off).0 in
    (
      rw (receive_loop, running, got, called) (ap (λ t. message payload ∷ t) events),
      rw (receive_loop, running, got) state,
    )

-- The data that one end has sent, by any number of successful sends that are not over the other end's
-- limit, with masks of four bytes: on the receiving client, with a message handler alone, the handler is
-- called with just these data, in the order in which they were sent, and at the end of the stream the
-- connection is closed.
pub receive_frames-Sends :
    (s : Setting) (payloads : List Bytes) (c r : Connection) (wire : Bytes)
    → r.is_client ≡ true
    → s.message_handler ≡ true
    → s.on_frame_received ≡ false
    → r.state ≡ is_open
    → AllFit r.max_frame_size payloads
    → Sends payloads c wire
    → (run : Run) × (receive_frames s wire r ≡ ok run)
      × (run.events ≡ map message payloads)
      × (run.connection.state ≡ closed)
unfolding receive_frames
receive_frames-Sends s payloads c r wire client on off running fit sends =
    let run = receive_loop (handle s) s.now (suc (length wire)) wire r in
    let (events, state) =
      receive_loop-Sends (suc (length wire)) s payloads c r wire on off (ap is_state_open running)
        fit sends (omega (arith, length-Sends payloads c wire sends)) in
    (run, rw client refl, events, state)
