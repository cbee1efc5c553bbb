-- ===== src/Websocket/Ends.antt =====
-- The receive loop ends: every frame takes bytes from the stream, transport/websocket.py.
use seigr_toolset_transmissi.Common.{
  ℕ, zero, suc, ◌+◌, ◌≤◌, ◌<◌, ◌≡◌, refl, ap, Bytes, Bool, true, false, Bool-cases, inl, inr,
  Result, Result-cases, ok, >>=-eq-ok, raise_if, rethrow, ltb, not, ◌==◌, length, length-drop,
  bit_and, arith,
}
use seigr_toolset_transmissi.Struct.{unpack_uint}
use seigr_toolset_transmissi.Websocket.{
  WsError, frame_too_large, struct_failure, Connection, mask_byte, Opcode,
}
use seigr_toolset_transmissi.Websocket.Send.{is_state_open}
use seigr_toolset_transmissi.Websocket.Receive.{
  readexactly, opcode_of, read_length, extended_length, read_mask, Received, same_result,
  receive_behind, receive_ws_frame,
}
use seigr_toolset_transmissi.Websocket.Loop.{
  Setting, handle, serve, Run, receive_loop, receive_frames, client_receive_loop,
}

readexactly-inv :
    (n : ℕ) (stream taken rest : Bytes)
    → readexactly n stream ≡ ok (taken, rest)
    → n + length rest ≡ length stream
unfolding readexactly
readexactly-inv n stream taken rest h = ground (arith, length-drop n stream)

read_length-inv :
    (width n : ℕ) (stream rest : Bytes)
    → read_length width stream ≡ ok (n, rest)
    → length rest ≤ length stream
read_length-inv width n stream rest h =
    let ((raw, behind), e, after) = >>=-eq-ok (readexactly width stream) _ h in
    let (value, _, out) =
      >>=-eq-ok (rethrow (λ _. struct_failure) (unpack_uint width raw)) _ after in
    let same : behind ≡ rest = cc out in
    let shorter : length behind ≤ length stream =
      omega (arith, readexactly-inv width stream raw behind e) in
    rw same at shorter

plain_length :
    (m n : ℕ) (stream rest : Bytes)
    → ◌≡◌ {A = Result WsError (ℕ × Bytes)} (ok (m, stream)) (ok (n, rest))
    → length rest ≤ length stream
plain_length m n stream rest h = let same : stream ≡ rest = cc h in rw same (omega arith)

extended_length-inv :
    (m n : ℕ) (stream rest : Bytes)
    → extended_length m stream ≡ ok (n, rest)
    → length rest ≤ length stream
unfolding extended_length
extended_length-inv m n stream rest h = elim (Bool-cases (m == 126)) [
  | inl short ↦ read_length-inv 2 n stream rest (rw short at h)
  | inr other ↦ elim (Bool-cases (m == 127)) [
    | inl long ↦ read_length-inv 8 n stream rest (rw (other, long) at h)
    | inr plain ↦ plain_length m n stream rest (rw (other, plain) at h)
  ]
]

read_mask-inv :
    (on : Bool) (stream mask rest : Bytes)
    → read_mask on stream ≡ ok (mask, rest)
    → length rest ≤ length stream
unfolding read_mask
read_mask-inv true stream mask rest h = omega (arith, readexactly-inv 4 stream mask rest h)
read_mask-inv false stream mask rest h = let same : stream ≡ rest = cc h in rw same (omega arith)

receive_behind-inv :
    (now first second : ℕ) (stream : Bytes) (c : Connection) (d : Received)
    → receive_behind now first second stream c ≡ ok d
    → length d.stream ≤ length stream
unfolding receive_behind
receive_behind-inv now first second stream c d h =
    let (opcode, _, h1) = >>=-eq-ok (opcode_of (bit_and first 0x0F)) _ h in
    let ((n, s1), e1, h2) = >>=-eq-ok (extended_length (bit_and second 0x7F) stream) _ h1 in
    let (_, _, h3) = >>=-eq-ok (raise_if (ltb c.max_frame_size n) frame_too_large) _ h2 in
    let ((mask, s2), e2, h4) = >>=-eq-ok (read_mask (not (bit_and second 0x80 == 0)) s1) _ h3 in
    let ((raw, s3), e3, out) = >>=-eq-ok (readexactly n s2) _ h4 in
    let l1 = extended_length-inv (bit_and second 0x7F) n stream s1 e1 in
    let l2 = read_mask-inv (not (bit_and second 0x80 == 0)) s1 mask s2 e2 in
    let l3 = readexactly-inv n s2 raw s3 e3 in
    let last = ap (λ (x : Received). length x.stream) (same_result _ d out) in
    omega (arith, l1, l2, l3, last)

-- A frame takes two bytes from the stream at least.
pub receive_ws_frame-shortens :
    (now : ℕ) (stream : Bytes) (c : Connection) (d : Received)
    → receive_ws_frame now stream c ≡ ok d
    → length d.stream + 2 ≤ length stream
unfolding receive_ws_frame
receive_ws_frame-shortens now stream c d h =
    let ((header, rest), e, behind) = >>=-eq-ok (readexactly 2 stream) _ h in
    omega (
      arith,
      readexactly-inv 2 stream header rest e,
      receive_behind-inv now (mask_byte header 0) (mask_byte header 1) rest c d behind,
    )

-- With more fuel than there are bytes on the stream, a receive loop comes to its end, whatever its body
-- does for a frame: the connection is not open any more.
pub receive_loop_ends :
    (body : Opcode → Bytes → Connection → Run) (now fuel : ℕ) (stream : Bytes) (c : Connection)
    → length stream < fuel
    → is_state_open ((receive_loop body now fuel stream c).connection.state) ≡ false
unfolding receive_loop
receive_loop_ends body now zero stream c enough = absurd (omega arith)
receive_loop_ends body now (suc fuel) stream c enough = elim (Bool-cases (is_state_open c.state)) [
  | inr shut ↦ rw (receive_loop, shut) shut
  | inl running ↦ elim (Result-cases (receive_ws_frame now stream c)) [
    | inr failing ↦ rw (receive_loop, running, failing.1) refl
    | inl got ↦
        let d = got.0 in
        let shorter = receive_ws_frame-shortens now stream c d (got.1) in
        let step = body d.opcode d.payload d.connection in
        rw (receive_loop, running, got.1)
          (receive_loop_ends body now fuel d.stream step.connection
            (omega (arith, shorter, enough)))
  ]
]

-- receive_frames on a client's connection, and _client_receive_loop on that of a server, come to an end,
-- and the connection is not open behind it.
pub loops_end :
    (s : Setting) (stream : Bytes) (c r : Connection)
    → c.is_client ≡ true
    → ((run : Run) × (receive_frames s stream c ≡ ok run)
        × (is_state_open run.connection.state ≡ false))
      × (is_state_open (client_receive_loop s stream r).connection.state ≡ false)
unfolding receive_frames client_receive_loop
loops_end s stream c r client = (
  (
    receive_loop (handle s) s.now (suc (length stream)) stream c,
    rw client refl,
    receive_loop_ends (handle s) s.now (suc (length stream)) stream c (omega arith),
  ),
  receive_loop_ends (serve s) s.now (suc (length stream)) stream r (omega arith),
)
