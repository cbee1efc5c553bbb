-- ===== src/Stream/Counting.antt =====
-- What the counters of received frames and bytes count in a stream in use.
use seigr_toolset_transmissi.Common.{
  ℕ, ◌+◌, ◌≡◌, refl, Bool, false, List, [], ◌∷◌, ◌++◌, Bytes, ltb, ◌==◌, length, length-append,
  arith, if-keeps, List-cases, inl, inr,
}
use seigr_toolset_transmissi.Stream.{Stream, new, accept, drain_buffered, deliver_data}
use seigr_toolset_transmissi.Stream.Reader.{
  Event, arrives, reads, Reader, step, run, start, IsOrdered, also, read_result, arrive_result,
  receive_nothing, receive_item, read-IsOrdered,
}
use seigr_toolset_transmissi.Stream.Ordering.{
  counted, handle_incoming_active, arrive-IsOrdered, start-IsOrdered,
}

-- The frames that arrive, and the bytes that they carry.
abbrev pub arrivals : List Event → ℕ
arrivals [] = 0
arrivals (arrives k ∷ es) = 1 + arrivals es
arrivals (reads ∷ es) = arrivals es

abbrev pub carried : (ℕ → Bytes) → List Event → ℕ
carried msg [] = 0
carried msg (arrives k ∷ es) = length (msg k) + carried msg es
carried msg (reads ∷ es) = carried msg es

abbrev pub total_length : List Bytes → ℕ
total_length [] = 0
total_length (x ∷ xs) = length x + total_length xs

total_length-append :
    (xs ys : List Bytes) → total_length (xs ++ ys) ≡ total_length xs + total_length ys
total_length-append [] ys = omega arith
total_length-append (x ∷ xs) ys = omega (arith, total_length-append xs ys)

-- The counters have grown by `frames` and `size` more than what has been taken.
record HasGrown (frames size : ℕ) (before after : Reader) : Type 0 where
  messages :
      after.stream.messages_received + length before.taken
      ≡ before.stream.messages_received + frames + length after.taken
  bytes :
      after.stream.bytes_received + total_length before.taken
      ≡ before.stream.bytes_received + size + total_length after.taken

record HasCounters (s t : Stream) : Type 0 where
  messages : t.messages_received ≡ s.messages_received
  bytes : t.bytes_received ≡ s.bytes_received

accept-HasCounters : (bytes : Bytes) (k : ℕ) (s : Stream) → HasCounters s (accept bytes k s)
unfolding accept drain_buffered deliver_data
accept-HasCounters bytes k s =
    if-keeps (HasCounters s) (k == s.expected_sequence) _ _
      (record { messages = refl; bytes = refl })
      (if-keeps (HasCounters s) (ltb s.expected_sequence k) _ _
        (record { messages = refl; bytes = refl }) (record { messages = refl; bytes = refl }))

arrive-HasGrown :
    (msg : ℕ → Bytes) (seen : ℕ → Bool) (now k : ℕ) (r : Reader)
    → IsOrdered msg seen r
    → HasGrown 1 (length (msg k)) r (step msg now r (arrives k))
unfolding step arrive_result
arrive-HasGrown msg seen now k r h =
    let kept = accept-HasCounters (msg k) k (counted now (msg k) r.stream) in
    rw (handle_incoming_active now (msg k) k r.stream h.active, arrive_result)
      (record { messages = omega (arith, kept.messages); bytes = omega (arith, kept.bytes) })

read-HasGrown :
    (msg : ℕ → Bytes) (seen : ℕ → Bool) (now : ℕ) (r : Reader)
    → IsOrdered msg seen r
    → HasGrown 0 0 r (step msg now r reads)
unfolding step read_result
read-HasGrown msg seen now r h = elim (List-cases r.stream.receive_buffer) [
  | inl e ↦
      rw (receive_nothing now r.stream h.active h.event e, read_result)
        (record { messages = omega arith; bytes = omega arith })
  | inr (item, rest, e) ↦
      rw (receive_item now r.stream item rest h.active h.event e, read_result)
        (record {
          messages = omega (arith, length-append r.taken (item ∷ []));
          bytes = omega (arith, total_length-append r.taken (item ∷ []));
        })
]

run-HasGrown :
    (msg : ℕ → Bytes) (now : ℕ) (es : List Event) (seen : ℕ → Bool) (r : Reader)
    → IsOrdered msg seen r
    → HasGrown (arrivals es) (carried msg es) r (run msg now r es)
unfolding run step
run-HasGrown msg now [] seen r h = record { messages = omega arith; bytes = omega arith }
run-HasGrown msg now (arrives k ∷ es) seen r h =
    let one = arrive-HasGrown msg seen now k r h in
    let rest =
      run-HasGrown msg now es (also k seen) (step msg now r (arrives k))
        (arrive-IsOrdered msg seen now k r h) in
    record {
      messages = omega (arith, one.messages, rest.messages);
      bytes = omega (arith, one.bytes, rest.bytes);
    }
run-HasGrown msg now (reads ∷ es) seen r h =
    let one = read-HasGrown msg seen now r h in
    let rest =
      run-HasGrown msg now es seen (step msg now r reads) (read-IsOrdered msg seen now r h) in
    record {
      messages = omega (arith, one.messages, rest.messages);
      bytes = omega (arith, one.bytes, rest.bytes);
    }

-- On a new stream, after any frames in any order with reads in between: messages_received is the number
-- of frames that arrived and of items that were read, together, and bytes_received is the number of
-- bytes of the former and of the latter, together, so that an item that is read is counted twice.
pub received-counted :
    (msg : ℕ → Bytes) (session_id : Bytes) (stream_id created now : ℕ) (es : List Event)
    → let r = run msg now (start session_id stream_id created) es in
      (r.stream.messages_received ≡ arrivals es + length r.taken)
      × (r.stream.bytes_received ≡ carried msg es + total_length r.taken)
unfolding new
received-counted msg session_id stream_id created now es =
    let grown =
      run-HasGrown msg now es (λ k. false) (start session_id stream_id created)
        (start-IsOrdered msg session_id stream_id created) in
    (omega (arith, grown.messages), omega (arith, grown.bytes))
