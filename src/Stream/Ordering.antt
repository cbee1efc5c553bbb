-- ===== src/Stream/Ordering.antt =====
-- Whatever order frames arrive in, the application reads the bytes in the order they were sent.
use seigr_toolset_transmissi.Common.{
  ℕ, zero, suc, ◌+◌, ◌≤◌, ◌<◌, ◌≡◌, refl, ap, ◌∙◌, Bool, true, false, ◌&&◌, ◌||◌, List, [], ◌∷◌,
  ◌++◌, subst, fun_ext, Bytes, ok, length, arith,
}
use seigr_toolset_transmissi.Common.Dict.{get, nat_eq}
use seigr_toolset_transmissi.Reorder.Laws.{sent}
use seigr_toolset_transmissi.Stream.Reader.{
  Event, arrives, reads, Reader, step, run, start, arrived, IsOrdered, also, accept-IsOrdered,
  read-IsOrdered,
}
use seigr_toolset_transmissi.Stream.{Stream, new, handle_incoming, accept, is_empty}

-- The counters of a frame that is handled.
abbrev pub counted : ℕ → Bytes → Stream → Stream
counted now bytes s = record s {
  last_activity = now;
  bytes_received = s.bytes_received + length bytes;
  messages_received = s.messages_received + 1;
}

pub handle_incoming_active :
    (now : ℕ) (bytes : Bytes) (k : ℕ) (s : Stream)
    → s.is_active ≡ true
    → handle_incoming now bytes k s ≡ ok (accept bytes k (counted now bytes s))
unfolding handle_incoming
handle_incoming_active now bytes k s on = ground (arith, on)

pub arrive-IsOrdered :
    (msg : ℕ → Bytes) (seen : ℕ → Bool) (now k : ℕ) (r : Reader)
    → IsOrdered msg seen r
    → IsOrdered msg (also k seen) (step msg now r (arrives k))
unfolding step
arrive-IsOrdered msg seen now k r h = rw (handle_incoming_active now (msg k) k r.stream h.active) (
    accept-IsOrdered msg seen k (counted now (msg k) r.stream) r.taken
      (record { active = h.active; event = h.event; reordered = h.reordered; waiting = h.waiting }))

-- Arrivals may be counted before or after those that came earlier.
arrived_swap :
    (j : ℕ) (es : List Event) (seen : ℕ → Bool) (k : ℕ)
    → (arrived es k || also j seen k) ≡ (arrived (arrives j ∷ es) k || seen k)
arrived_swap j es seen k = ground arith

run-IsOrdered :
    (msg : ℕ → Bytes) (now : ℕ) (es : List Event) (seen : ℕ → Bool) (r : Reader)
    → IsOrdered msg seen r
    → IsOrdered msg (λ k. arrived es k || seen k) (run msg now r es)
unfolding run step
run-IsOrdered msg now [] seen r h = h
run-IsOrdered msg now (arrives j ∷ es) seen r h =
    subst (λ f. IsOrdered msg f (run msg now (step msg now r (arrives j)) es))
      (fun_ext (arrived_swap j es seen))
      (run-IsOrdered msg now es (also j seen) (step msg now r (arrives j))
        (arrive-IsOrdered msg seen now j r h))
run-IsOrdered msg now (reads ∷ es) seen r h =
    run-IsOrdered msg now es seen (step msg now r reads) (read-IsOrdered msg seen now r h)

pub start-IsOrdered :
    (msg : ℕ → Bytes) (session_id : Bytes) (stream_id now : ℕ)
    → IsOrdered msg (λ k. false) (start session_id stream_id now)
unfolding new is_empty get
start-IsOrdered msg session_id stream_id now = record {
  active = refl;
  event = refl;
  reordered = record {
    in_order = refl;
    below = λ k lt. absurd (omega arith);
    buffered = λ k. ground arith;
  };
  waiting = refl;
}

-- A Boolean test of all numbers below `n`.
abbrev pub every_below : ℕ → (ℕ → Bool) → Bool
every_below zero p = true
every_below (suc n) p = p n && every_below n p

every_below_of : (n : ℕ) (p : ℕ → Bool) → ((k : ℕ) → k < n → p k ≡ true) → every_below n p ≡ true
every_below_of zero p h = refl
every_below_of (suc n) p h = ground (arith, h n, every_below_of n p (λ k lt. h k (omega arith)))

every_below-at : (n : ℕ) (p : ℕ → Bool) (k : ℕ) → every_below n p ≡ true → k < n → p k ≡ true
every_below-at zero p k h lt = absurd (omega arith)
every_below-at (suc n) p k h lt = ground (arith, every_below-at n p k)

-- Frames arrive in any order, early, late or repeated, with reads of the application in between. What
-- the application has read, followed by what waits for it, is what was sent below the expected number:
-- every frame below it has arrived, and the frame of that number has not.
pub delivered_in_order :
    (msg : ℕ → Bytes) (session_id : Bytes) (stream_id now : ℕ) (es : List Event)
    → let r = run msg now (start session_id stream_id now) es in
      (r.taken ++ r.stream.receive_buffer ≡ sent msg r.stream.expected_sequence)
      × (every_below r.stream.expected_sequence (arrived es) ≡ true)
      × (arrived es r.stream.expected_sequence ≡ false)
delivered_in_order msg session_id stream_id now es =
    let r = run msg now (start session_id stream_id now) es in
    let h =
      run-IsOrdered msg now es (λ k. false) (start session_id stream_id now)
        (start-IsOrdered msg session_id stream_id now) in
    (
      h.reordered.in_order,
      every_below_of r.stream.expected_sequence (arrived es)
          (λ k lt. ground (arith, h.reordered.below k lt)),
      ground (arith, h.waiting),
    )

-- The least number that has not arrived is determined.
least :
    (es : List Event) (e n : ℕ)
    → every_below e (arrived es) ≡ true
    → arrived es e ≡ false
    → every_below n (arrived es) ≡ true
    → ((k : ℕ) → n ≤ k → arrived es k ≡ false)
    → e ≡ n
least es e n below missing came none_later = ground (
  arith,
  every_below-at e (arrived es) n below,
  missing,
  every_below-at n (arrived es) e came,
  none_later n,
)

-- Once the frames 0 to n - 1 have all arrived, in any order and with repetitions, and no later one,
-- the application has read or finds waiting exactly the n items in the order they were sent.
pub delivered_all :
    (msg : ℕ → Bytes) (session_id : Bytes) (stream_id now n : ℕ) (es : List Event)
    → every_below n (arrived es) ≡ true
    → ((k : ℕ) → n ≤ k → arrived es k ≡ false)
    → let r = run msg now (start session_id stream_id now) es in
      (r.taken ++ r.stream.receive_buffer ≡ sent msg n) × (r.stream.expected_sequence ≡ n)
delivered_all msg session_id stream_id now n es came none_later =
    let r = run msg now (start session_id stream_id now) es in
    let (items, below, missing) = delivered_in_order msg session_id stream_id now es in
    let all : r.stream.expected_sequence ≡ n =
      least es r.stream.expected_sequence n below missing came none_later in
    (items ∙ ap (sent msg) all, all)
