-- ===== src/Stream/Reader.antt =====
-- A stream in use: frames that arrive, reads of the application, and the invariant that the cases of
-- `_handle_incoming` keep.
use seigr_toolset_transmissi.Common.{
  ℕ, zero, suc, ◌+◌, ◌<◌, ◌≡◌, refl, Bool, true, false, not, ◌||◌, List, [], ◌∷◌, ◌++◌,
  append_assoc, Bytes, Result, ok, err, ltb, ◌==◌, ==_iff, length, arith, Bool-cases, Option-cases,
  List-cases, inl, inr,
}
use seigr_toolset_transmissi.Common.Dict.{Dict, get, put, remove, get-put, nat_eq}
use seigr_toolset_transmissi.Reorder.{drain}
use seigr_toolset_transmissi.Reorder.Laws.{
  IsReordered, drain-IsReordered, drain_stops, drain-append,
}
use seigr_toolset_transmissi.Stream.{
  receive_timeout, Stream, StreamError, new, receive, handle_incoming, accept, drain_buffered,
  deliver_data, is_empty,
}

-- What happens to a stream: a frame with this sequence number arrives, or the application reads.
pub data Event : Type 0 where
  arrives : ℕ → Event
  reads : Event

-- The receiving end in use: the stream, and all that the application has read so far.
pub record Reader : Type 0 where
  pub stream : Stream
  pub taken : List Bytes

-- A call that raises leaves the stream as it is.
unfoldable pub read_result : Reader → Result StreamError (Bytes × Stream) → Reader
read_result r (ok (item, s)) = record { stream = s; taken = r.taken ++ (item ∷ []) }
read_result r (err e) = r

unfoldable pub arrive_result : Reader → Result StreamError Stream → Reader
arrive_result r (ok s) = record r { stream = s }
arrive_result r (err e) = r

-- Frame `k` carries `msg k`.
unfoldable pub step : (ℕ → Bytes) → ℕ → Reader → Event → Reader
unfolding read_result arrive_result
step msg now r (arrives k) = arrive_result r (handle_incoming now (msg k) k r.stream)
step msg now r reads = read_result r (receive now r.stream)

unfoldable pub run : (ℕ → Bytes) → ℕ → Reader → List Event → Reader
run msg now r [] = r
run msg now r (e ∷ es) = run msg now (step msg now r e) es

abbrev pub start : Bytes → ℕ → ℕ → Reader
start session_id stream_id now = record { stream = new session_id stream_id now; taken = [] }

-- The sequence numbers that have arrived.
abbrev pub arrived : List Event → ℕ → Bool
arrived [] k = false
arrived (arrives j ∷ es) k = j == k || arrived es k
arrived (reads ∷ es) k = arrived es k

-- The invariant of a stream in use: nothing is lost, nothing is early, and it waits for the least
-- number that has not arrived. The event is set exactly when there is something to read.
pub record IsOrdered (msg : ℕ → Bytes) (seen : ℕ → Bool) (r : Reader) : Type 0 where
  pub active : r.stream.is_active ≡ true
  pub event : r.stream.receive_event ≡ not (is_empty r.stream.receive_buffer)
  pub reordered :
      IsReordered msg seen r.stream.expected_sequence r.stream.out_of_order_buffer
        (r.taken ++ r.stream.receive_buffer)
  pub waiting : seen r.stream.expected_sequence ≡ false

-- One more number has arrived.
abbrev pub also : ℕ → (ℕ → Bool) → ℕ → Bool
also k seen j = k == j || seen j

module _ {A : Type 0} (msg : ℕ → A) (seen : ℕ → Bool) (next : ℕ) (buffer : Dict ℕ A) (out : List A)
    (h : IsReordered msg seen next buffer out) (missing : seen next ≡ false) where
  deliver-IsReordered : IsReordered msg (also next seen) (suc next) buffer (out ++ (msg next ∷ []))
  deliver-IsReordered = record {
    in_order = rw h.in_order;
    below = λ k lt. ground (arith, h.below k, ==_iff next k);
    buffered = λ k. ground (arith, h.buffered k, missing, ==_iff next k);
  }

  put-IsReordered :
      (k : ℕ) → next < k → IsReordered msg (also k seen) next (put k (msg k) buffer) out
  put-IsReordered k later = record {
    in_order = h.in_order;
    below = λ j lt. ground (arith, h.below j);
    buffered = λ j. ground (arith, get-put k j (msg k) buffer, h.buffered j, ==_iff k j);
  }

  old-IsReordered : (k : ℕ) → k < next → IsReordered msg (also k seen) next buffer out
  old-IsReordered k earlier = record {
    in_order = h.in_order;
    below = λ j lt. ground (arith, h.below j);
    buffered = λ j. ground (arith, h.buffered j, ==_iff k j);
  }

is_empty-append : (xs : List Bytes) (x : Bytes) → is_empty (xs ++ (x ∷ [])) ≡ false
unfolding is_empty
is_empty-append [] x = refl
is_empty-append (y ∷ xs) x = refl

drain_nonempty :
    (fuel next : ℕ) (buffer : Dict ℕ Bytes) (out : List Bytes)
    → is_empty out ≡ false
    → is_empty (drain fuel next buffer out).out ≡ false
unfolding drain
drain_nonempty zero next buffer out h = h
drain_nonempty (suc fuel) next buffer out h = elim (Option-cases (get next buffer)) [
  | inl e ↦ rw (e, drain) h
  | inr (item, e) ↦
      rw (e, drain)
        (drain_nonempty fuel (next + 1) (remove next buffer) (out ++ (item ∷ []))
          (is_empty-append out item))
]

-- After the loop, with the numbers that have arrived and the items from `next` on in the buffer.
drained-IsOrdered :
    (msg : ℕ → Bytes) (seen : ℕ → Bool) (s : Stream) (taken : List Bytes)
    → s.is_active ≡ true
    → s.receive_event ≡ true
    → is_empty s.receive_buffer ≡ false
    → IsReordered msg seen s.expected_sequence s.out_of_order_buffer (taken ++ s.receive_buffer)
    → IsOrdered msg seen (record { stream = drain_buffered s; taken = taken })
unfolding drain_buffered
drained-IsOrdered msg seen s taken on set full h =
    let fuel = length s.out_of_order_buffer in
    let d = drain fuel s.expected_sequence s.out_of_order_buffer s.receive_buffer in
    let after =
      drain-IsReordered fuel msg seen s.expected_sequence s.out_of_order_buffer
        (taken ++ s.receive_buffer) h in
    let stops =
      drain_stops fuel s.expected_sequence s.out_of_order_buffer s.receive_buffer (omega arith) in
    let moved = rw drain-append at after in
    record {
      active = on;
      event = ground (
        arith,
        set,
        drain_nonempty fuel s.expected_sequence s.out_of_order_buffer s.receive_buffer full,
      );
      reordered = moved;
      waiting = ground (arith, stops, moved.buffered d.next);
    }

-- The frame that the stream waits for.
accept_expected :
    (msg : ℕ → Bytes) (seen : ℕ → Bool) (s : Stream) (taken : List Bytes)
    → IsOrdered msg seen (record { stream = s; taken = taken })
    → let k = s.expected_sequence in
      IsOrdered msg (also k seen) (record { stream = accept (msg k) k s; taken = taken })
unfolding accept
accept_expected msg seen s taken h =
    let k = s.expected_sequence in
    let next =
      deliver-IsReordered msg seen k s.out_of_order_buffer (taken ++ s.receive_buffer) h.reordered
        h.waiting in
    let one_more : k + 1 ≡ suc k = omega arith in
    rw (let e : (k == k) ≡ true = (==_iff k k).1 refl in e) (
      drained-IsOrdered msg (also k seen)
        (record (deliver_data (msg k) s) { expected_sequence = k + 1 }) taken h.active refl
        (is_empty-append s.receive_buffer (msg k)) (rw one_more (rw append_assoc at next)))

-- A frame, on time, early or late.
pub accept-IsOrdered :
    (msg : ℕ → Bytes) (seen : ℕ → Bool) (k : ℕ) (s : Stream) (taken : List Bytes)
    → IsOrdered msg seen (record { stream = s; taken = taken })
    → IsOrdered msg (also k seen) (record { stream = accept (msg k) k s; taken = taken })
unfolding accept
accept-IsOrdered msg seen k s taken h = elim (Bool-cases (k == s.expected_sequence)) [
  | inl now ↦ rw ((==_iff _ _).0 now) (accept_expected msg seen s taken h)
  | inr other ↦ elim (Bool-cases (ltb s.expected_sequence k)) [
    | inl later ↦
        rw (other, later)
          (record {
            active = h.active;
            event = h.event;
            reordered =
                put-IsReordered msg seen s.expected_sequence s.out_of_order_buffer
                  (taken ++ s.receive_buffer) h.reordered h.waiting k (ground arith);
            waiting = ground (arith, h.waiting);
          })
    | inr earlier ↦
        rw (other, earlier)
          (record {
            active = h.active;
            event = h.event;
            reordered =
                old-IsReordered msg seen s.expected_sequence s.out_of_order_buffer
                  (taken ++ s.receive_buffer) h.reordered h.waiting k (ground arith);
            waiting = ground (arith, h.waiting);
          })
  ]
]

pub receive_nothing :
    (now : ℕ) (s : Stream)
    → s.is_active ≡ true
    → s.receive_event ≡ not (is_empty s.receive_buffer)
    → s.receive_buffer ≡ []
    → receive now s ≡ err receive_timeout
unfolding receive
receive_nothing now s on event none_left = ground (arith, none_left)

pub receive_item :
    (now : ℕ) (s : Stream) (item : Bytes) (rest : List Bytes)
    → s.is_active ≡ true
    → s.receive_event ≡ not (is_empty s.receive_buffer)
    → s.receive_buffer ≡ item ∷ rest
    → receive now s
      ≡ ok (
        item,
        record s {
          receive_buffer = rest;
          bytes_received = s.bytes_received + length item;
          messages_received = s.messages_received + 1;
          last_activity = now;
          receive_event = not (is_empty rest);
        },
      )
unfolding receive
receive_item now s item [] on event e = ground (arith, e)
receive_item now s item (x ∷ rest) on event e = ground (arith, e)

pub read-IsOrdered :
    (msg : ℕ → Bytes) (seen : ℕ → Bool) (now : ℕ) (r : Reader)
    → IsOrdered msg seen r
    → IsOrdered msg seen (read_result r (receive now r.stream))
unfolding read_result
read-IsOrdered msg seen now r h = elim (List-cases r.stream.receive_buffer) [
  | inl e ↦ rw (receive_nothing now r.stream h.active h.event e) h
  | inr (item, rest, e) ↦ rw (receive_item now r.stream item rest h.active h.event e) (record {
    active = h.active;
    event = refl;
    reordered = rw append_assoc (rw e at h.reordered);
    waiting = h.waiting;
  })
]
