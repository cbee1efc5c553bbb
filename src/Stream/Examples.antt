-- ===== src/Stream/Examples.antt =====
-- Runs of a stream, and its theorems at concrete inputs.
use seigr_toolset_transmissi.Common.{
  ℕ, ◌+◌, ◌≤◌, ◌≡◌, refl, length, [], ◌∷◌, ◌++◌, Bytes, List, true, false, none, ◌%◌, arith,
}
use seigr_toolset_transmissi.Reorder.{drain}
use seigr_toolset_transmissi.Reorder.Laws.{sent}
use seigr_toolset_transmissi.Stream.{new, receive, handle_incoming, accept, drain_buffered}
use seigr_toolset_transmissi.Stream.Counting.{arrivals, carried, total_length, received-counted}
use seigr_toolset_transmissi.Stream.Ordering.{delivered_in_order, delivered_all, every_below}
use seigr_toolset_transmissi.Stream.Manager.{
  StreamManager, new_streams, create_stream, get_stream, get_or_create_stream, close_stream,
  cleanup_closed_streams,
}
use seigr_toolset_transmissi.Stream.Numbering.{
  started, own_stream, peer_stream, closed_stream, cleaned_up, create_stream-fresh,
}
use seigr_toolset_transmissi.Stream.Reader.{
  Event, arrives, reads, Reader, step, run, start, arrived,
}
use seigr_toolset_transmissi.Common.Dict.{get, put, remove}

-- Frame k carries the byte k.
abbrev msg : ℕ → Bytes
msg k = k ∷ []

abbrev shuffled : List Event
shuffled = arrives 2 ∷ arrives 0 ∷ reads ∷ arrives 0 ∷ arrives 1 ∷ reads ∷ []

abbrev outcome : Reader
outcome = run msg 7 (start [] 1 7) shuffled

shuffled_run : outcome.taken ++ outcome.stream.receive_buffer ≡ (0 ∷ []) ∷ (1 ∷ []) ∷ (2 ∷ []) ∷ []
unfolding run step new handle_incoming accept drain_buffered receive drain get put remove
shuffled_run = refl

delivered_in_order_example :
    (outcome.taken ++ outcome.stream.receive_buffer ≡ sent msg outcome.stream.expected_sequence)
    × (every_below outcome.stream.expected_sequence (arrived shuffled) ≡ true)
    × (arrived shuffled outcome.stream.expected_sequence ≡ false)
delivered_in_order_example = delivered_in_order msg [] 1 7 shuffled

no_more : (k : ℕ) → 3 ≤ k → arrived shuffled k ≡ false
no_more k h = ground arith

delivered_all_example :
    (outcome.taken ++ outcome.stream.receive_buffer ≡ sent msg 3)
    × (outcome.stream.expected_sequence ≡ 3)
delivered_all_example = delivered_all msg [] 1 7 3 shuffled refl no_more

-- Four arrivals and two reads: six frames and six bytes are counted, of the three that were sent.
received-counted_example :
    (outcome.stream.messages_received ≡ arrivals shuffled + length outcome.taken)
    × (outcome.stream.bytes_received ≡ carried msg shuffled + total_length outcome.taken)
received-counted_example = received-counted msg [] 1 7 7 shuffled

-- An own stream, one of the peer, and the first one closed and cleaned up.
abbrev used : StreamManager
used =
    (cleanup_closed_streams
      (close_stream 1 (get_or_create_stream 6 2 (create_stream 5 none (new_streams [])).1).1)).1

create_stream-fresh_example :
    (get_stream (create_stream 7 none used).0.stream_id used ≡ none)
    × ((create_stream 7 none used).0.stream_id % 2 ≡ 1)
create_stream-fresh_example =
    create_stream-fresh [] used
      (cleaned_up (closed_stream 1 (peer_stream 6 2 (omega arith) (own_stream 5 started)))) 7
