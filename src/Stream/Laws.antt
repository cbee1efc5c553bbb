-- ===== src/Stream/Laws.antt =====
-- What closing does, and what the counters of a stream count.
use seigr_toolset_transmissi.Common.{
  ℕ, ◌+◌, ◌*◌, ◌≡◌, refl, true, false, [], Bytes, ok, err, ◌>>=◌, length, arith,
}
use seigr_toolset_transmissi.Common.Dict.{nat_eq}
use seigr_toolset_transmissi.Reorder.{drain}
use seigr_toolset_transmissi.Stream.{
  Stream, stream_closed, send, receive, handle_incoming, accept, drain_buffered, close,
}

-- A closed stream refuses to send, to read, even what is waiting, and to take frames.
pub closed_refuses :
    (s : Stream) (now k : ℕ) (bytes : Bytes)
    → (send now bytes (close s) ≡ err stream_closed)
      × (receive now (close s) ≡ err stream_closed)
      × (handle_incoming now bytes k (close s) ≡ err stream_closed)
unfolding close send receive handle_incoming
closed_refuses s now k bytes = (refl, refl, refl)

-- A frame that arrives in turn at a stream where nothing is buffered, and is then read, is counted
-- twice: once by `_handle_incoming` and once by `receive`.
pub received_twice :
    (s : Stream) (now later : ℕ) (bytes : Bytes)
    → s.is_active ≡ true
    → s.receive_buffer ≡ []
    → s.out_of_order_buffer ≡ []
    → (t : Stream) × ((handle_incoming now bytes s.expected_sequence s >>= receive later)
        ≡ ok (bytes, t))
      × (t.bytes_received ≡ s.bytes_received + 2 * length bytes)
      × (t.messages_received ≡ s.messages_received + 2)
unfolding handle_incoming accept drain_buffered receive drain
received_twice s now later bytes on empty none_early = (
  record s {
    receive_buffer = [];
    expected_sequence = s.expected_sequence + 1;
    out_of_order_buffer = [];
    bytes_received = s.bytes_received + length bytes + length bytes;
    messages_received = s.messages_received + 1 + 1;
    last_activity = later;
    receive_event = false;
  },
  ground (arith, on, empty, none_early),
  omega arith,
  omega arith,
)
