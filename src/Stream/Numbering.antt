-- ===== src/Stream/Numbering.antt =====
-- The numbers that stream/stream_manager.py gives to streams.
use seigr_toolset_transmissi.Common.{ℕ, ◌%◌, ◌≡◌, ◌≤◌, refl, Bytes, Option, none, some, arith}
use seigr_toolset_transmissi.Common.Dict.{get, get-put, nat_eq}
use seigr_toolset_transmissi.Common.Sweep.{get-delete_keys}
use seigr_toolset_transmissi.Stream.{Stream, new as new_stream}
use seigr_toolset_transmissi.Stream.Manager.{
  StreamManager, new_streams, open_stream, create_stream, get_stream, found_or_opened,
  get_or_create_stream, close_present, close_stream, close_all_streams, cleanup_closed_streams,
}

-- The managers that a run of calls leads to, in which the peer's streams have even numbers.
pub data Reached (session_id : Bytes) : StreamManager → Type 0 where
  started : Reached session_id (new_streams session_id)
  own_stream :
      {m : StreamManager}
      → (now : ℕ) → Reached session_id m
      → Reached session_id (create_stream now none m).1
  numbered_stream :
      {m : StreamManager}
      → (now stream_id : ℕ) → stream_id % 2 ≡ 0
      → Reached session_id m
      → Reached session_id (create_stream now (some stream_id) m).1
  peer_stream :
      {m : StreamManager}
      → (now stream_id : ℕ) → stream_id % 2 ≡ 0
      → Reached session_id m
      → Reached session_id (get_or_create_stream now stream_id m).1
  closed_stream :
      {m : StreamManager}
      → (stream_id : ℕ) → Reached session_id m
      → Reached session_id (close_stream stream_id m)
  all_closed : {m : StreamManager} → Reached session_id m → Reached session_id (close_all_streams m)
  cleaned_up :
      {m : StreamManager} → Reached session_id m → Reached session_id (cleanup_closed_streams m).1

-- The next number is odd, and no stream has it or a later odd one.
record IsFresh (m : StreamManager) : Type 0 where
  odd : m.next_stream_id % 2 ≡ 1
  unused : (k : ℕ) → m.next_stream_id ≤ k → k % 2 ≡ 1 → get k m.streams ≡ none

open_stream-IsFresh :
    (now stream_id : ℕ) (m : StreamManager)
    → stream_id % 2 ≡ 0
    → IsFresh m
    → IsFresh (open_stream now stream_id m).1
open_stream-IsFresh now stream_id m even h = record {
  odd = h.odd;
  unused = λ k later odd. rw (get-put) (ground (arith, h.unused k later odd));
}

found_or_opened-IsFresh :
    (now stream_id : ℕ) (s : Option Stream) (m : StreamManager)
    → stream_id % 2 ≡ 0
    → IsFresh m
    → IsFresh (found_or_opened now stream_id s m).1
found_or_opened-IsFresh now stream_id (some s) m even h = h
found_or_opened-IsFresh now stream_id none m even h = open_stream-IsFresh now stream_id m even h

close_present-IsFresh :
    (stream_id : ℕ) (s : Option Stream) (m : StreamManager)
    → get stream_id m.streams ≡ s
    → IsFresh m
    → IsFresh (close_present stream_id s m)
close_present-IsFresh stream_id none m there h = h
close_present-IsFresh stream_id (some s) m there h = record {
  odd = h.odd;
  unused = λ k later odd. rw (get-put) (ground (arith, h.unused k later odd, there));
}

Reached-IsFresh : (session_id : Bytes) (m : StreamManager) → Reached session_id m → IsFresh m
unfolding create_stream get_or_create_stream close_stream close_all_streams cleanup_closed_streams
    get
Reached-IsFresh session_id m started = record { odd = refl; unused = λ k later odd. refl }
Reached-IsFresh session_id m (own_stream {m = n} now run) =
    let h = Reached-IsFresh session_id n run in
    record {
      odd = omega (arith, h.odd);
      unused = λ k later odd. rw (get-put) (ground (arith, h.unused k (omega arith) odd));
    }
Reached-IsFresh session_id m (numbered_stream {m = n} now stream_id even run) =
    open_stream-IsFresh now stream_id n even (Reached-IsFresh session_id n run)
Reached-IsFresh session_id m (peer_stream {m = n} now stream_id even run) =
    found_or_opened-IsFresh now stream_id (get stream_id n.streams) n even
      (Reached-IsFresh session_id n run)
Reached-IsFresh session_id m (closed_stream {m = n} stream_id run) =
    close_present-IsFresh stream_id (get stream_id n.streams) n refl
      (Reached-IsFresh session_id n run)
Reached-IsFresh session_id m (all_closed {m = n} run) =
    let h = Reached-IsFresh session_id n run in record { odd = h.odd; unused = λ k later odd. refl }
Reached-IsFresh session_id m (cleaned_up {m = n} run) =
    let h = Reached-IsFresh session_id n run in
    record {
      odd = h.odd;
      unused = λ k later odd. rw (get-delete_keys, h.unused k later odd) (ground arith);
    }

-- In every state that calls lead to in which the streams that are given a number have even numbers, a
-- stream that is created with no number given takes the number of no other stream, and an odd one.
pub create_stream-fresh :
    (session_id : Bytes) (m : StreamManager)
    → Reached session_id m
    → (now : ℕ)
    → (get_stream (create_stream now none m).0.stream_id m ≡ none)
      × ((create_stream now none m).0.stream_id % 2 ≡ 1)
unfolding create_stream new_stream
create_stream-fresh session_id m run now =
    let h = Reached-IsFresh session_id m run in
    (h.unused m.next_stream_id (omega arith) h.odd, h.odd)
