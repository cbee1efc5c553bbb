-- ===== src/Stream.antt =====
-- seigr_toolset_transmissions/stream/stream.py, class STTStream. A method that changes the object
-- returns the new state; one that raises has changed nothing before the `raise`. Clock values, which
-- the source takes from time.time(), are numbers of ticks handed in as `now`; sequence numbers are
-- not negative, as the frames check. Left out: the crypto context, and the fields that no method
-- changes (windows, priority, latency and queue metrics).
pub mod Reader
pub mod Manager
pub mod Numbering
pub mod Ordering
pub mod Counting
pub mod Laws
mod Examples
use seigr_toolset_transmissi.Common.{
  ℕ, suc, ◌+◌, ◌-◌, List, [], ◌∷◌, ◌++◌, Bytes, Bool, true, false, not, Result, ok, err, ◌>>=◌,
  ◌>>◌, raise_if, ltb, ◌==◌, if◌then◌else◌, length,
}
use seigr_toolset_transmissi.Common.Dict.{Dict, put, nat_eq}
use seigr_toolset_transmissi.Reorder.{Drained, drain}

-- The two `STTStreamError`s of the class.
pub data StreamError : Type 0 where
  stream_closed receive_timeout : StreamError

pub record Stream : Type 0 where
  pub session_id : Bytes
  pub stream_id : ℕ
  pub is_active : Bool
  pub sequence : ℕ
  pub created_at : ℕ
  pub last_activity : ℕ
  pub bytes_sent : ℕ
  pub bytes_received : ℕ
  pub messages_sent : ℕ
  pub messages_received : ℕ
  pub receive_buffer : List Bytes
  pub expected_sequence : ℕ
  pub out_of_order_buffer : Dict ℕ Bytes
  pub receive_event : Bool

-- `__init__`
pub new : Bytes → ℕ → ℕ → Stream
new session_id stream_id now = record {
  session_id = session_id;
  stream_id = stream_id;
  is_active = true;
  sequence = 0;
  created_at = now;
  last_activity = now;
  bytes_sent = 0;
  bytes_received = 0;
  messages_sent = 0;
  messages_received = 0;
  receive_buffer = [];
  expected_sequence = 0;
  out_of_order_buffer = [];
  receive_event = false;
}

-- `send`
pub send : ℕ → Bytes → Stream → Result StreamError Stream
send now bytes s = do
  raise_if (not s.is_active) stream_closed
  ok (record s {
    bytes_sent = s.bytes_sent + length bytes;
    messages_sent = s.messages_sent + 1;
    sequence = s.sequence + 1;
    last_activity = now;
  })

pub is_empty : List Bytes → Bool
is_empty [] = true
is_empty (x ∷ xs) = false

-- `receive`, behind the wait: the next item, or the empty byte string where there is none.
take_next : ℕ → List Bytes → Stream → Bytes × Stream
unfolding is_empty
take_next now [] s = ([], s)
take_next now (item ∷ rest) s = (
  item,
  record s {
    receive_buffer = rest;
    bytes_received = s.bytes_received + length item;
    messages_received = s.messages_received + 1;
    last_activity = now;
    receive_event = if is_empty rest then false else s.receive_event;
  },
)

-- `receive` with a timeout. A wait for an event that is not set, and that nobody sets in time, ends
-- in the timeout.
pub receive : ℕ → Stream → Result StreamError (Bytes × Stream)
unfolding take_next
receive now s = do
  raise_if (not s.is_active) stream_closed
  raise_if (not s.receive_event) receive_timeout
  ok (take_next now s.receive_buffer s)

-- `_deliver_data`
pub deliver_data : Bytes → Stream → Stream
deliver_data bytes s = record s {
  receive_buffer = s.receive_buffer ++ (bytes ∷ []);
  receive_event = true;
}

-- The loop over `out_of_order_buffer`, run on a stream; the event is set already when it starts.
drain_buffered : Stream → Stream
drain_buffered s =
    let d =
      drain (length s.out_of_order_buffer) s.expected_sequence s.out_of_order_buffer
        s.receive_buffer in
    record s { expected_sequence = d.next; out_of_order_buffer = d.buffer; receive_buffer = d.out }

-- The three cases of `_handle_incoming`: expected, future, old.
pub accept : Bytes → ℕ → Stream → Stream
unfolding deliver_data
accept bytes sequence s =
    if sequence == s.expected_sequence
    then drain_buffered
        (record (deliver_data bytes s) { expected_sequence = s.expected_sequence + 1 })
    else if ltb s.expected_sequence sequence
    then record s { out_of_order_buffer = put sequence bytes s.out_of_order_buffer }
    else s

-- `_handle_incoming`
pub handle_incoming : ℕ → Bytes → ℕ → Stream → Result StreamError Stream
handle_incoming now bytes sequence s = do
  raise_if (not s.is_active) stream_closed
  ok (
      accept bytes sequence (record s {
        last_activity = now;
        bytes_received = s.bytes_received + length bytes;
        messages_received = s.messages_received + 1;
      }))

-- `is_expired`
pub is_expired : ℕ → ℕ → Stream → Bool
is_expired now max_idle s = ltb max_idle (now - s.last_activity)

-- `receive_buffer_empty`
pub receive_buffer_empty : Stream → Bool
unfolding is_empty
receive_buffer_empty s = is_empty s.receive_buffer

-- `close`
unfoldable pub close : Stream → Stream
close s = record s { is_active = false; receive_event = true }

-- `is_closed`
abbrev pub is_closed : Stream → Bool
is_closed s = not s.is_active
