-- ===== src/Streaming/Decoder.antt =====
-- seigr_toolset_transmissions/streaming/decoder.py, class BinaryStreamDecoder. The asynchronous queue
-- is a list, in which `none` is the end marker; `receive_all` gives `none` where it would wait.
use seigr_toolset_transmissi.Common.{
  ℕ, ◌+◌, List, [], ◌∷◌, ◌++◌, map, Bytes, Bool, true, false, Option, none, some, Result, ok, err,
  ◌>>=◌, ltb, ◌==◌, if◌then◌else◌, length, drop, slice,
}
use seigr_toolset_transmissi.Common.Dict.{Dict, put, nat_eq}
use seigr_toolset_transmissi.Reorder.{drain}
use seigr_toolset_transmissi.Streaming.{Chunks, StreamingError, process_failed}

pub record Decoder (C : Type 0) : Type 0 where
  pub session_id : Bytes
  pub stream_id : ℕ
  pub stream_context : C
  pub segment_buffer : Dict ℕ Bytes
  pub next_expected_sequence : ℕ
  pub ended : Bool
  pub total_bytes_received : ℕ
  pub segment_queue : List (Option Bytes)

unfoldable pub first_byte : Bytes → ℕ
first_byte [] = 0
first_byte (b ∷ bs) = b

-- `receive_all`: what comes out of the queue up to the end marker, in one byte string.
unfoldable pub receive_all : List (Option Bytes) → Option Bytes
receive_all [] = none
receive_all (none ∷ queue) = some []
receive_all (some segment ∷ queue) = elim (receive_all queue) [
  | none ↦ none
  | some rest ↦ some (segment ++ rest)
]

module _ {C : Type 0} where
  -- The loop of `process_segment`: each item goes into the queue.
  unfoldable pub deliver : Decoder C → Decoder C
  deliver d =
      let r = drain (length d.segment_buffer) d.next_expected_sequence d.segment_buffer [] in
      record d {
        segment_buffer = r.buffer;
        next_expected_sequence = r.next;
        segment_queue = d.segment_queue ++ map some r.out;
      }

  unfoldable pub store : ℕ → Bytes → C → Decoder C → Decoder C
  store sequence decrypted context d = record d {
    stream_context = context;
    segment_buffer = put sequence decrypted d.segment_buffer;
    total_bytes_received = d.total_bytes_received + length decrypted;
  }

  -- `signal_end`
  unfoldable pub signal_end : Decoder C → Decoder C
  signal_end d =
      if d.ended
      then d
      else record d { ended = true; segment_queue = d.segment_queue ++ (none ∷ []) }

  -- `get_buffered_count`
  unfoldable pub get_buffered_count : Decoder C → ℕ
  get_buffered_count d = length d.segment_buffer

module _ {C : Type 0} (k : Chunks C) where
  -- `__init__`
  unfoldable pub new : Bytes → ℕ → Decoder C
  new session_id stream_id = record {
    session_id = session_id;
    stream_id = stream_id;
    stream_context = k.create_stream_context session_id stream_id;
    segment_buffer = [];
    next_expected_sequence = 0;
    ended = false;
    total_bytes_received = 0;
    segment_queue = [];
  }

  -- `_decrypt_segment`, `none` where it raises.
  unfoldable pub decrypt_segment : Bytes → C → Option (Bytes × C)
  unfolding first_byte
  decrypt_segment encoded context =
      if ltb (length encoded) 17
      then none
      else elim (k.decrypt_chunk context (slice 1 17 encoded) (drop 17 encoded)) [
        | none ↦ none
        | some (after, decrypted) ↦ some (if first_byte encoded == 1 then [] else decrypted, after)
      ]

  -- `process_segment`
  unfoldable pub process_segment : Bytes → ℕ → Decoder C → Result StreamingError (Decoder C)
  process_segment encoded sequence d = elim (decrypt_segment encoded d.stream_context) [
    | none ↦ err process_failed
    | some (decrypted, context) ↦ ok (deliver (store sequence decrypted context d))
  ]

  -- `reset`
  unfoldable pub reset : Decoder C → Decoder C
  reset d = record d {
    stream_context = k.create_stream_context d.session_id d.stream_id;
    segment_buffer = [];
    next_expected_sequence = 0;
    ended = false;
    total_bytes_received = 0;
    segment_queue = [];
  }

  -- A receiver that takes segments one after the other, with their sequence numbers.
  abbrev pub process_all : List (Bytes × ℕ) → Decoder C → Result StreamingError (Decoder C)
  process_all [] d = ok d
  process_all ((encoded, sequence) ∷ rest) d =
      process_segment encoded sequence d >>= process_all rest
