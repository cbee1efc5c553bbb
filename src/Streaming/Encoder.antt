-- ===== src/Streaming/Encoder.antt =====
-- seigr_toolset_transmissions/streaming/encoder.py, class BinaryStreamEncoder. `send` is a generator:
-- it is run up to its end, or to the first wait for credits, or, in `send_until`, to a segment behind
-- which its consumer does not resume it. The event of that wait only wakes it, so
-- it has no field here. Segment sizes and credits are not negative.
use Prim.Native.String.{String}
use seigr_toolset_transmissi.Common.{
  ℕ, zero, suc, ◌+◌, ◌-◌, List, [], ◌∷◌, ◌++◌, Bytes, Bool, true, false, not, ◌||◌, Option, none,
  some, Result, ok, err, ◌>>◌, raise_if, if◌then◌else◌, length, take, drop,
}
use seigr_toolset_transmissi.Common.Dict.{◌===◌, string_eq}
use seigr_toolset_transmissi.Streaming.{
  Chunks, StreamingError, invalid_mode, stream_ended, live_mode, encryption_failed,
}

pub record Encoder (C : Type 0) : Type 0 where
  pub session_id : Bytes
  pub stream_id : ℕ
  pub segment_size : ℕ
  pub mode : String
  pub stream_context : C
  pub sequence : ℕ
  pub total_bytes_sent : ℕ
  pub ended : Bool
  pub credits : ℕ

-- How a run of `send` stops: at its end, at a wait for credits, where the encryption raises, or at a
-- `yield` from which it is not resumed.
pub data Ending : Type 0 where
  finished waiting raised abandoned : Ending

pub record Sent (C : Type 0) : Type 0 where
  pub segments : List (Bytes × ℕ)
  pub encoder : Encoder C
  pub ending : Ending

unfoldable pub is_empty : Bytes → Bool
is_empty [] = true
is_empty (b ∷ bs) = false

module _ {C : Type 0} where
  unfoldable pub count_sent : ℕ → Ending → Encoder C → Encoder C
  count_sent size finished e = record e { total_bytes_sent = e.total_bytes_sent + size }
  count_sent size waiting e = e
  count_sent size raised e = e
  count_sent size abandoned e = e

  unfoldable pub marked_end :
      Encoder C → Option (Bytes × C) → Result StreamingError (Option (Bytes × ℕ) × Encoder C)
  marked_end e none = err encryption_failed
  marked_end e (some (marker, context)) =
      ok (some (marker, e.sequence), record e { stream_context = context; ended = true })

  -- `add_credits`
  unfoldable pub add_credits : ℕ → Encoder C → Encoder C
  add_credits credits e = record e { credits = e.credits + credits }

module _ {C : Type 0} (k : Chunks C) where
  -- `__init__`
  unfoldable pub new : Bytes → ℕ → ℕ → String → Result StreamingError (Encoder C)
  new session_id stream_id segment_size mode = do
    raise_if (not ((mode === "live") || (mode === "bounded"))) invalid_mode
    ok (record {
      session_id = session_id;
      stream_id = stream_id;
      segment_size = segment_size;
      mode = mode;
      stream_context = k.create_stream_context session_id stream_id;
      sequence = 0;
      total_bytes_sent = 0;
      ended = false;
      credits = 100;
    })

  -- `_encrypt_segment`
  unfoldable pub encrypt_segment : Bytes → C → Option (Bytes × C)
  unfolding is_empty
  encrypt_segment segment context =
      elim (k.encrypt_chunk context (if is_empty segment then 0 ∷ [] else segment)) [
        | none ↦ none
        | some (after, (header, encrypted)) ↦
            some (((if is_empty segment then 1 else 0) ∷ []) ++ (header ++ encrypted), after)
      ]

  -- The loop of `send` over the data from `offset` on. Its first argument is the encoder's credits.
  unfoldable pub send_loop : ℕ → Bytes → Encoder C → Sent C
  send_loop credits [] e = record { segments = []; encoder = e; ending = finished }
  send_loop zero (b ∷ bs) e = record { segments = []; encoder = e; ending = waiting }
  send_loop (suc credits) (b ∷ bs) e =
      elim (encrypt_segment (take e.segment_size (b ∷ bs)) e.stream_context) [
        | none ↦ record { segments = []; encoder = e; ending = raised }
        | some (encrypted, context) ↦
            let later = send_loop credits (drop e.segment_size (b ∷ bs)) (record e {
              stream_context = context;
              sequence = e.sequence + 1;
              credits = e.credits - 1;
            }) in
            record later { segments = (encrypted, e.sequence) ∷ later.segments }
      ]

  -- `send`
  unfoldable pub send : Bytes → Encoder C → Result StreamingError (Sent C)
  unfolding count_sent
  send bytes e = do
    raise_if e.ended stream_ended
    let sent = send_loop e.credits bytes e in
        ok (record sent { encoder = count_sent (length bytes) sent.ending sent.encoder })

  -- The same loop for a consumer that resumes it this many times: behind the `yield` that it leaves, the
  -- sequence and the credits do not change.
  unfoldable pub loop_until : ℕ → ℕ → Bytes → Encoder C → Sent C
  loop_until resumed credits [] e = record { segments = []; encoder = e; ending = finished }
  loop_until resumed zero (b ∷ bs) e = record { segments = []; encoder = e; ending = waiting }
  loop_until zero (suc credits) (b ∷ bs) e =
      elim (encrypt_segment (take e.segment_size (b ∷ bs)) e.stream_context) [
        | none ↦ record { segments = []; encoder = e; ending = raised }
        | some (encrypted, context) ↦ record {
          segments = (encrypted, e.sequence) ∷ [];
          encoder = record e { stream_context = context };
          ending = abandoned;
        }
      ]
  loop_until (suc resumed) (suc credits) (b ∷ bs) e =
      elim (encrypt_segment (take e.segment_size (b ∷ bs)) e.stream_context) [
        | none ↦ record { segments = []; encoder = e; ending = raised }
        | some (encrypted, context) ↦
            let later = loop_until resumed credits (drop e.segment_size (b ∷ bs)) (record e {
              stream_context = context;
              sequence = e.sequence + 1;
              credits = e.credits - 1;
            }) in
            record later { segments = (encrypted, e.sequence) ∷ later.segments }
      ]

  -- `send`, with a consumer that resumes it this many times
  unfoldable pub send_until : ℕ → Bytes → Encoder C → Result StreamingError (Sent C)
  unfolding count_sent
  send_until resumed bytes e = do
    raise_if e.ended stream_ended
    let sent = loop_until resumed e.credits bytes e in
        ok (record sent { encoder = count_sent (length bytes) sent.ending sent.encoder })

  -- `end`
  unfoldable pub end_stream : Encoder C → Result StreamingError (Option (Bytes × ℕ) × Encoder C)
  unfolding marked_end
  end_stream e = do
    raise_if (e.mode === "live") live_mode
    if e.ended then ok (none, e) else marked_end e (encrypt_segment [] e.stream_context)

  -- `reset`
  unfoldable pub reset : Encoder C → Encoder C
  reset e = record e {
    stream_context = k.create_stream_context e.session_id e.stream_id;
    sequence = 0;
    total_bytes_sent = 0;
    ended = false;
    credits = 100;
  }
