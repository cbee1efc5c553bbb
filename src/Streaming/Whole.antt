-- ===== src/Streaming/Whole.antt =====
-- What BinaryStreamEncoder.send (encoder.py) sends, where its credits cover the data.
use seigr_toolset_transmissi.Common.{
  ℕ, zero, suc, ◌+◌, ◌-◌, ◌*◌, ◌≤◌, ◌≡◌, ◌≢◌, refl, [], ◌∷◌, Bytes, false, none, Option-cases,
  if◌then◌else◌, inl, inr, ok, length, length-drop, length-take, take-append-drop, List, some, take,
  drop, arith,
}
use native.Mathlib.Nat.{mul-suc}
use seigr_toolset_transmissi.Streaming.{Chunks}
use seigr_toolset_transmissi.Streaming.RoundTrip.{join}
use seigr_toolset_transmissi.Streaming.Encoder.{
  Encoder, Sent, is_empty, finished, encrypt_segment, send_loop, send, count_sent,
}

abbrev pub AllWithin : ℕ → List Bytes → Type 0
AllWithin size [] = Unit
AllWithin size (p ∷ ps) = (length p ≤ size) × AllWithin size ps

module _ {C : Type 0} (k : Chunks C) where
  encrypt_segment_total :
      (segment : Bytes) (c : C)
      → ((c : C) (p : Bytes) → k.encrypt_chunk c p ≢ none)
      → encrypt_segment k segment c ≢ none
  unfolding encrypt_segment
  encrypt_segment_total segment c never h =
      elim (Option-cases (k.encrypt_chunk c (if is_empty segment then 0 ∷ [] else segment))) [
        | inl bad ↦ never c _ bad
        | inr ((a, (h', e)), good) ↦ let x = (rw (good, encrypt_segment) at h) in cc x
      ]

  send_loop_finishes :
      (credits : ℕ) (bytes : Bytes) (e : Encoder C)
      → ((c : C) (p : Bytes) → k.encrypt_chunk c p ≢ none)
      → length bytes ≤ e.segment_size * credits
      → (send_loop k credits bytes e).ending ≡ finished
  unfolding send_loop
  send_loop_finishes credits [] e never h = refl
  send_loop_finishes zero (b ∷ bs) e never h = absurd (omega arith)
  send_loop_finishes (suc credits) (b ∷ bs) e never h =
      elim (Option-cases (encrypt_segment k (take e.segment_size (b ∷ bs)) e.stream_context)) [
        | inl bad ↦ absurd (encrypt_segment_total _ _ never bad)
        | inr ((encoded, context), good) ↦
            rw (good, send_loop)
              (send_loop_finishes credits (drop e.segment_size (b ∷ bs))
                (record e {
                  stream_context = context;
                  sequence = e.sequence + 1;
                  credits = e.credits - 1;
                })
                never
                (omega
                  (arith, length-drop e.segment_size (b ∷ bs), mul-suc e.segment_size credits)))
      ]

  -- The segments are the parts, encrypted one behind the other, under consecutive numbers.
  abbrev pub AreSegments : List Bytes → List (Bytes × ℕ) → ℕ → C → C → Type 0
  AreSegments [] [] n c after = c ≡ after
  AreSegments (p ∷ ps) ((x, m) ∷ xs) n c after =
      (mid : C) × (encrypt_segment k p c ≡ some (x, mid))
      × (m ≡ n)
      × AreSegments ps xs (n + 1) mid after
  AreSegments [] (x ∷ xs) n c after = ⊥
  AreSegments (p ∷ ps) [] n c after = ⊥

  -- All of the data are in the segments, in order, in parts of at most the segment size.
  pub record IsWhole (bytes : Bytes) (e : Encoder C) (segments : List (Bytes × ℕ)) (after : C)
      : Type 0 where
    pub parts : List Bytes
    pub joined : join parts ≡ bytes
    pub within : AllWithin e.segment_size parts
    pub sent : AreSegments parts segments e.sequence e.stream_context after

  send_loop-IsWhole :
      (credits : ℕ) (bytes : Bytes) (e : Encoder C)
      → (send_loop k credits bytes e).ending ≡ finished
      → let r = send_loop k credits bytes e in
        IsWhole bytes e r.segments r.encoder.stream_context
        × (r.encoder.total_bytes_sent ≡ e.total_bytes_sent)
  unfolding send_loop
  send_loop-IsWhole credits [] e fin =
      (record { parts = []; joined = refl; within = tt; sent = refl }, refl)
  send_loop-IsWhole zero (b ∷ bs) e fin = absurd (cc fin)
  send_loop-IsWhole (suc credits) (b ∷ bs) e fin =
      elim (Option-cases (encrypt_segment k (take e.segment_size (b ∷ bs)) e.stream_context)) [
        | inl bad ↦ absurd (let x = (rw (bad, send_loop) at fin) in cc x)
        | inr ((encoded, context), good) ↦
            let (rest, total) =
              send_loop-IsWhole credits (drop e.segment_size (b ∷ bs))
                (record e {
                  stream_context = context;
                  sequence = e.sequence + 1;
                  credits = e.credits - 1;
                })
                (rw (good, send_loop) at fin) in
            rw (good, send_loop)
              (
                record {
                  parts = take e.segment_size (b ∷ bs) ∷ rest.parts;
                  joined = rw rest.joined (take-append-drop e.segment_size (b ∷ bs));
                  within = (omega (arith, length-take e.segment_size (b ∷ bs)), rest.within);
                  sent = (context, good, refl, rest.sent);
                },
                total,
              )
      ]

  -- Where the encryption never raises, an encoder that has not ended and whose credits cover the data
  -- sends all of it: the run comes to its end, the segments are parts of at most the segment size,
  -- which together are the data, encrypted one behind the other under consecutive numbers, and the
  -- data are counted.
  pub send_finishes :
      (bytes : Bytes) (e : Encoder C)
      → ((c : C) (p : Bytes) → k.encrypt_chunk c p ≢ none)
      → e.ended ≡ false
      → length bytes ≤ e.segment_size * e.credits
      → (sent : Sent C) × (send k bytes e ≡ ok sent)
        × (sent.ending ≡ finished)
        × IsWhole bytes e sent.segments sent.encoder.stream_context
        × (sent.encoder.total_bytes_sent ≡ e.total_bytes_sent + length bytes)
  unfolding send count_sent
  send_finishes bytes e never running enough =
      let loop = send_loop k e.credits bytes e in
      let fin = send_loop_finishes e.credits bytes e never enough in
      let (whole, total) = send_loop-IsWhole e.credits bytes e fin in
      (
        record loop { encoder = count_sent (length bytes) loop.ending loop.encoder },
        rw (running, send) refl,
        fin,
        rw fin whole,
        rw fin (omega (arith, total)),
      )
