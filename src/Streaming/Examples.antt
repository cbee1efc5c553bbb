-- ===== src/Streaming/Examples.antt =====
-- Runs of an encoder and a decoder, and their theorems at concrete inputs.
use seigr_toolset_transmissi.Common.{
  ℕ, suc, ◌+◌, map, ◌≡◌, refl, [], ◌∷◌, ◌++◌, Bytes, some, drop, replicate, ok, arith, false, true,
}
use seigr_toolset_transmissi.Streaming.{Chunks, IsLawful}
use seigr_toolset_transmissi.Streaming.Encoder.{
  Encoder, new as new_encoder, Sent, encrypt_segment, send, send_loop, count_sent, end_stream,
  finished, abandoned, loop_until, send_until, is_empty,
}
use seigr_toolset_transmissi.Streaming.Decoder.{
  new as new_decoder, Decoder, process_all, receive_all, signal_end,
}
use seigr_toolset_transmissi.Streaming.RoundTrip.{receive_all-send}
use seigr_toolset_transmissi.Streaming.Credits.{IsAccounted, send_until-IsAccounted}
use seigr_toolset_transmissi.Streaming.Whole.{IsWhole, send_finishes}
use seigr_toolset_transmissi.Streaming.Segment.{IsOpened, decrypt-encrypt_segment}

-- A context that counts its chunks, writes the count into the header and a 7 before the data.
abbrev toy : Chunks ℕ
toy = record {
  create_stream_context = λ s i. 0;
  encrypt_chunk = λ c p. some (suc c, (c ∷ replicate 15 0, 7 ∷ p));
  decrypt_chunk = λ c h e. some (c, drop 1 e);
}

toy-IsLawful : IsLawful toy
toy-IsLawful = record {
  BelongsTo = λ s i c. Unit {0};
  created = λ s i. tt;
  encrypt_keeps =
      λ s i c c' p h e x eq. (tt, (let q : h ≡ c ∷ replicate 15 0 = cc eq in rw q refl));
  decrypt-encrypt = λ s i c c' d p h e x y eq. (d, (let q : e ≡ 7 ∷ p = cc eq in rw q refl), tt);
}

abbrev hello : Bytes
hello = 104 ∷ 101 ∷ 108 ∷ 108 ∷ 111 ∷ []

abbrev encoder : Encoder ℕ
encoder = record {
  session_id = [];
  stream_id = 1;
  segment_size = 2;
  mode = "bounded";
  stream_context = 0;
  sequence = 0;
  total_bytes_sent = 0;
  ended = false;
  credits = 100;
}

abbrev result : Sent ℕ
result = record (send_loop toy 100 hello encoder) {
  encoder = count_sent 5 finished (send_loop toy 100 hello encoder).encoder;
}

abbrev marker : Bytes
marker = 1 ∷ 3 ∷ replicate 15 0 ++ (7 ∷ 0 ∷ [])

receive_all-send_example :
    (d : Decoder ℕ) × (process_all toy
        (result.segments ++ ((marker, 3) ∷ []))
        (new_decoder toy [] 1)
      ≡ ok d)
    × (receive_all (signal_end d).segment_queue ≡ some hello)
unfolding new_encoder send send_loop count_sent end_stream encrypt_segment is_empty
receive_all-send_example =
    receive_all-send toy toy-IsLawful [] 1 2 hello encoder
      (record result.encoder { stream_context = 4; ended = true }) result (marker, 3) refl refl refl
      refl

-- The consumer takes two segments of the three, and does not resume the run behind the second one.
abbrev left_early : Sent ℕ
left_early = record (loop_until toy 1 100 hello encoder) {
  encoder = count_sent 5 abandoned (loop_until toy 1 100 hello encoder).encoder;
}

send_until-IsAccounted_example : IsAccounted toy encoder left_early
unfolding send_until loop_until count_sent encrypt_segment is_empty
send_until-IsAccounted_example = send_until-IsAccounted toy 1 hello encoder left_early refl

-- The next segment gets the number of the last one again.
number_again :
    (left_early.encoder.sequence ≡ 1)
    × (map (λ (x : Bytes × ℕ). x.1) left_early.segments ≡ 0 ∷ 1 ∷ [])
unfolding loop_until count_sent encrypt_segment is_empty
number_again = (refl, refl)

send_finishes_example :
    (sent : Sent ℕ) × (send toy hello encoder ≡ ok sent)
    × (sent.ending ≡ finished)
    × IsWhole toy hello encoder sent.segments sent.encoder.stream_context
    × (sent.encoder.total_bytes_sent ≡ 0 + 5)
send_finishes_example = send_finishes toy hello encoder (λ c p bad. cc bad) refl (omega arith)

abbrev closing : Bytes
closing = 1 ∷ 0 ∷ replicate 15 0 ++ (7 ∷ 0 ∷ [])

decrypt-encrypt_segment_example : IsOpened toy toy-IsLawful [] 1 [] closing 1 0
unfolding encrypt_segment is_empty
decrypt-encrypt_segment_example =
    decrypt-encrypt_segment toy toy-IsLawful [] 1 [] closing 0 1 0 (toy-IsLawful.created [] 1)
      (toy-IsLawful.created [] 1) refl
