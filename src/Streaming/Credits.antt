-- ===== src/Streaming/Credits.antt =====
-- The flow control of BinaryStreamEncoder.send (encoder.py).
use seigr_toolset_transmissi.Common.{
  ℕ, zero, suc, ◌+◌, ◌-◌, ◌≤◌, ◌≡◌, ◌≢◌, ◌⊎◌, refl, ap, ◌∙◌, subst, [], ◌∷◌, Bytes, Option-cases,
  Bool-cases, inl, inr, ok, length, take, drop, arith,
}
use seigr_toolset_transmissi.Streaming.{Chunks}
use seigr_toolset_transmissi.Streaming.Encoder.{
  Encoder, Ending, Sent, finished, waiting, raised, encrypt_segment, send_loop, send, count_sent,
  abandoned, loop_until, send_until,
}

-- The segment that is yielded, where the run was abandoned there.
abbrev pub pending : Ending → ℕ
pending finished = 0
pending waiting = 0
pending raised = 0
pending abandoned = 1

module _ {C : Type 0} (k : Chunks C) where
  -- The counters before and after a run, and that a run waits only without credits.
  pub record IsAccounted (e : Encoder C) (sent : Sent C) : Type 0 where
    pub credits : e.credits + pending sent.ending ≡ sent.encoder.credits + length sent.segments
    pub sequence : sent.encoder.sequence + pending sent.ending ≡ e.sequence + length sent.segments
    pub waits : (sent.ending ≢ waiting) ⊎ (sent.encoder.credits ≡ 0)

  loop_until-IsAccounted :
      (resumed credits : ℕ) (bytes : Bytes) (e : Encoder C)
      → e.credits ≡ credits
      → IsAccounted e (loop_until k resumed credits bytes e)
  unfolding loop_until
  loop_until-IsAccounted resumed credits [] e h = record {
    credits = omega arith;
    sequence = omega arith;
    waits = inl (λ w. cc w);
  }
  loop_until-IsAccounted resumed zero (b ∷ bs) e h = record {
    credits = omega arith;
    sequence = omega arith;
    waits = inr h;
  }
  loop_until-IsAccounted zero (suc credits) (b ∷ bs) e h =
      elim (Option-cases (encrypt_segment k (take e.segment_size (b ∷ bs)) e.stream_context)) [
        | inl bad ↦
            rw (bad, loop_until)
              (record { credits = omega arith; sequence = omega arith; waits = inl (λ w. cc w) })
        | inr ((encoded, context), good) ↦
            rw (good, loop_until)
              (record { credits = omega arith; sequence = omega arith; waits = inl (λ w. cc w) })
      ]
  loop_until-IsAccounted (suc resumed) (suc credits) (b ∷ bs) e h =
      elim (Option-cases (encrypt_segment k (take e.segment_size (b ∷ bs)) e.stream_context)) [
        | inl bad ↦
            rw (bad, loop_until)
              (record { credits = omega arith; sequence = omega arith; waits = inl (λ w. cc w) })
        | inr ((encoded, context), good) ↦
            let later =
              loop_until-IsAccounted resumed credits (drop e.segment_size (b ∷ bs))
                (record e {
                  stream_context = context;
                  sequence = e.sequence + 1;
                  credits = e.credits - 1;
                })
                (omega arith) in
            rw (good, loop_until)
              (record {
                credits = omega (arith, later.credits);
                sequence = omega (arith, later.sequence);
                waits = later.waits;
              })
      ]

  count_sent_keeps :
      (size : ℕ) (ending : Ending) (e : Encoder C)
      → ((count_sent size ending e).credits ≡ e.credits)
        × ((count_sent size ending e).sequence ≡ e.sequence)
  unfolding count_sent
  count_sent_keeps size finished e = (refl, refl)
  count_sent_keeps size waiting e = (refl, refl)
  count_sent_keeps size raised e = (refl, refl)
  count_sent_keeps size abandoned e = (refl, refl)

  count_sent-IsAccounted :
      (size : ℕ) (e : Encoder C) (sent : Sent C)
      → IsAccounted e sent
      → IsAccounted e (record sent { encoder = count_sent size sent.ending sent.encoder })
  count_sent-IsAccounted size e sent h =
      let kept = count_sent_keeps size sent.ending sent.encoder in
      record {
        credits = omega (arith, kept, h.credits);
        sequence = omega (arith, kept, h.sequence);
        waits = elim h.waits [ inl w ↦ inl w | inr z ↦ inr (omega (arith, kept)) ];
      }

  send_until-inv :
      (resumed : ℕ) (bytes : Bytes) (e : Encoder C) (sent : Sent C)
      → send_until k resumed bytes e ≡ ok sent
      → let loop = loop_until k resumed e.credits bytes e in
        record loop { encoder = count_sent (length bytes) loop.ending loop.encoder } ≡ sent
  unfolding send_until
  send_until-inv resumed bytes e sent h = elim (Bool-cases e.ended) [
    | inl t ↦ absurd (let x = (rw (t, send_until) at h) in cc x)
    | inr f ↦ let x = (rw (f, send_until) at h) in cc x
  ]

  -- However a run of `send` stops, at its end, at a wait, where the encryption raises, or at a segment
  -- behind which its consumer does not resume it: each segment has taken one credit and one sequence
  -- number, but the last one of a run that is not resumed has taken neither; and a run waits only
  -- where no credit is left.
  pub send_until-IsAccounted :
      (resumed : ℕ) (bytes : Bytes) (e : Encoder C) (sent : Sent C)
      → send_until k resumed bytes e ≡ ok sent
      → IsAccounted e sent
  send_until-IsAccounted resumed bytes e sent h =
      let loop = loop_until k resumed e.credits bytes e in
      subst (λ (t : Sent C). IsAccounted e t) (send_until-inv resumed bytes e sent h)
        (count_sent-IsAccounted (length bytes) e loop
          (loop_until-IsAccounted resumed e.credits bytes e refl))

  loop_until-send_loop :
      (resumed credits : ℕ) (bytes : Bytes) (e : Encoder C)
      → credits ≤ resumed
      → loop_until k resumed credits bytes e ≡ send_loop k credits bytes e
  unfolding loop_until send_loop
  loop_until-send_loop resumed credits [] e h = refl
  loop_until-send_loop resumed zero (b ∷ bs) e h = refl
  loop_until-send_loop zero (suc credits) (b ∷ bs) e h = absurd (omega arith)
  loop_until-send_loop (suc resumed) (suc credits) (b ∷ bs) e h =
      elim (Option-cases (encrypt_segment k (take e.segment_size (b ∷ bs)) e.stream_context)) [
        | inl bad ↦ rw (bad, loop_until, send_loop) refl
        | inr ((encoded, context), good) ↦
            let next = record e {
              stream_context = context;
              sequence = e.sequence + 1;
              credits = e.credits - 1;
            } in
            rw (good, loop_until, send_loop)
              (ap
                (λ (later : Sent C). record later {
                  segments = (encoded, e.sequence) ∷ later.segments;
                })
                (loop_until-send_loop resumed credits (drop e.segment_size (b ∷ bs)) next
                  (omega arith)))
      ]

  -- A consumer that resumes the run as often as there are credits takes all of it.
  pub send_until-send :
      (resumed : ℕ) (bytes : Bytes) (e : Encoder C)
      → e.credits ≤ resumed
      → send_until k resumed bytes e ≡ send k bytes e
  unfolding send_until send
  send_until-send resumed bytes e h = rw (loop_until-send_loop resumed e.credits bytes e h) refl

  pub send-IsAccounted :
      (bytes : Bytes) (e : Encoder C) (sent : Sent C)
      → send k bytes e ≡ ok sent
      → IsAccounted e sent
  send-IsAccounted bytes e sent h =
      send_until-IsAccounted e.credits bytes e sent
        (send_until-send e.credits bytes e (omega arith) ∙ h)
