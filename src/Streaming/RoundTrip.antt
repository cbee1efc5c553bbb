-- ===== src/Streaming/RoundTrip.antt =====
-- A whole stream: what BinaryStreamDecoder makes of the segments of BinaryStreamEncoder.
use seigr_toolset_transmissi.Common.{
  ℕ, zero, suc, ◌+◌, ◌-◌, ◌≡◌, refl, ap, ◌∙◌, List, [], ◌∷◌, ◌++◌, map, append_assoc, append-nil,
  Bytes, true, false, Option, none, some, Option-cases, Bool-cases, subst, inl, inr, ok, >>=-eq-ok,
  ◌==◌, ==_iff, length, take, drop, take-append-drop,
}
use seigr_toolset_transmissi.Common.Dict.{◌===◌, string_eq, get, put, remove, nat_eq}
use seigr_toolset_transmissi.Reorder.{drain}
use seigr_toolset_transmissi.Streaming.{Chunks, IsLawful}
use seigr_toolset_transmissi.Streaming.Encoder.{
  Encoder, Sent, finished, encrypt_segment, send_loop, send, count_sent, end_stream,
}
use seigr_toolset_transmissi.Streaming.Encoder.{new as new_encoder, marked_end}
use seigr_toolset_transmissi.Streaming.Decoder.{
  new as new_decoder, Decoder, deliver, store, process_segment, process_all, receive_all,
  signal_end,
}
use seigr_toolset_transmissi.Streaming.Segment.{decrypt-encrypt_segment}

drain_one :
    (n : ℕ) (x : Bytes)
    → drain (length (put n x [])) n (put n x []) []
      ≡ record { next = n + 1; buffer = []; out = x ∷ [] }
unfolding drain put get remove
drain_one n x =
    let e : (n == n) ≡ true = (==_iff n n).1 refl in rw (drain, e, drain, remove, e) refl

abbrev pub join : List Bytes → Bytes
join [] = []
join (x ∷ xs) = x ++ join xs

-- What is queued before the two end markers is read as one byte string.
receive_all-map :
    (parts : List Bytes)
    → receive_all ((map some parts ++ (some [] ∷ [])) ++ (none ∷ [])) ≡ some (join parts)
unfolding receive_all
receive_all-map [] = refl
receive_all-map (x ∷ xs) = rw (receive_all-map xs) refl

module _ {C : Type 0} (k : Chunks C) where
  process_all-append :
      (xs ys : List (Bytes × ℕ)) (d d' : Decoder C)
      → process_all k xs d ≡ ok d'
      → process_all k (xs ++ ys) d ≡ process_all k ys d'
  process_all-append [] ys d d' h = cc h
  process_all-append ((encoded, sequence) ∷ xs) ys d d' h =
      let (d1, one, rest) = >>=-eq-ok (process_segment k encoded sequence d) (process_all k xs) h in
      rw one (process_all-append xs ys d1 d' rest)

module _ {C : Type 0} (k : Chunks C) (lawful : IsLawful k) (s : Bytes) (i : ℕ) where
  -- A decoder that has taken all segments below `next`, in order.
  pub record IsAt (next : ℕ) (queue : List (Option Bytes)) (d : Decoder C) : Type 0 where
    pub nothing_waits : d.segment_buffer ≡ []
    pub in_turn : d.next_expected_sequence ≡ next
    pub queued : d.segment_queue ≡ queue
    pub still_open : d.ended ≡ false
    pub context : lawful.BelongsTo s i d.stream_context

  take_in_turn :
      (segment : Bytes) (next : ℕ) (queue : List (Option Bytes)) (d : Decoder C) (after : C)
      → IsAt next queue d
      → lawful.BelongsTo s i after
      → IsAt (next + 1) (queue ++ (some segment ∷ [])) (deliver (store next segment after d))
  unfolding deliver store
  take_in_turn segment next queue d after at h =
      rw (at.nothing_waits, at.in_turn, drain_one next segment)
        (record {
          nothing_waits = refl;
          in_turn = refl;
          queued = ap (λ (q : List (Option Bytes)). q ++ (some segment ∷ [])) at.queued;
          still_open = at.still_open;
          context = h;
        })

  process_in_turn :
      (segment encoded : Bytes) (next : ℕ) (queue : List (Option Bytes)) (c c' : C) (d : Decoder C)
      → lawful.BelongsTo s i c
      → IsAt next queue d
      → encrypt_segment k segment c ≡ some (encoded, c')
      → (d' : Decoder C) × (process_segment k encoded next d ≡ ok d')
        × IsAt (next + 1) (queue ++ (some segment ∷ [])) d'
        × lawful.BelongsTo s i c'
  unfolding process_segment
  process_in_turn segment encoded next queue c c' d hc at eq =
      let o =
        decrypt-encrypt_segment k lawful s i segment encoded c c' d.stream_context hc at.context
          eq in
      (
        deliver (store next segment o.after d),
        rw (o.opens, process_segment) refl,
        take_in_turn segment next queue d o.after at o.receiver,
        o.sender,
      )

  -- What a whole run of `send` has brought to the decoder.
  pub record IsCarried (bytes : Bytes) (queue : List (Option Bytes)) (sent : Sent C) (d : Decoder C)
      : Type 0 where
    pub after : Decoder C
    pub parts : List Bytes
    pub joined : join parts ≡ bytes
    pub processed : process_all k sent.segments d ≡ ok after
    pub receiver : IsAt sent.encoder.sequence (queue ++ map some parts) after
    pub sender : lawful.BelongsTo s i sent.encoder.stream_context

  pub send_loop-IsCarried :
      (credits : ℕ) (bytes : Bytes) (e : Encoder C) (queue : List (Option Bytes)) (d : Decoder C)
      → lawful.BelongsTo s i e.stream_context
      → IsAt e.sequence queue d
      → (send_loop k credits bytes e).ending ≡ finished
      → IsCarried bytes queue (send_loop k credits bytes e) d
  unfolding send_loop
  send_loop-IsCarried credits [] e queue d hc at fin = record {
    after = d;
    parts = [];
    joined = refl;
    processed = refl;
    receiver = rw (append-nil queue) at;
    sender = hc;
  }
  send_loop-IsCarried zero (b ∷ bs) e queue d hc at fin = absurd (cc fin)
  send_loop-IsCarried (suc credits) (b ∷ bs) e queue d hc at fin =
      elim (Option-cases (encrypt_segment k (take e.segment_size (b ∷ bs)) e.stream_context)) [
        | inl bad ↦ absurd (let x = (rw (bad, send_loop) at fin) in cc x)
        | inr ((encoded, context), good) ↦
            let one =
              process_in_turn (take e.segment_size (b ∷ bs)) encoded e.sequence queue
                e.stream_context context d hc at good in
            let rest =
              send_loop-IsCarried credits (drop e.segment_size (b ∷ bs))
                (record e {
                  stream_context = context;
                  sequence = e.sequence + 1;
                  credits = e.credits - 1;
                })
                (queue ++ (some (take e.segment_size (b ∷ bs)) ∷ [])) one.0 one.3 one.2
                (rw (good, send_loop) at fin) in
            rw (good, send_loop)
              (record {
                after = rest.after;
                parts = take e.segment_size (b ∷ bs) ∷ rest.parts;
                joined = rw rest.joined (take-append-drop e.segment_size (b ∷ bs));
                processed = rw one.1 rest.processed;
                receiver =
                    rw
                      (← append_assoc queue (some (take e.segment_size (b ∷ bs)) ∷ [])
                        (map some rest.parts))
                      rest.receiver;
                sender = rest.sender;
              })
      ]

  start-IsAt : IsAt 0 [] (new_decoder k s i)
  unfolding new_decoder
  start-IsAt = record {
    nothing_waits = refl;
    in_turn = refl;
    queued = refl;
    still_open = refl;
    context = lawful.created s i;
  }

  end_stream-inv :
      (e e' : Encoder C) (marker : Bytes) (sequence : ℕ)
      → end_stream k e ≡ ok (some (marker, sequence), e')
      → (c : C) × (encrypt_segment k [] e.stream_context ≡ some (marker, c))
        × (e.sequence ≡ sequence)
  unfolding end_stream marked_end
  end_stream-inv e e' marker sequence h = elim (Bool-cases (e.mode === "live")) [
    | inl a ↦ absurd (let x = (rw (a, end_stream) at h) in cc x)
    | inr a ↦ elim (Bool-cases e.ended) [
      | inl b ↦ absurd (let x = (rw (a, b, end_stream) at h) in cc x)
      | inr b ↦ elim (Option-cases (encrypt_segment k [] e.stream_context)) [
        | inl bad ↦ absurd (let x = (rw (a, b, bad, end_stream) at h) in cc x)
        | inr ((m, c), good) ↦ let x = (rw (a, b, good, end_stream) at h) in (c, cc (good, x), cc x)
      ]
    ]
  ]

  count_sent-IsCarried :
      (bytes : Bytes) (queue : List (Option Bytes)) (sent : Sent C) (d : Decoder C) (size : ℕ)
      → sent.ending ≡ finished
      → IsCarried bytes queue sent d
      → IsCarried bytes queue (record sent { encoder = count_sent size sent.ending sent.encoder }) d
  unfolding count_sent
  count_sent-IsCarried bytes queue sent d size fin h = rw fin (record {
    after = h.after;
    parts = h.parts;
    joined = h.joined;
    processed = h.processed;
    receiver = h.receiver;
    sender = h.sender;
  })

  pub send-IsCarried :
      (bytes : Bytes) (e : Encoder C) (queue : List (Option Bytes)) (d : Decoder C) (sent : Sent C)
      → lawful.BelongsTo s i e.stream_context
      → IsAt e.sequence queue d
      → send k bytes e ≡ ok sent
      → sent.ending ≡ finished
      → IsCarried bytes queue sent d
  unfolding send
  send-IsCarried bytes e queue d sent hc at hs fin = elim (Bool-cases e.ended) [
    | inl t ↦ absurd (let x = (rw (t, send) at hs) in cc x)
    | inr f ↦
        let x = (rw (f, send) at hs) in
        let loop = send_loop k e.credits bytes e in
        let same : record loop { encoder = count_sent (length bytes) loop.ending loop.encoder }
            ≡ sent =
          cc x in
        let done : loop.ending ≡ finished = ap (λ (t : Sent C). t.ending) same ∙ fin in
        subst (λ (t : Sent C). IsCarried bytes queue t d) same
          (count_sent-IsCarried bytes queue loop d (length bytes) done
            (send_loop-IsCarried e.credits bytes e queue d hc at done))
  ]

  new-IsAt :
      (size : ℕ) (e : Encoder C)
      → new_encoder k s i size "bounded" ≡ ok e
      → lawful.BelongsTo s i e.stream_context × IsAt e.sequence [] (new_decoder k s i)
  unfolding new_encoder
  new-IsAt size e h =
      let context : k.create_stream_context s i ≡ e.stream_context = cc h in
      let sequence : 0 ≡ e.sequence = cc h in
      (
        subst (λ (c : C). lawful.BelongsTo s i c) context (lawful.created s i),
        subst (λ (n : ℕ). IsAt n [] (new_decoder k s i)) sequence start-IsAt,
      )

  read_out :
      (parts : List Bytes) (next : ℕ) (d : Decoder C)
      → IsAt next (map some parts ++ (some [] ∷ [])) d
      → receive_all (signal_end d).segment_queue ≡ some (join parts)
  unfolding signal_end
  read_out parts next d at = rw (at.still_open, signal_end, at.queued) (receive_all-map parts)

  -- A bounded stream: all segments of one `send` and the end marker, taken in order by a new decoder,
  -- read as the bytes that were sent.
  pub receive_all-send :
      (size : ℕ) (bytes : Bytes) (e e' : Encoder C) (sent : Sent C) (marker : Bytes × ℕ)
      → new_encoder k s i size "bounded" ≡ ok e
      → send k bytes e ≡ ok sent
      → sent.ending ≡ finished
      → end_stream k sent.encoder ≡ ok (some marker, e')
      → (d : Decoder C) × (process_all k (sent.segments ++ (marker ∷ [])) (new_decoder k s i)
          ≡ ok d)
        × (receive_all (signal_end d).segment_queue ≡ some bytes)
  receive_all-send size bytes e e' sent marker he hs fin hm =
      let start = new-IsAt size e he in
      let c = send-IsCarried bytes e [] (new_decoder k s i) sent start.0 start.1 hs fin in
      let m = end_stream-inv sent.encoder e' marker.0 marker.1 hm in
      let last =
        process_in_turn [] marker.0 sent.encoder.sequence (map some c.parts)
          sent.encoder.stream_context m.0 c.after c.sender c.receiver m.1 in
      (
        last.0,
        process_all-append k sent.segments (marker ∷ []) (new_decoder k s i) c.after c.processed
            ∙ rw (← m.2, last.1) refl,
        read_out c.parts (sent.encoder.sequence + 1) last.0 last.2
            ∙ ap (λ (x : Bytes). some x) c.joined,
      )
