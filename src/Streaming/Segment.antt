-- ===== src/Streaming/Segment.antt =====
-- One segment: `_decrypt_segment` (decoder.py) against `_encrypt_segment` (encoder.py).
use seigr_toolset_transmissi.Common.{
  ℕ, suc, ◌≡◌, refl, ap, ◌∙◌, [], ◌∷◌, ◌++◌, Bytes, false, some, Option-cases, inl, inr, ltb, ◌==◌,
  if◌then◌else◌, length, length-append, take_prefix, drop_prefix, arith,
}
use seigr_toolset_transmissi.Common.Dict.{string_eq, nat_eq}
use seigr_toolset_transmissi.Streaming.{Chunks, IsLawful}
use seigr_toolset_transmissi.Streaming.Encoder.{is_empty, encrypt_segment}
use seigr_toolset_transmissi.Streaming.Decoder.{first_byte, decrypt_segment}

module _ {C : Type 0} (k : Chunks C) (lawful : IsLawful k) (s : Bytes) (i : ℕ) where
  -- The parts of an encoded segment, where the header has its 16 bytes.
  decrypt_parts :
      (flag : ℕ) (h e p : Bytes) (d d' : C)
      → length h ≡ 16
      → k.decrypt_chunk d h e ≡ some (d', p)
      → decrypt_segment k ((flag ∷ []) ++ (h ++ e)) d ≡ some (if flag == 1 then [] else p, d')
  unfolding decrypt_segment first_byte
  decrypt_parts flag h e p d d' len eq =
      let long : ltb (suc (length (h ++ e))) 17 ≡ false = ground (arith, length-append h e) in
      rw (long, take_prefix 16 h e len, drop_prefix 16 h e len, eq) refl

  pub record IsOpened (segment encoded : Bytes) (c' d : C) : Type 0 where
    pub after : C
    pub opens : decrypt_segment k encoded d ≡ some (segment, after)
    pub sender : lawful.BelongsTo s i c'
    pub receiver : lawful.BelongsTo s i after

  encrypt_segment-inv :
      (segment encoded : Bytes) (c c' : C)
      → encrypt_segment k segment c ≡ some (encoded, c')
      → (h : Bytes) × (e : Bytes) × (k.encrypt_chunk c
            (if is_empty segment then 0 ∷ [] else segment)
          ≡ some (c', (h, e)))
        × (encoded ≡ ((if is_empty segment then 1 else 0) ∷ []) ++ (h ++ e))
  unfolding encrypt_segment
  encrypt_segment-inv segment encoded c c' eq =
      elim (Option-cases (k.encrypt_chunk c (if is_empty segment then 0 ∷ [] else segment))) [
        | inl bad ↦ absurd (let x = (rw (bad, encrypt_segment) at eq) in cc x)
        | inr ((a, (h, e)), good) ↦
            let x = (rw (good, encrypt_segment) at eq) in (h, e, cc (x, good), cc x)
      ]

  flag_kept :
      (segment : Bytes)
      → (if (if is_empty segment then 1 else 0) == 1
          then []
          else (if is_empty segment then 0 ∷ [] else segment))
        ≡ segment
  unfolding is_empty
  flag_kept [] = refl
  flag_kept (b ∷ bs) = refl

  -- Every encrypted segment, the empty one of the end marker included, decrypts to what was encrypted,
  -- with any context of the same stream, under a lawful crypto context.
  pub decrypt-encrypt_segment :
      (segment encoded : Bytes) (c c' d : C)
      → lawful.BelongsTo s i c
      → lawful.BelongsTo s i d
      → encrypt_segment k segment c ≡ some (encoded, c')
      → IsOpened segment encoded c' d
  decrypt-encrypt_segment segment encoded c c' d hc hd eq =
      let (h, e, cut, shape) = encrypt_segment-inv segment encoded c c' eq in
      let pad : Bytes = if is_empty segment then 0 ∷ [] else segment in
      let flag : ℕ = if is_empty segment then 1 else 0 in
      let kept = lawful.encrypt_keeps s i c c' pad h e hc cut in
      let opened = lawful.decrypt-encrypt s i c c' d pad h e hc hd cut in
      record {
        after = opened.0;
        opens =
            ap (λ (x : Bytes). decrypt_segment k x d) shape
            ∙ decrypt_parts flag h e pad d opened.0 kept.1 opened.1
            ∙ ap (λ (x : Bytes). some (x, opened.0)) (flag_kept segment);
        sender = kept.0;
        receiver = opened.2;
      }
