-- ===== src/Frame/Wire/Truncation.antt =====
-- A frame that has not arrived whole is never accepted.
use seigr_toolset_transmissi.Common.{
  ℕ, ◌^◌, ◌<◌, ◌≡◌, refl, ap, ◌∙◌, [], ◌∷◌, ◌++◌, append_split, inl, inr, Bytes, Bool, Option, ok,
  err, leb, length, length-append, arith, Bool-cases,
}
use seigr_toolset_transmissi.Frame.{
  Frame, FrameError, bad_length, insufficient_data, no_magic, stt_magic,
}
use seigr_toolset_transmissi.Frame.Wire.{frame_body, to_bytes, from_bytes}
use seigr_toolset_transmissi.Frame.Wire.RoundTrip.{to_bytes-inv}
use seigr_toolset_transmissi.Stc.{Stc}
use seigr_toolset_transmissi.Varint.{insufficient, incomplete, encode_nat}
use seigr_toolset_transmissi.Varint.Decode.{decode_varint-prefix, decode_varint_offset}
use seigr_toolset_transmissi.Varint.RoundTrip.{decode-encode}

-- Less than the frame's length, or no complete length.
cut_short :
    (front' : Bytes) (x : ℕ) (back body : Bytes) (decrypt : Bool) (wrapper : Option Stc)
    → length body < 2 ^ 70
    → front' ++ (x ∷ back) ≡ encode_nat (length body) ++ body
    → (e : FrameError) × (from_bytes (stt_magic ++ front') decrypt wrapper ≡ err e)
unfolding from_bytes
cut_short front' x back body decrypt wrapper fits e =
    elim (append_split front' (x ∷ back) (encode_nat (length body)) body e) [
      | inl (z, zs, p) ↦
          let bad =
            decode_varint_offset stt_magic front'
            ∙ decode_varint-prefix (length body) z front' zs fits p in
          elim (Bool-cases (leb (length front') 0)) [
            | inl h ↦ (bad_length insufficient, ground (arith, bad, h))
            | inr h ↦ (bad_length incomplete, ground (arith, bad, h))
          ]
      | inr (p, q, r) ↦
          let sized = decode-encode (length body) stt_magic p in
          (
            insufficient_data,
            rw q (
                ground (
                  arith,
                  sized,
                  length-append (encode_nat (length body)) p,
                  length-append p (x ∷ back),
                  ap (λ (t : Bytes). length t) r,
                )),
          )
    ]

-- Every proper prefix of what `to_bytes` wrote is refused by `from_bytes`.
pub from_bytes_truncated :
    (f : Frame) (x : ℕ) (front back : Bytes) (decrypt : Bool) (wrapper : Option Stc)
    → to_bytes f ≡ ok (front ++ (x ∷ back))
    → (e : FrameError) × (from_bytes front decrypt wrapper ≡ err e)
from_bytes_truncated f x [] back decrypt wrapper sent = (no_magic, unfold from_bytes in refl)
from_bytes_truncated f x (a ∷ []) back decrypt wrapper sent = (no_magic, unfold from_bytes in refl)
from_bytes_truncated f x (a ∷ b ∷ front') back decrypt wrapper sent =
    let (h, packed, small, e) = to_bytes-inv f (a ∷ b ∷ (front' ++ (x ∷ back))) sent in
    let (err', refused) =
      cut_short front' x back (frame_body h f) decrypt wrapper (omega arith) (cc e) in
    let ea : a ≡ 0x53 = cc e in let eb : b ≡ 0x54 = cc e in (err', rw (ea, eb) refused)
