-- ===== src/Frame/Wire/RoundTrip.antt =====
-- `from_bytes` reads back what `to_bytes` wrote.
use seigr_toolset_transmissi.Common.{
  ℕ, ◌+◌, ◌^◌, ◌≤◌, ◌≡◌, refl, ap, ◌∙◌, ◌∷◌, ◌++◌, append_assoc, Bytes, Bool, true, false, Option,
  some, ok, ◌>>=◌, Result-cases, inl, inr, lt→ltb, length, length-append, arith,
}
use seigr_toolset_transmissi.Frame.{Frame, stt_magic, stt_max_frame_size, post_init}
use seigr_toolset_transmissi.Frame.Cipher.{
  encrypt_payload, decrypt_payload, decrypt-encrypt_payload, encrypt_payload-inv,
}
use seigr_toolset_transmissi.Frame.Wire.{
  pack_header, metadata_part, frame_body, to_bytes, from_bytes, parse_body, decrypt_requested,
}
use seigr_toolset_transmissi.Frame.Wire.Headers.{unpack-pack_header}
use seigr_toolset_transmissi.Frame.Wire.Body.{received, meta_length-le-part, parse_body-body}
use seigr_toolset_transmissi.Stc.{Stc, IsLawful}
use seigr_toolset_transmissi.Varint.{encode_nat, decode_varint}
use seigr_toolset_transmissi.Varint.RoundTrip.{decode-encode}

post_init-length : (f : Frame) → post_init f ≡ ok f → length f.session_id ≡ 8
unfolding post_init
post_init-length f h = ground arith

-- `to_bytes` returned: the packed header, the size of the body, and the data.
pub to_bytes-inv :
    (f : Frame) (bs : Bytes)
    → to_bytes f ≡ ok bs
    → (h : Bytes) × (pack_header f ≡ ok h)
      × (length (frame_body h f) ≤ stt_max_frame_size)
      × (bs ≡ stt_magic ++ (encode_nat (length (frame_body h f)) ++ frame_body h f))
unfolding to_bytes
to_bytes-inv f bs e = elim (Result-cases (pack_header f)) [
  | inl (h, p) ↦ (h, p, ground (arith, p, e), ground (arith, p, e))
  | inr (x, p) ↦ absurd (ground (arith, p, e))
]

-- The checks before the body.
from_bytes-parse_body :
    (tail : Bytes) (decrypt : Bool) (wrapper : Option Stc) (n k : ℕ)
    → decode_varint (stt_magic ++ tail) 2 ≡ ok (n, k)
    → 2 + k + n ≤ length (stt_magic ++ tail)
    → 30 ≤ n
    → from_bytes (stt_magic ++ tail) decrypt wrapper
      ≡ parse_body (stt_magic ++ tail) decrypt wrapper (2 + k) (2 + k + n)
unfolding from_bytes
from_bytes-parse_body tail decrypt wrapper n k sized enough big = ground (arith, sized)

length-frame_body :
    (f : Frame) (h : Bytes)
    → length h ≡ 30
    → length (frame_body h f) ≡ 30 + length (metadata_part f.crypto_metadata) + length f.payload
unfolding frame_body
length-frame_body f h size = omega (
  arith,
  length-append h (metadata_part f.crypto_metadata ++ f.payload),
  length-append (metadata_part f.crypto_metadata) f.payload,
)

-- The data of a frame, with anything behind it: `from_bytes` parses the body up to the frame's end.
from_bytes-body :
    (f : Frame) (bs rest : Bytes) (decrypt : Bool) (wrapper : Option Stc)
    → post_init f ≡ ok f
    → to_bytes f ≡ ok bs
    → from_bytes (bs ++ rest) decrypt wrapper
      ≡ (decrypt_requested decrypt wrapper (received f) >>= λ g. ok (g, length bs))
from_bytes-body f bs rest decrypt wrapper valid sent =
    let (h, packed, small, e) = to_bytes-inv f bs sent in
    let ls = post_init-length f valid in
    let size = length-frame_body f h (unpack-pack_header f h ls packed).1 in
    let body = frame_body h f in
    let coded = encode_nat (length body) in
    let whole : bs ++ rest ≡ stt_magic ++ (coded ++ (body ++ rest)) =
      ap (λ t. t ++ rest) e ∙ simp append_assoc in
    let total : length bs ≡ 2 + length coded + length body =
      ap length e ∙ omega (arith, length-append coded body) in
    let sized = decode-encode (length body) stt_magic (body ++ rest) in
    let checked =
      from_bytes-parse_body (coded ++ (body ++ rest)) decrypt wrapper (length body) (length coded)
        (rw (lt→ltb (length body) (2 ^ 70) (omega arith)) at sized)
        (omega (arith, length-append coded (body ++ rest), length-append body rest))
        (omega arith) in
    let parsed =
      parse_body-body f h (stt_magic ++ coded) rest (stt_magic ++ (coded ++ (body ++ rest))) decrypt
        wrapper (simp append_assoc) ls packed valid
        (omega (arith, meta_length-le-part f.crypto_metadata)) in
    let start : length (stt_magic ++ coded) ≡ 2 + length coded = omega arith in
    rw (whole, total) (checked ∙ (rw start at parsed))

-- `to_bytes`, then `from_bytes` without decryption, whatever data follows: the frame comes back, all
-- fields the same except that empty metadata reads as none and that it counts as encrypted exactly if
-- it has metadata, and the bytes consumed are those of the frame.
pub from_bytes-to_bytes :
    (f : Frame) (bs rest : Bytes) (wrapper : Option Stc)
    → post_init f ≡ ok f
    → to_bytes f ≡ ok bs
    → from_bytes (bs ++ rest) false wrapper ≡ ok (received f, length bs)
from_bytes-to_bytes f bs rest wrapper valid sent =
    from_bytes-body f bs rest false wrapper valid sent ∙ (unfold decrypt_requested in refl)

received_self :
    (g : Frame) (b : ℕ) (ms : Bytes)
    → g.crypto_metadata ≡ some (b ∷ ms)
    → g.is_encrypted ≡ true
    → received g ≡ g
received_self g b ms kept on = ground (arith, kept, on)

decrypt_requested-present :
    (stc : Stc) (g : Frame) (b : ℕ) (ms : Bytes)
    → g.crypto_metadata ≡ some (b ∷ ms)
    → decrypt_requested true (some stc) g ≡ (decrypt_payload stc g >>= λ (plain, g'). ok g')
unfolding decrypt_requested
decrypt_requested-present stc g b ms kept = ground (arith, kept)

encrypted-valid :
    (stc : Stc) (draw : ℕ) (f g : Frame) (c : Bytes)
    → post_init f ≡ ok f
    → encrypt_payload stc draw f ≡ ok (c, g)
    → (post_init g ≡ ok g) × (g.is_encrypted ≡ true)
unfolding post_init
encrypted-valid stc draw f g c valid sealed =
    let (m, e, fresh, _) = encrypt_payload-inv stc draw f g c sealed in
    (ground (arith, e, valid), ground (arith, e))

-- A frame that is encrypted, encoded, decoded and decrypted under a lawful crypto context, where the
-- encryption gave metadata that are not empty: the receiver has the frame from before the encryption,
-- except that it carries the metadata of the encryption, and has used just the bytes of the frame.
pub from_bytes-encrypted :
    (stc : Stc) (draw b : ℕ) (f g : Frame) (c bs rest ms : Bytes)
    → IsLawful stc
    → post_init f ≡ ok f
    → encrypt_payload stc draw f ≡ ok (c, g)
    → g.crypto_metadata ≡ some (b ∷ ms)
    → to_bytes g ≡ ok bs
    → from_bytes (bs ++ rest) true (some stc)
      ≡ ok (record f { crypto_metadata = g.crypto_metadata }, length bs)
from_bytes-encrypted stc draw b f g c bs rest ms law valid sealed kept sent =
    let (valid', on) = encrypted-valid stc draw f g c valid sealed in
    let opened = (decrypt-encrypt_payload stc draw f g c law sealed).1 in
    from_bytes-body g bs rest true (some stc) valid' sent
    ∙ rw (received_self g b ms kept on, decrypt_requested-present stc g b ms kept, opened)
