-- ===== src/Frame/Wire/Body.antt =====
-- The parts of a frame behind its length: what `parse_body` makes of what `frame_body` wrote.
use seigr_toolset_transmissi.Common.{
  ℕ, ◌+◌, ◌^◌, ◌≤◌, ◌<◌, ◌≡◌, refl, ◌∙◌, [], ◌∷◌, ◌++◌, append_assoc, Bytes, Bool, true, false,
  Option, none, some, ok, ◌>>=◌, lt→ltb, length, length-append, slice, slice_of, arith,
}
use seigr_toolset_transmissi.Frame.{Frame, post_init}
use seigr_toolset_transmissi.Frame.Wire.{
  pack_header, metadata_part, frame_body, parse_body, read_metadata, build_frame, decrypt_requested,
}
use seigr_toolset_transmissi.Frame.Wire.Headers.{header_of, unpack-pack_header}
use seigr_toolset_transmissi.Stc.{Stc}
use seigr_toolset_transmissi.Varint.{encode_nat, decode_varint}
use seigr_toolset_transmissi.Varint.RoundTrip.{decode-encode}

-- An empty byte string of metadata arrives as `None`.
abbrev pub present : Option Bytes → Option Bytes
present none = none
present (some []) = none
present (some (b ∷ bs)) = some (b ∷ bs)

abbrev pub has : Option Bytes → Bool
has none = false
has (some m) = true

-- The frame that arrives: it counts as encrypted exactly if it has metadata.
abbrev pub received : Frame → Frame
received f = record f {
  crypto_metadata = present f.crypto_metadata;
  is_encrypted = has (present f.crypto_metadata);
}

abbrev pub meta_length : Option Bytes → ℕ
meta_length none = 0
meta_length (some m) = length m

-- The metadata with its length, wherever it stands in the data: the length is decoded, and the piece
-- between it and the payload is the metadata.
read_metadata-part :
    (m : Option Bytes) (front back bytes : Bytes) (frame_end : ℕ)
    → bytes ≡ front ++ (metadata_part m ++ back)
    → length front + length (metadata_part m) ≤ frame_end
    → meta_length m < 2 ^ 70
    → (n : ℕ) × (size : ℕ) × (decode_varint bytes (length front) ≡ ok (n, size))
      × (read_metadata bytes frame_end (length front + size) n
          ≡ ok (present m, length front + length (metadata_part m)))
unfolding metadata_part read_metadata
read_metadata-part none front back bytes frame_end e h fits =
    (0, length (encode_nat 0), rw (e, decode-encode 0 front back) refl, refl)
read_metadata-part (some []) front back bytes frame_end e h fits =
    (0, length (encode_nat 0), rw (e, decode-encode 0 front back) refl, refl)
read_metadata-part (some (b ∷ bs)) front back bytes frame_end e h fits =
    let n = length (b ∷ bs) in
    let size = length (encode_nat n) in
    let piece : slice (length front + size) (length front + size + n) bytes ≡ b ∷ bs =
      slice_of bytes (front ++ encode_nat n) (b ∷ bs) back (length front + size)
        (length front + size + n) (e ∙ simp append_assoc) (length-append front (encode_nat n))
        (omega (arith, length-append front (encode_nat n))) in
    (
      n,
      size,
      rw (e, append_assoc, decode-encode n front ((b ∷ bs) ++ back), lt→ltb n (2 ^ 70) fits) refl,
      ground (arith, piece, length-append (encode_nat n) (b ∷ bs)),
    )

-- The constructor accepts what the parser found, if it accepted the frame that was sent.
build_frame-header_of :
    (f : Frame) (m : Option Bytes)
    → post_init f ≡ ok f
    → build_frame (header_of f) m f.payload
      ≡ ok (record f { crypto_metadata = m; is_encrypted = has m })
unfolding build_frame post_init
build_frame-header_of f none h = ground (arith, h)
build_frame-header_of f (some m) h = ground (arith, h)

-- The body of a frame, wherever it stands in the data.
pub parse_body-body :
    (f : Frame) (h front rest bytes : Bytes) (decrypt : Bool) (wrapper : Option Stc)
    → bytes ≡ front ++ (frame_body h f ++ rest)
    → length f.session_id ≡ 8
    → pack_header f ≡ ok h
    → post_init f ≡ ok f
    → meta_length f.crypto_metadata < 2 ^ 70
    → let frame_end = length front + length (frame_body h f) in
      parse_body bytes decrypt wrapper (length front) frame_end
      ≡ (decrypt_requested decrypt wrapper (received f) >>= λ g. ok (g, frame_end))
unfolding parse_body frame_body
parse_body-body f h front rest bytes decrypt wrapper e ls packed valid fits =
    let part = metadata_part f.crypto_metadata in
    let (head, size) = unpack-pack_header f h ls packed in
    let whole : length (h ++ (part ++ f.payload)) ≡ 30 + length part + length f.payload =
      omega (arith, length-append h (part ++ f.payload), length-append part f.payload) in
    let start : length (front ++ h) ≡ length front + 30 = omega (arith, length-append front h) in
    let at_header : slice (length front) (length front + 30) bytes ≡ h =
      slice_of bytes front h ((part ++ f.payload) ++ rest) (length front) (length front + 30)
        (e ∙ simp append_assoc) refl (omega arith) in
    let (n, k, sized, metadata) =
      read_metadata-part f.crypto_metadata (front ++ h) (f.payload ++ rest) bytes
        (length front + length (h ++ (part ++ f.payload))) (e ∙ simp append_assoc) (omega arith)
        fits in
    let at_payload : slice (length front + 30 + length part)
          (length front + length (h ++ (part ++ f.payload))) bytes
        ≡ f.payload =
      slice_of bytes (front ++ (h ++ part)) f.payload rest _ _ (e ∙ simp append_assoc)
        (omega (arith, length-append front (h ++ part), length-append h part))
        (omega (arith, length-append front (h ++ part), length-append h part)) in
    rw (
      at_header,
      head,
      ← start,
      sized,
      metadata,
      start,
      at_payload,
      build_frame-header_of f (present f.crypto_metadata) valid,
    )

pub meta_length-le-part : (m : Option Bytes) → meta_length m ≤ length (metadata_part m)
unfolding metadata_part
meta_length-le-part none = omega arith
meta_length-le-part (some []) = omega arith
meta_length-le-part (some (b ∷ bs)) =
    omega (arith, length-append (encode_nat (length (b ∷ bs))) (b ∷ bs))
