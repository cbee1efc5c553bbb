-- ===== src/Frame/Wire/Headers.antt =====
-- `from_bytes` reads back what `to_bytes` wrote.
use seigr_toolset_transmissi.Common.{
  ◌≡◌, refl, sym, ◌∙◌, [], ◌++◌, append_assoc, append-nil, Bytes, ok, >>=-eq-ok, length,
  length-append, slice, slice_of, arith,
}
use seigr_toolset_transmissi.Frame.{Frame}
use seigr_toolset_transmissi.Frame.Wire.{Header, pack_header, unpack_header}
use seigr_toolset_transmissi.Struct.{pack_uint, unpack_uint, pack_bytes}
use seigr_toolset_transmissi.Struct.Laws.{unpack_uint-pack, pack_bytes_whole}

abbrev pub header_of : Frame → Header
header_of f = record {
  frame_type = f.frame_type;
  flags = f.flags;
  session_id = f.session_id;
  sequence = f.sequence;
  timestamp = f.timestamp;
  stream_id = f.stream_id;
}

-- The six fields of a header, each at its place.
joined : Bytes → Bytes → Bytes → Bytes → Bytes → Bytes → Bytes
joined a b s q t i = a ++ (b ++ (s ++ (q ++ (t ++ i))))

module _ (a b s q t i : Bytes) (la : length a ≡ 1) (lb : length b ≡ 1) (ls : length s ≡ 8)
    (lq : length q ≡ 8) (lt : length t ≡ 8) (li : length i ≡ 4) where
  abbrev packed : Bytes
  packed = joined a b s q t i

  length-packed : length packed ≡ 30
  unfolding joined
  length-packed = simp length-append (omega arith)

  slices :
      (slice 0 1 packed ≡ a)
      × (slice 1 2 packed ≡ b)
      × (slice 2 10 packed ≡ s)
      × (slice 10 18 packed ≡ q)
      × (slice 18 26 packed ≡ t)
      × (slice 26 30 packed ≡ i)
  unfolding joined
  slices = (
    slice_of packed [] a (b ++ (s ++ (q ++ (t ++ i)))) 0 1 refl refl (omega arith),
    slice_of packed a b (s ++ (q ++ (t ++ i))) 1 2 refl la (omega arith),
    slice_of packed (a ++ b) s (q ++ (t ++ i)) 2 10 (simp append_assoc)
        (simp length-append (omega arith)) (simp length-append (omega arith)),
    slice_of packed (a ++ (b ++ s)) q (t ++ i) 10 18 (simp append_assoc)
        (simp length-append (omega arith)) (simp length-append (omega arith)),
    slice_of packed (a ++ (b ++ (s ++ q))) t i 18 26 (simp append_assoc)
        (simp length-append (omega arith)) (simp length-append (omega arith)),
    slice_of packed (a ++ (b ++ (s ++ (q ++ t)))) i [] 26 30 (simp (append_assoc, append-nil))
        (simp length-append (omega arith)) (simp length-append (omega arith)),
  )

unpack_parts :
    (f : Frame) (a b q t i h : Bytes)
    → length a ≡ 1
    → length b ≡ 1
    → length q ≡ 8
    → length t ≡ 8
    → length i ≡ 4
    → unpack_uint 1 a ≡ ok f.frame_type
    → unpack_uint 1 b ≡ ok f.flags
    → unpack_uint 8 q ≡ ok f.sequence
    → unpack_uint 8 t ≡ ok f.timestamp
    → unpack_uint 4 i ≡ ok f.stream_id
    → length f.session_id ≡ 8
    → a ++ (b ++ (pack_bytes 8 f.session_id ++ (q ++ (t ++ i)))) ≡ h
    → (unpack_header h ≡ ok (header_of f)) × (length h ≡ 30)
unfolding unpack_header
unpack_parts f a b q t i h la lb lq lt li ua ub uq ut ui ls e =
    let at = slices a b f.session_id q t i la lb ls lq lt li in
    let whole : h ≡ joined a b f.session_id q t i =
      unfold joined in sym e ∙ rw (pack_bytes_whole 8 f.session_id ls) in
    let size = length-packed a b f.session_id q t i la lb ls lq lt li in
    rw whole (rw (size, at.0, at.1, at.2, at.3, at.4, at.5, ua, ub, uq, ut, ui) (refl, refl))

-- A packed header has 30 bytes, and unpacks to the fields of the frame.
pub unpack-pack_header :
    (f : Frame) (h : Bytes)
    → length f.session_id ≡ 8
    → pack_header f ≡ ok h
    → (unpack_header h ≡ ok (header_of f)) × (length h ≡ 30)
unfolding pack_header
unpack-pack_header f h ls e =
    let (a, ea, e1) = >>=-eq-ok (pack_uint 1 f.frame_type) _ e in
    let (b, eb, e2) = >>=-eq-ok (pack_uint 1 f.flags) _ e1 in
    let (q, eq, e3) = >>=-eq-ok (pack_uint 8 f.sequence) _ e2 in
    let (t, et, e4) = >>=-eq-ok (pack_uint 8 f.timestamp) _ e3 in
    let (i, ei, e5) = >>=-eq-ok (pack_uint 4 f.stream_id) _ e4 in
    let (ua, la) = unpack_uint-pack 1 f.frame_type a ea in
    let (ub, lb) = unpack_uint-pack 1 f.flags b eb in
    let (uq, lq) = unpack_uint-pack 8 f.sequence q eq in
    let (ut, lt) = unpack_uint-pack 8 f.timestamp t et in
    let (ui, li) = unpack_uint-pack 4 f.stream_id i ei in
    unpack_parts f a b q t i h la lb lq lt li ua ub uq ut ui ls (cc e5)
