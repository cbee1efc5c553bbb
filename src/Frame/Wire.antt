-- ===== src/Frame/Wire.antt =====
-- STTFrame.to_bytes, STTFrame.from_bytes and STTFrame.get_associated_data.
pub mod Headers
pub mod Body
pub mod RoundTrip
pub mod Truncation
use seigr_toolset_transmissi.Common.{
  ℕ, ◌+◌, [], ◌∷◌, ◌++◌, Bytes, Bool, true, false, not, ◌&&◌, Option, none, some, Result, ok, err,
  ◌>>=◌, ◌>>◌, raise_if, rethrow, ltb, ◌==◌, if◌then◌else◌, length, slice,
}
use seigr_toolset_transmissi.Common.Int.{ℤ}
use seigr_toolset_transmissi.Frame.{
  Frame, FrameError, unpackable, frame_too_large, no_magic, invalid_magic, bad_length,
  insufficient_data, frame_too_small, bad_header, bad_metadata_length, metadata_beyond_frame,
  wrapper_required, stt_magic, stt_max_frame_size, post_init,
}
use seigr_toolset_transmissi.Frame.Cipher.{decrypt_payload}
use seigr_toolset_transmissi.Stc.{Stc}
use seigr_toolset_transmissi.Struct.{StructError, struct_error, pack_uint, unpack_uint, pack_bytes}
use seigr_toolset_transmissi.Varint.{encode_nat, decode_varint}

-- `struct.pack('!BB8sQQI', frame_type, flags, session_id, sequence, timestamp, stream_id)`
pub pack_header : Frame → Result StructError Bytes
pack_header f = do
  frame_type ← pack_uint 1 f.frame_type
  flags ← pack_uint 1 f.flags
  sequence ← pack_uint 8 f.sequence
  timestamp ← pack_uint 8 f.timestamp
  stream_id ← pack_uint 4 f.stream_id
  ok (
      frame_type
      ++ (flags ++ (pack_bytes 8 f.session_id ++ (sequence ++ (timestamp ++ stream_id)))))

pub get_associated_data : Frame → Result StructError Bytes
unfolding pack_header
get_associated_data = pack_header

-- `if self.crypto_metadata: ... else: encode_varint(0)`; an empty byte string counts as absent.
pub metadata_part : Option Bytes → Bytes
metadata_part none = encode_nat 0
metadata_part (some []) = encode_nat 0
metadata_part (some (b ∷ bs)) = encode_nat (length (b ∷ bs)) ++ (b ∷ bs)

-- Header, metadata and payload: what the length field counts.
pub frame_body : Bytes → Frame → Bytes
unfolding metadata_part
frame_body header f = header ++ (metadata_part f.crypto_metadata ++ f.payload)

unfoldable pub to_bytes : Frame → Result FrameError Bytes
unfolding pack_header frame_body
to_bytes f = do
  header ← rethrow unpackable (pack_header f)
  let body = frame_body header f
  raise_if (ltb stt_max_frame_size (length body)) frame_too_large
  ok (stt_magic ++ (encode_nat (length body) ++ body))

-- What `struct.unpack('!BB8sQQI', ...)` returns.
pub record Header : Type 0 where
  pub frame_type : ℤ
  pub flags : ℤ
  pub session_id : Bytes
  pub sequence : ℤ
  pub timestamp : ℤ
  pub stream_id : ℤ

abbrev pub header_size : ℕ
header_size = 30

pub unpack_header : Bytes → Result StructError Header
unpack_header bs = do
  raise_if (not (length bs == header_size)) struct_error
  frame_type ← unpack_uint 1 (slice 0 1 bs)
  flags ← unpack_uint 1 (slice 1 2 bs)
  sequence ← unpack_uint 8 (slice 10 18 bs)
  timestamp ← unpack_uint 8 (slice 18 26 bs)
  stream_id ← unpack_uint 4 (slice 26 30 bs)
  ok (record {
    frame_type = frame_type;
    flags = flags;
    session_id = slice 2 10 bs;
    sequence = sequence;
    timestamp = timestamp;
    stream_id = stream_id;
  })

-- The metadata, and where the payload begins.
read_metadata : Bytes → ℕ → ℕ → ℕ → Result FrameError (Option Bytes × ℕ)
read_metadata bytes frame_end meta_offset meta_len =
    if ltb 0 meta_len
    then (do
      raise_if (ltb frame_end (meta_offset + meta_len)) metadata_beyond_frame
      ok (some (slice meta_offset (meta_offset + meta_len) bytes), meta_offset + meta_len))
    else ok (none, meta_offset)

is_some : Option Bytes → Bool
is_some none = false
is_some (some m) = true

-- The truth value of `crypto_metadata`.
is_present : Option Bytes → Bool
is_present none = false
is_present (some []) = false
is_present (some (b ∷ bs)) = true

-- `if decrypt and crypto_metadata: ...`
pub decrypt_requested : Bool → Option Stc → Frame → Result FrameError Frame
unfolding is_present
decrypt_requested decrypt wrapper f =
    if decrypt && is_present f.crypto_metadata
    then elim wrapper [
      | none ↦ err wrapper_required
      | some stc ↦ (do (plain, g) ← decrypt_payload stc f; ok g)
    ]
    else ok f

-- The frame from the parsed parts, by the constructor.
build_frame : Header → Option Bytes → Bytes → Result FrameError Frame
unfolding is_some
build_frame h crypto_metadata payload = post_init (record {
  frame_type = h.frame_type;
  session_id = h.session_id;
  sequence = h.sequence;
  stream_id = h.stream_id;
  payload = payload;
  flags = h.flags;
  timestamp = h.timestamp;
  crypto_metadata = crypto_metadata;
  is_encrypted = is_some crypto_metadata;
})

-- What follows the length: `frame_end` and `header_offset` are known.
pub parse_body : Bytes → Bool → Option Stc → ℕ → ℕ → Result FrameError (Frame × ℕ)
unfolding unpack_header read_metadata decrypt_requested build_frame
parse_body bytes decrypt wrapper header_offset frame_end = do
  header ←
      rethrow bad_header (unpack_header (slice header_offset (header_offset + header_size) bytes))
  (meta_len, meta_varint_size) ←
      rethrow bad_metadata_length (decode_varint bytes (header_offset + header_size))
  (crypto_metadata, payload_offset) ←
      read_metadata bytes frame_end (header_offset + header_size + meta_varint_size) meta_len
  parsed ← build_frame header crypto_metadata (slice payload_offset frame_end bytes)
  frame ← decrypt_requested decrypt wrapper parsed
  ok (frame, frame_end)

eq_magic : Bytes → Bool
eq_magic (a ∷ b ∷ rest) = a == 0x53 && b == 0x54
eq_magic _ = false

-- The frame and the number of bytes consumed.
pub from_bytes : Bytes → Bool → Option Stc → Result FrameError (Frame × ℕ)
unfolding eq_magic
from_bytes bytes decrypt wrapper = do
  raise_if (ltb (length bytes) 2) no_magic
  raise_if (not (eq_magic bytes)) invalid_magic
  (total_length, varint_size) ← rethrow bad_length (decode_varint bytes 2)
  let frame_end = 2 + varint_size + total_length
  raise_if (ltb (length bytes) frame_end) insufficient_data
  raise_if (ltb total_length header_size) frame_too_small
  parse_body bytes decrypt wrapper (2 + varint_size) frame_end
