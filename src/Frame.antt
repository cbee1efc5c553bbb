-- ===== src/Frame.antt =====
-- seigr_toolset_transmissions/frame/frame.py: the class STTFrame's fields and their validation. Its
-- encryption, wire format and dispatcher are in the modules below.
pub mod Cipher
pub mod Wire
pub mod Dispatcher
mod Examples
use seigr_toolset_transmissi.Common.{
  ℕ, ◌*◌, [], ◌∷◌, Bytes, Bool, true, false, not, ◌&&◌, Option, none, some, Result, ok, err, ◌>>=◌,
  ◌>>◌, raise_if, ◌==◌, length,
}
use seigr_toolset_transmissi.Common.Int.{ℤ, pos, is_negative, leb_ℤ}
use seigr_toolset_transmissi.Struct.{StructError}
use seigr_toolset_transmissi.Varint.{ValueError}

-- STT_MAGIC, STT_SESSION_ID_LENGTH, STT_MAX_FRAME_SIZE of utils/constants.py
abbrev pub stt_magic : Bytes
stt_magic = 0x53 ∷ 0x54 ∷ []

abbrev pub stt_session_id_length : ℕ
stt_session_id_length = 8

abbrev pub stt_max_frame_size : ℕ
stt_max_frame_size = 2 * 1024 * 1024

-- One constructor for each `raise STTFrameError`, with the exception that it reports; `unpackable` is
-- the `struct.error` that `to_bytes` lets through.
pub data FrameError : Type 0 where
  bad_session_id negative_sequence negative_timestamp negative_stream_id : FrameError
  already_encrypted encryption_failed not_encrypted missing_metadata decryption_failed : FrameError
  unpackable : StructError → FrameError
  frame_too_large : FrameError
  no_magic invalid_magic : FrameError
  bad_length : ValueError → FrameError
  insufficient_data frame_too_small : FrameError
  bad_header : StructError → FrameError
  bad_metadata_length : ValueError → FrameError
  metadata_beyond_frame wrapper_required : FrameError

pub record Frame : Type 0 where
  pub frame_type : ℤ
  pub session_id : Bytes
  pub sequence : ℤ
  pub stream_id : ℤ
  pub payload : Bytes
  pub flags : ℤ
  pub timestamp : ℤ
  pub crypto_metadata : Option Bytes
  pub is_encrypted : Bool

-- `__post_init__`, which the constructor calls: the frame, or the first check that fails.
unfoldable pub post_init : Frame → Result FrameError Frame
post_init f = do
  raise_if (not (length f.session_id == stt_session_id_length)) bad_session_id
  raise_if (is_negative f.sequence) negative_sequence
  raise_if (is_negative f.timestamp) negative_timestamp
  raise_if (is_negative f.stream_id) negative_stream_id
  ok f

-- `create_frame`; `now` is `int(time.time() * 1000)`.
pub create_frame : ℤ → ℤ → Bytes → ℤ → ℤ → Bytes → ℤ → Option ℤ → Result FrameError Frame
unfolding post_init
create_frame now frame_type session_id sequence stream_id payload flags timestamp =
    post_init (record {
      frame_type = frame_type;
      session_id = session_id;
      sequence = sequence;
      stream_id = stream_id;
      payload = payload;
      flags = flags;
      timestamp = elim timestamp [ none ↦ now | some t ↦ t ];
      crypto_metadata = none;
      is_encrypted = false;
    })

-- The ranges FRAME_TYPE_CUSTOM_MIN..MAX and FRAME_TYPE_STT_MIN..MAX.
abbrev pub is_custom_type : ℤ → Bool
is_custom_type t = leb_ℤ (pos 0x80) t && leb_ℤ t (pos 0xFF)

abbrev pub is_stt_type : ℤ → Bool
is_stt_type t = leb_ℤ (pos 0x00) t && leb_ℤ t (pos 0x7F)

unfoldable pub is_custom_frame : Frame → Bool
is_custom_frame f = is_custom_type f.frame_type

pub is_stt_frame : Frame → Bool
is_stt_frame f = is_stt_type f.frame_type
