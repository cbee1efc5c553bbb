-- ===== src/Streaming.antt =====
-- seigr_toolset_transmissions/streaming: what the encoder and the decoder of binary streams share.
-- The StreamingContext of the Seigr Toolset Crypto package is not part of the repository: it is a
-- parameter, a record of functions on an opaque context. `none` means that the call raises.
pub mod Encoder
pub mod Decoder
pub mod Segment
pub mod RoundTrip
pub mod Credits
pub mod Whole
mod Examples
use seigr_toolset_transmissi.Common.{ℕ, ◌≡◌, Option, some, Bytes, length}

-- The `STTStreamingError`s of encoder.py and decoder.py.
pub data StreamingError : Type 0 where
  invalid_mode stream_ended live_mode encryption_failed process_failed : StreamingError

-- `create_stream_context(session_id, stream_id)`; `encrypt_chunk(data)` with the header turned to its
-- 16 bytes; `decrypt_chunk(header, data)` with the header read from its bytes.
pub record Chunks (C : Type 0) : Type 0 where
  pub create_stream_context : Bytes → ℕ → C
  pub encrypt_chunk : C → Bytes → Option (C × (Bytes × Bytes))
  pub decrypt_chunk : C → Bytes → Bytes → Option (C × Bytes)

-- The documented behaviour: contexts of one stream decrypt each other's chunks, in any order.
pub record IsLawful {C : Type 0} (k : Chunks C) : Type 1 where
  pub BelongsTo : Bytes → ℕ → C → Type 0
  pub created : (s : Bytes) (i : ℕ) → BelongsTo s i (k.create_stream_context s i)
  pub encrypt_keeps :
      (s : Bytes) (i : ℕ) (c c' : C) (p h e : Bytes)
      → BelongsTo s i c
      → k.encrypt_chunk c p ≡ some (c', (h, e))
      → BelongsTo s i c' × (length h ≡ 16)
  pub decrypt-encrypt :
      (s : Bytes) (i : ℕ) (c c' d : C) (p h e : Bytes)
      → BelongsTo s i c
      → BelongsTo s i d
      → k.encrypt_chunk c p ≡ some (c', (h, e))
      → (d' : C) × (k.decrypt_chunk d h e ≡ some (d', p)) × BelongsTo s i d'
