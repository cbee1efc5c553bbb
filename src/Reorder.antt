-- ===== src/Reorder.antt =====
-- The loop that stream/stream.py (STTStream._handle_incoming) and streaming/decoder.py
-- (BinaryStreamDecoder.process_segment) share in shape: as long as the next sequence number is in
-- the buffer, pop its item and deliver it.
pub mod Laws
use seigr_toolset_transmissi.Common.{ℕ, zero, suc, ◌+◌, List, [], ◌∷◌, ◌++◌, none, some}
use seigr_toolset_transmissi.Common.Dict.{Dict, get, remove, nat_eq}

pub record Drained {ℓ} (A : Type ℓ) : Type ℓ where
  pub next : ℕ
  pub buffer : Dict ℕ A
  pub out : List A

-- Each round shortens the buffer, so its length is fuel enough.
unfoldable pub drain {ℓ} : {A : Type ℓ} → ℕ → ℕ → Dict ℕ A → List A → Drained A
drain zero next buffer out = record { next = next; buffer = buffer; out = out }
drain (suc fuel) next buffer out = elim (get next buffer) [
  | none ↦ record { next = next; buffer = buffer; out = out }
  | some item ↦ drain fuel (next + 1) (remove next buffer) (out ++ (item ∷ []))
]
