-- ===== src/Frame/Cipher.antt =====
-- STTFrame.encrypt_payload and STTFrame.decrypt_payload. A method returns its result and the frame
-- as it leaves it; when it raises, it has assigned nothing.
use seigr_toolset_transmissi.Common.{
  ℕ, [], ◌∷◌, ◌≡◌, Bytes, true, false, not, Option, none, some, Result, ok, err, ◌>>◌, raise_if,
  Option-cases, inl, inr, arith,
}
use seigr_toolset_transmissi.Frame.{
  Frame, FrameError, already_encrypted, encryption_failed, not_encrypted, missing_metadata,
  decryption_failed,
}
use seigr_toolset_transmissi.Stc.{AssociatedData, int, bytes, Stc, IsLawful}

-- The dictionary that both methods build.
pub associated_data : Frame → AssociatedData
associated_data f =
    ("frame_type", int f.frame_type)
    ∷ ("flags", int f.flags)
    ∷ ("session_id", bytes f.session_id)
    ∷ ("sequence", int f.sequence)
    ∷ ("timestamp", int f.timestamp)
    ∷ ("stream_id", int f.stream_id)
    ∷ []

encrypted_with : Frame → Option (Bytes × Bytes) → Result FrameError (Bytes × Frame)
encrypted_with f none = err encryption_failed
encrypted_with f (some (ciphertext, metadata)) = ok (
  ciphertext,
  record f { payload = ciphertext; crypto_metadata = some metadata; is_encrypted = true },
)

unfoldable pub encrypt_payload : Stc → ℕ → Frame → Result FrameError (Bytes × Frame)
unfolding encrypted_with associated_data
encrypt_payload stc draw f = do
  raise_if f.is_encrypted already_encrypted
  encrypted_with f (stc.encrypt_frame draw f.payload (associated_data f))

decrypted_with : Frame → Option Bytes → Result FrameError (Bytes × Frame)
decrypted_with f none = err decryption_failed
decrypted_with f (some plain) = ok (plain, record f { payload = plain; is_encrypted = false })

decrypt_metadata : Stc → Frame → Option Bytes → Result FrameError (Bytes × Frame)
decrypt_metadata stc f none = err missing_metadata
decrypt_metadata stc f (some metadata) =
    decrypted_with f (stc.decrypt_frame f.payload metadata (associated_data f))

pub decrypt_payload : Stc → Frame → Result FrameError (Bytes × Frame)
unfolding decrypt_metadata decrypted_with associated_data
decrypt_payload stc f = do
  raise_if (not f.is_encrypted) not_encrypted
  decrypt_metadata stc f f.crypto_metadata

-- What a successful `encrypt_payload` did.
pub encrypt_payload-inv :
    (stc : Stc) (draw : ℕ) (f g : Frame) (c : Bytes)
    → encrypt_payload stc draw f ≡ ok (c, g)
    → (m : Bytes) × (g ≡ record f { payload = c; crypto_metadata = some m; is_encrypted = true })
      × (f.is_encrypted ≡ false)
      × (stc.encrypt_frame draw f.payload (associated_data f) ≡ some (c, m))
unfolding encrypt_payload
encrypt_payload-inv stc draw f g c h =
    elim (Option-cases (stc.encrypt_frame draw f.payload (associated_data f))) [
      | inl e ↦ absurd (ground (arith, e, h))
      | inr ((d, m), e) ↦ (m, ground (arith, e, h), ground (arith, e, h), ground (arith, e, h))
    ]

-- Decrypting the frame that `encrypt_payload` left gives back the payload; the frame is again as it
-- was, except that it keeps the metadata.
pub decrypt-encrypt_payload :
    (stc : Stc) (draw : ℕ) (f g : Frame) (c : Bytes)
    → IsLawful stc
    → encrypt_payload stc draw f ≡ ok (c, g)
    → (g.payload ≡ c)
      × (decrypt_payload stc g ≡ ok (f.payload, record f { crypto_metadata = g.crypto_metadata }))
unfolding encrypt_payload decrypt_payload
decrypt-encrypt_payload stc draw f g c law h =
    elim (Option-cases (stc.encrypt_frame draw f.payload (associated_data f))) [
      | inl e ↦ absurd (ground (arith, e, h))
      | inr ((d, m), e) ↦
          ground (arith, e, h, law.decrypt-encrypt draw f.payload (associated_data f) d m)
    ]

-- A frame is encrypted once: a second `encrypt_payload` raises and changes nothing.
pub encrypt_payload_twice :
    (stc : Stc) (draw draw' : ℕ) (f g : Frame) (c : Bytes)
    → encrypt_payload stc draw f ≡ ok (c, g)
    → encrypt_payload stc draw' g ≡ err already_encrypted
unfolding encrypt_payload
encrypt_payload_twice stc draw draw' f g c h =
    ground (arith, h, Option-cases (stc.encrypt_frame draw f.payload (associated_data f)))
