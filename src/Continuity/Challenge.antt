-- ===== src/Continuity/Challenge.antt =====
-- The continuity proofs of session/continuity.py.
use seigr_toolset_transmissi.Common.{
  ℕ, zero, suc, ◌+◌, ◌-◌, ◌*◌, ◌/◌, [], ◌∷◌, ◌++◌, Bytes, Bool, true, false, Result, ok, err, bind,
  ltb, if◌then◌else◌, take,
}
use seigr_toolset_transmissi.Common.Dict.{string_eq, bytes_eq, nat_eq, bytes_beq}
use seigr_toolset_transmissi.Stc.{AssociatedData, text}
use seigr_toolset_transmissi.Continuity.{ContinuityError, overflow, int_to_bytes, proof_label}

-- `test_time.to_bytes(8, 'big')` at a second that may be negative
unfoldable pub test_stamp : ℕ → ℕ → Result ContinuityError Bytes
test_stamp shifted tolerance =
    if ltb shifted tolerance then err overflow else int_to_bytes (shifted - tolerance)

module _ (hash_data : ℕ → Bytes → AssociatedData → Bytes) (per : ℕ) where
  abbrev pub proof_material : Bytes → Bytes → Bytes → Bytes → Bytes
  proof_material node_seed shared_seed session_id stamp =
      node_seed ++ (shared_seed ++ (session_id ++ (proof_label ++ stamp)))

  abbrev pub proof_of : ℕ → Bytes → Bytes → Bytes → Bytes → Bytes
  proof_of draw node_seed shared_seed session_id stamp = take 32 (
      hash_data draw (proof_material node_seed shared_seed session_id stamp)
        (("purpose", text "continuity_proof") ∷ []))

  -- `generate_continuity_proof`
  unfoldable pub generate_continuity_proof :
      ℕ → ℕ → Bytes → Bytes → Bytes → Result ContinuityError Bytes
  generate_continuity_proof draw now session_id node_seed shared_seed =
      bind (int_to_bytes (now / per))
        (λ stamp. ok (proof_of draw node_seed shared_seed session_id stamp))

  -- The loop over the offsets, from the one that is 10 * i above the lowest.
  unfoldable pub verify_from :
      ℕ → ℕ → ℕ → ℕ → ℕ → Bytes → Bytes → Bytes → Bytes → Result ContinuityError Bool
  verify_from zero i draw current tolerance proof session_id node_seed shared_seed = ok false
  verify_from (suc rounds) i draw current tolerance proof session_id node_seed shared_seed =
      let later =
        verify_from rounds (i + 1) draw current tolerance proof session_id node_seed shared_seed in
      bind (test_stamp (current + 10 * i) tolerance) (λ stamp.
        if bytes_beq proof (proof_of (draw + i) node_seed shared_seed session_id stamp)
        then ok true
        else later)

  -- `verify_continuity_proof`; range(-tolerance, tolerance + 1, 10) has 2 * tolerance / 10 + 1 offsets.
  unfoldable pub verify_continuity_proof :
      ℕ → ℕ → Bytes → Bytes → Bytes → Bytes → ℕ → Result ContinuityError Bool
  verify_continuity_proof draw now session_id proof node_seed shared_seed tolerance =
      verify_from (suc (2 * tolerance / 10)) 0 draw (now / per) tolerance proof session_id node_seed
        shared_seed
