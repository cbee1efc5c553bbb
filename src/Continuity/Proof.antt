-- ===== src/Continuity/Proof.antt =====
-- Which continuity proofs verify_continuity_proof accepts, session/continuity.py.
use seigr_toolset_transmissi.Common.{
  ℕ, zero, suc, ◌+◌, ◌-◌, ◌*◌, ◌/◌, ◌%◌, ◌^◌, ◌≤◌, ◌<◌, ◌≡◌, ◌≢◌, ◌↔◌, refl, sym, ap, ◌∙◌, Bytes,
  true, Bool-cases, inl, inr, Result-cases, ok, ltb, arith,
}
use seigr_toolset_transmissi.Common.Dict.{bytes_beq, bytes_beq_iff}
use seigr_toolset_transmissi.Struct.{be}
use seigr_toolset_transmissi.Stc.{AssociatedData}
use seigr_toolset_transmissi.Continuity.{int_to_bytes}
use seigr_toolset_transmissi.Continuity.Challenge.{
  proof_of, generate_continuity_proof, test_stamp, verify_from, verify_continuity_proof,
}

int_to_bytes-inv :
    (t : ℕ) (stamp : Bytes) → int_to_bytes t ≡ ok stamp → (t < 256 ^ 8) × (stamp ≡ be 8 t)
unfolding int_to_bytes
int_to_bytes-inv t stamp h = ground arith

test_stamp-ok :
    (shifted tolerance t : ℕ)
    → shifted ≡ t + tolerance
    → t < 256 ^ 8
    → test_stamp shifted tolerance ≡ ok (be 8 t)
unfolding test_stamp int_to_bytes
test_stamp-ok shifted tolerance t e small =
    let same : shifted - tolerance ≡ t = omega (arith, e) in rw same (ground arith)

module _ (hash_data : ℕ → Bytes → AssociatedData → Bytes) (per : ℕ)
    (session_id node_seed shared_seed : Bytes) where
  -- The round that meets the time of the proof is n rounds ahead.
  verify_from-meets :
      (n rounds i draw current tolerance t : ℕ) (proof : Bytes)
      → ((m : ℕ)
          → m ≡ i + n
          → proof ≡ proof_of hash_data per (draw + m) node_seed shared_seed session_id (be 8 t))
      → n < rounds
      → current + 10 * (i + n) ≡ t + tolerance
      → tolerance ≤ current
      → t < 256 ^ 8
      → verify_from hash_data per rounds i draw current tolerance proof session_id node_seed
          shared_seed
        ≡ ok true
  unfolding verify_from
  verify_from-meets n zero i draw current tolerance t proof same more meets low small =
      absurd (omega arith)
  verify_from-meets zero (suc rounds) i draw current tolerance t proof same more meets low small =
      let stamp = test_stamp-ok (current + 10 * i) tolerance t (omega (arith, meets)) small in
      let equal = (bytes_beq_iff proof _).1 (same i (omega arith)) in
      rw (verify_from, stamp, equal) refl
  verify_from-meets (suc n) (suc rounds) i draw current tolerance t proof same more meets low
        small =
      let s = current + 10 * i - tolerance in
      let stamp = test_stamp-ok (current + 10 * i) tolerance s (omega arith) (omega arith) in
      let later =
        verify_from-meets n rounds (i + 1) draw current tolerance t proof
          (λ m e. same m (omega (arith, e))) (omega arith) (omega arith) low small in
      elim (Bool-cases (
        bytes_beq proof
          (proof_of hash_data per (draw + i) node_seed shared_seed session_id (be 8 s)))) [
            | inl equal ↦ rw (verify_from, stamp, equal) refl
            | inr differ ↦ rw (verify_from, stamp, differ) later
          ]

  test_stamp-inv :
      (shifted tolerance : ℕ) (stamp : Bytes)
      → test_stamp shifted tolerance ≡ ok stamp
      → (t : ℕ) × (t + tolerance ≡ shifted) × (t < 256 ^ 8) × (stamp ≡ be 8 t)
  unfolding test_stamp
  test_stamp-inv shifted tolerance stamp h = elim (Bool-cases (ltb shifted tolerance)) [
    | inl negative ↦ absurd (let bad = (rw (test_stamp, negative) at h) in cc bad)
    | inr fine ↦
        let (small, written) =
          int_to_bytes-inv (shifted - tolerance) stamp (rw (test_stamp, fine) at h) in
        (shifted - tolerance, ground (arith, fine), small, written)
  ]

  -- What a proof is that the loop accepts: what hashing again in one of its rounds gives.
  verify_from-inv :
      (rounds i draw current tolerance : ℕ) (proof : Bytes)
      → verify_from hash_data per rounds i draw current tolerance proof session_id node_seed
          shared_seed
        ≡ ok true
      → (n t : ℕ) × (i ≤ n)
        × (n < i + rounds)
        × (current + 10 * n ≡ t + tolerance)
        × (proof ≡ proof_of hash_data per (draw + n) node_seed shared_seed session_id (be 8 t))
  unfolding verify_from
  verify_from-inv zero i draw current tolerance proof accepted = absurd (cc accepted)
  verify_from-inv (suc rounds) i draw current tolerance proof accepted =
      elim (Result-cases (test_stamp (current + 10 * i) tolerance)) [
        | inr failing ↦ absurd (let bad = (rw (verify_from, failing.1) at accepted) in cc bad)
        | inl stamped ↦
            let (t, shift, small, written) =
              test_stamp-inv (current + 10 * i) tolerance (stamped.0) (stamped.1) in
            elim (Bool-cases (
              bytes_beq proof
                (proof_of hash_data per (draw + i) node_seed shared_seed session_id (stamped.0)))) [
                  | inl equal ↦ (
                    i,
                    t,
                    omega arith,
                    omega arith,
                    omega (arith, shift),
                    (bytes_beq_iff proof _).0 equal
                        ∙ ap (proof_of hash_data per (draw + i) node_seed shared_seed session_id)
                            written,
                  )
                  | inr differ ↦
                      let (n, u, above, below, meets, made) =
                        verify_from-inv rounds (i + 1) draw current tolerance proof
                          (rw (verify_from, stamped.1, differ) at accepted) in
                      (n, u, omega arith, omega arith, meets, made)
                ]
      ]

  -- Where neither end of the tolerance leaves the times that have eight bytes, a proof is accepted if
  -- and only if it is what hashing again gives for one of the seconds that lie a multiple of ten above
  -- the lowest one of the tolerance, and not above the highest. Each round hashes anew, so that nothing
  -- is supposed of the hash.
  pub verify_iff :
      (draw now tolerance : ℕ) (proof : Bytes)
      → tolerance ≤ now / per
      → now / per + tolerance < 256 ^ 8
      → (verify_continuity_proof hash_data per draw now session_id proof node_seed shared_seed
            tolerance
          ≡ ok true)
        ↔ ((n t : ℕ) × (10 * n ≤ 2 * tolerance)
            × (now / per + 10 * n ≡ t + tolerance)
            × (proof ≡ proof_of hash_data per (draw + n) node_seed shared_seed session_id (be 8 t)))
  unfolding verify_continuity_proof
  verify_iff draw now tolerance proof low high = (
    (λ accepted.
        let (n, t, above, below, meets, made) =
          verify_from-inv (suc (2 * tolerance / 10)) 0 draw (now / per) tolerance proof accepted in
        (n, t, omega arith, meets, made)),
    (λ found.
        let (n, t, within, meets, made) = found in
        verify_from-meets n (suc (2 * tolerance / 10)) 0 draw (now / per) tolerance t proof
          (λ m e.
            let same : m ≡ n = omega (arith, e) in
            made
            ∙ ap
                (λ (x : ℕ).
                  proof_of hash_data per (draw + x) node_seed shared_seed session_id (be 8 t))
                (sym same))
          (omega arith) (omega (arith, meets)) low (omega (arith, meets, within, high))),
  )

  verify_from-misses :
      (rounds i draw current tolerance t : ℕ) (proof : Bytes)
      → ((d s : ℕ)
          → s < 256 ^ 8
          → s ≢ t
          → proof ≢ proof_of hash_data per d node_seed shared_seed session_id (be 8 s))
      → current % 10 ≢ (t + tolerance) % 10
      → verify_from hash_data per rounds i draw current tolerance proof session_id node_seed
          shared_seed
        ≢ ok true
  unfolding verify_from
  verify_from-misses zero i draw current tolerance t proof apart off accepted = cc accepted
  verify_from-misses (suc rounds) i draw current tolerance t proof apart off accepted =
      elim (Result-cases (test_stamp (current + 10 * i) tolerance)) [
        | inr failing ↦ let bad = (rw (verify_from, failing.1) at accepted) in cc bad
        | inl stamped ↦
            let (s, shift, small, written) =
              test_stamp-inv (current + 10 * i) tolerance (stamped.0) (stamped.1) in
            let other : s ≢ t = λ same. off (omega (arith, shift, same)) in
            elim (Bool-cases (
              bytes_beq proof
                (proof_of hash_data per (draw + i) node_seed shared_seed session_id (stamped.0)))) [
                  | inl equal ↦ apart (draw + i) s small other (
                      (bytes_beq_iff proof _).0 equal
                      ∙ ap (proof_of hash_data per (draw + i) node_seed shared_seed session_id)
                          written)
                  | inr differ ↦
                      verify_from-misses rounds (i + 1) draw current tolerance t proof apart off
                        (rw (verify_from, stamped.1, differ) at accepted)
                ]
      ]

  -- A proof that generate_continuity_proof made is not accepted, however short the time that has passed,
  -- where the times in seconds, the earlier one with the tolerance, have different last digits, and the
  -- proofs for any other second are different from it.
  pub verify_refuses :
      (draw again now later tolerance : ℕ) (proof : Bytes)
      → generate_continuity_proof hash_data per draw now session_id node_seed shared_seed ≡ ok proof
      → ((d s : ℕ)
          → s < 256 ^ 8
          → s ≢ now / per
          → proof ≢ proof_of hash_data per d node_seed shared_seed session_id (be 8 s))
      → (later / per) % 10 ≢ (now / per + tolerance) % 10
      → verify_continuity_proof hash_data per again later session_id proof node_seed shared_seed
          tolerance
        ≢ ok true
  unfolding verify_continuity_proof
  verify_refuses draw again now later tolerance proof made apart off =
      verify_from-misses (suc (2 * tolerance / 10)) 0 again (later / per) tolerance (now / per)
        proof apart off
