-- ===== src/Handshake/Messages.antt =====
-- The messages of the handshake (handshake/handshake.py): what a message that was written holds for
-- its reader, and that it can be written.
use seigr_toolset_transmissi.Common.{
  ℕ, ◌<◌, ◌≡◌, refl, [], append-nil, Bytes, true, some, Result, ok, err, lt→ltb, rethrow, length,
  arith,
}
use seigr_toolset_transmissi.Common.Int.{pos}
use seigr_toolset_transmissi.Serialization.{dict, Fields, codes, SerialError}
use seigr_toolset_transmissi.Serialization.Utf8.{encode}
use seigr_toolset_transmissi.Serialization.Encode.{serialize, fits}
use seigr_toolset_transmissi.Serialization.Normal.{normal}
use seigr_toolset_transmissi.Serialization.RoundTrip.{deserialize-serialize}
use seigr_toolset_transmissi.Serialization.Total.{IsSize, IsSmall, serialize_total}
use seigr_toolset_transmissi.Handshake.{
  serial, read_message, write_message, hello_fields, response_fields, proof_fields, final_fields,
}

written : (r : Result SerialError Bytes) (bs : Bytes) → rethrow serial r ≡ ok bs → r ≡ ok bs
written (ok b) bs h = cc h
written (err e) bs h = cc h

pub read-write_message :
    (fs : Fields) (bs : Bytes) → write_message fs ≡ ok bs → read_message bs ≡ ok (normal (dict fs))
read-write_message fs bs h =
    let back = deserialize-serialize (dict fs) bs [] (written (serialize (dict fs)) bs h) in
    rw (rw (append-nil bs) at back) refl

pub write_message_total :
    (fs : Fields) → IsSmall (dict fs) → (bs : Bytes) × (write_message fs ≡ ok bs)
write_message_total fs h = let (bs, e) = serialize_total (dict fs) h in (bs, rw e refl)

-- A time that fits 64 bits with a sign.
abbrev pub IsTime : ℕ → Type 0
IsTime now = now < 9223372036854775808

time_fits : (now : ℕ) → IsTime now → fits 9223372036854775808 (pos now) ≡ true
time_fits now h = lt→ltb _ _ h

-- Each message can be written, where its parts fit.
module _ (now : ℕ) (t : IsTime now) where
  pub hello_total :
      (node_id nonce commitment : Bytes)
      → IsSize (length node_id)
      → IsSize (length nonce)
      → IsSize (length commitment)
      → (bs : Bytes) × (write_message (hello_fields node_id nonce now commitment) ≡ ok bs)
  unfolding encode
  hello_total node_id nonce commitment a b c =
      write_message_total (hello_fields node_id nonce now commitment) (
        omega arith,
        (
          (codes "type", refl, omega arith),
          (codes "HELLO", refl, omega arith),
          (
            (codes "node_id", refl, omega arith),
            a,
            (
              (codes "nonce", refl, omega arith),
              b,
              (
                (codes "timestamp", refl, omega arith),
                time_fits now t,
                ((codes "commitment", refl, omega arith), c, tt),
              ),
            ),
          ),
        ),
      )

  pub response_total :
      (node_id nonce challenge metadata : Bytes)
      → IsSize (length node_id)
      → IsSize (length nonce)
      → IsSize (length challenge)
      → IsSize (length metadata)
      → (bs : Bytes) × (write_message (response_fields node_id nonce challenge metadata now)
          ≡ ok bs)
  unfolding encode
  response_total node_id nonce challenge metadata a b c d =
      write_message_total (response_fields node_id nonce challenge metadata now) (
        omega arith,
        (
          (codes "type", refl, omega arith),
          (codes "RESPONSE", refl, omega arith),
          (
            (codes "node_id", refl, omega arith),
            a,
            (
              (codes "nonce", refl, omega arith),
              b,
              (
                (codes "challenge", refl, omega arith),
                c,
                (
                  (codes "challenge_metadata", refl, omega arith),
                  d,
                  ((codes "timestamp", refl, omega arith), time_fits now t, tt),
                ),
              ),
            ),
          ),
        ),
      )

  pub proof_total :
      (session_id proof metadata : Bytes)
      → IsSize (length session_id)
      → IsSize (length proof)
      → IsSize (length metadata)
      → (bs : Bytes) × (write_message (proof_fields session_id proof metadata now) ≡ ok bs)
  unfolding encode
  proof_total session_id proof metadata a b c =
      write_message_total (proof_fields session_id proof metadata now) (
        omega arith,
        (
          (codes "type", refl, omega arith),
          (codes "AUTH_PROOF", refl, omega arith),
          (
            (codes "session_id", refl, omega arith),
            a,
            (
              (codes "proof", refl, omega arith),
              b,
              (
                (codes "proof_metadata", refl, omega arith),
                c,
                ((codes "timestamp", refl, omega arith), time_fits now t, tt),
              ),
            ),
          ),
        ),
      )

  pub final_total :
      (session_id : Bytes)
      → IsSize (length session_id)
      → (bs : Bytes) × (write_message (final_fields (some session_id) now) ≡ ok bs)
  unfolding encode
  final_total session_id a = write_message_total (final_fields (some session_id) now) (
    omega arith,
    (
      (codes "type", refl, omega arith),
      (codes "FINAL", refl, omega arith),
      (
        (codes "session_id", refl, omega arith),
        a,
        ((codes "timestamp", refl, omega arith), time_fits now t, tt),
      ),
    ),
  )
