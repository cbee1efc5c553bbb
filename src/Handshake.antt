-- ===== src/Handshake.antt =====
-- seigr_toolset_transmissions/handshake/handshake.py, class STTHandshake. A method takes the object's
-- state and returns it as it leaves it, also where it raises. Random nonces, the random choice of an
-- encryption (`draw`) and the time in milliseconds are handed in. Where a message's field must be a
-- byte string, it is tested when it is read: the source would raise at its first use. (A node_id of a
-- HELLO that is a floating-point number is the exception: it has a hex() of its own, and passes there.)
pub mod Manager
pub mod Messages
pub mod Agreement
pub mod Exchange
pub mod Refusal
mod Examples
use Prim.Native.String.{String}
use seigr_toolset_transmissi.Common.{
  ℕ, List, [], ◌∷◌, ◌++◌, Bytes, Bool, true, false, not, ◌&&◌, Option, none, some, Result, ok, err,
  bit_xor, if◌then◌else◌, take, rethrow, bind,
}
use seigr_toolset_transmissi.Common.Int.{pos}
use seigr_toolset_transmissi.Common.Dict.{bytes_beq}
use seigr_toolset_transmissi.Stc.{AssociatedData, text, hex, Stc}
use seigr_toolset_transmissi.Serialization.{
  Value, null, int, bytes, str, dict, Fields, end, field, codes, get_field, SerialError,
}
use seigr_toolset_transmissi.Serialization.Encode.{serialize}
use seigr_toolset_transmissi.Serialization.Decode.{deserialize}

-- The exceptions: those of the serialization, KeyError, TypeError and AttributeError in one, an
-- encryption that raises, and the STTHandshakeErrors.
pub data HandshakeError : Type 0 where
  serial : SerialError → HandshakeError
  missing_field wrong_type encryption_failed : HandshakeError
  wrong_seed challenge_mismatch invalid_proof session_mismatch : HandshakeError
  no_active_handshake unknown_message : HandshakeError

pub record Handshake : Type 0 where
  pub node_id : Bytes
  pub is_initiator : Bool
  pub session_id : Option Bytes
  pub our_nonce : Option Bytes
  pub peer_nonce : Option Bytes
  pub peer_node_id : Option Bytes
  pub session_key : Option Bytes
  pub challenge : Option Bytes
  pub challenge_metadata : Option Bytes
  pub completed : Bool

-- `__init__`
abbrev pub new : Bytes → Bool → Handshake
new node_id is_initiator = record {
  node_id = node_id;
  is_initiator = is_initiator;
  session_id = none;
  our_nonce = none;
  peer_nonce = none;
  peer_node_id = none;
  session_key = none;
  challenge = none;
  challenge_metadata = none;
  completed = false;
}

-- A method that changes the object, and may raise on the way.
abbrev pub Method : Type 0 → Type 0
Method A = Handshake → Handshake × Result HandshakeError A

abbrev pub continue :
    {A B : Type 0}
    → Handshake × Result HandshakeError A
    → (A → Method B)
    → Handshake × Result HandshakeError B
continue (h, ok a) next = next a h
continue (h, err e) next = (h, err e)

infixl 5 ◌>>=◌ ◌>>◌
abbrev pub ◌>>=◌ : {A B : Type 0} → Method A → (A → Method B) → Method B
◌>>=◌ m next h = continue (m h) next

abbrev pub ◌>>◌ : {B : Type 0} → Method (Unit {0}) → Method B → Method B
m >> k = m >>= λ _. k

abbrev pub lift : {A : Type 0} → Result HandshakeError A → Method A
lift r h = (h, r)

abbrev pub assign : (Handshake → Handshake) → Method (Unit {0})
assign f h = (f h, ok tt)

abbrev pub raise_when : Bool → HandshakeError → Method (Unit {0})
raise_when bad e h = (h, if bad then err e else ok tt)

abbrev pub read_message : Bytes → Result HandshakeError Value
read_message bs = rethrow serial (deserialize bs)

abbrev pub write_message : Fields → Result HandshakeError Bytes
write_message fs = rethrow serial (serialize (dict fs))

abbrev pub found : Option Value → Result HandshakeError Value
found none = err missing_field
found (some v) = ok v

-- message[key]
abbrev pub item : String → Value → Result HandshakeError Value
item key (dict fs) = found (get_field (codes key) fs)
item key _ = err wrong_type

abbrev pub as_bytes : Value → Result HandshakeError Bytes
as_bytes (bytes b) = ok b
as_bytes _ = err wrong_type

-- An attribute that must be there.
abbrev pub assigned : Option Bytes → Result HandshakeError Bytes
assigned none = err wrong_type
assigned (some b) = ok b

abbrev pub bytes_item : String → Value → Method Bytes
bytes_item key message = lift (bind (item key message) as_bytes)

-- bytes(a ^ b for a, b in zip(...))
unfoldable pub xor_bytes : Bytes → Bytes → Bytes
xor_bytes [] bs = []
xor_bytes (a ∷ as') [] = []
xor_bytes (a ∷ as') (b ∷ bs) = bit_xor a b ∷ xor_bytes as' bs

-- (nonce_xor + node_xor)[:8]
abbrev pub session_id_of : Bytes → Bytes → Bytes → Bytes → Bytes
session_id_of our_nonce peer_nonce node_id peer_node_id =
    take 8 (xor_bytes our_nonce peer_nonce ++ xor_bytes node_id peer_node_id)

abbrev pub frame_context : String → Bytes → Bytes → AssociatedData
frame_context purpose initiator responder =
    ("purpose", text purpose)
    ∷ ("initiator_node_id", hex initiator)
    ∷ ("responder_node_id", hex responder)
    ∷ []

abbrev pub encrypted : Option (Bytes × Bytes) → Result HandshakeError (Bytes × Bytes)
encrypted none = err encryption_failed
encrypted (some c) = ok c

abbrev pub hello_fields : Bytes → Bytes → ℕ → Bytes → Fields
hello_fields node_id nonce now commitment = field (codes "type") (str (codes "HELLO")) (
    field (codes "node_id") (bytes node_id) (
      field (codes "nonce") (bytes nonce) (
        field (codes "timestamp") (int (pos now))
          (field (codes "commitment") (bytes commitment) end))))

abbrev pub response_fields : Bytes → Bytes → Bytes → Bytes → ℕ → Fields
response_fields node_id nonce challenge metadata now =
    field (codes "type") (str (codes "RESPONSE")) (
      field (codes "node_id") (bytes node_id) (
        field (codes "nonce") (bytes nonce) (
          field (codes "challenge") (bytes challenge) (
            field (codes "challenge_metadata") (bytes metadata)
              (field (codes "timestamp") (int (pos now)) end)))))

abbrev pub proof_fields : Bytes → Bytes → Bytes → ℕ → Fields
proof_fields session_id proof metadata now = field (codes "type") (str (codes "AUTH_PROOF")) (
    field (codes "session_id") (bytes session_id) (
      field (codes "proof") (bytes proof) (
        field (codes "proof_metadata") (bytes metadata)
          (field (codes "timestamp") (int (pos now)) end))))

abbrev pub optional : Option Bytes → Value
optional none = null
optional (some b) = bytes b

abbrev pub final_fields : Option Bytes → ℕ → Fields
final_fields session_id now = field (codes "type") (str (codes "FINAL")) (
    field (codes "session_id") (optional session_id)
      (field (codes "timestamp") (int (pos now)) end))

-- `hash_data` of the crypto context is randomised, as `encrypt_frame` is.
module _ (stc : Stc) (hash_data : ℕ → Bytes → Bytes) where
  -- `create_hello`
  unfoldable pub create_hello : Bytes → ℕ → ℕ → Method Bytes
  create_hello nonce draw now h =
      (do
        assign (λ h. record h { our_nonce = some nonce })
        lift (
            write_message (hello_fields h.node_id nonce now (hash_data draw (h.node_id ++ nonce)))))
        h

module _ (stc : Stc) where
  -- `decrypt_frame` on fields of a message; it raises on what is no byte string.
  abbrev pub decrypt_item : Value → Value → AssociatedData → Option Bytes
  decrypt_item (bytes c) (bytes m) context = stc.decrypt_frame c m context
  decrypt_item _ _ context = none

  -- `process_hello`
  unfoldable pub process_hello : Bytes → Bytes → ℕ → ℕ → Method Bytes
  process_hello hello_data nonce draw now h =
      (do
        hello_msg ← lift (read_message hello_data)
        peer_node_id ← bytes_item "node_id" hello_msg
        assign (λ h. record h { peer_node_id = some peer_node_id })
        peer_nonce ← bytes_item "nonce" hello_msg
        assign (λ h. record h { peer_nonce = some peer_nonce; our_nonce = some nonce })
        c ← lift (
            encrypted (
              stc.encrypt_frame draw (peer_nonce ++ nonce)
                (frame_context "handshake_challenge" peer_node_id h.node_id)))
        assign (λ h. record h { challenge = some c.0; challenge_metadata = some c.1 })
        lift (write_message (response_fields h.node_id nonce c.0 c.1 now)))
        h

  abbrev pub opened : Option Bytes → Result HandshakeError Bytes
  opened none = err wrong_seed
  opened (some payload) = ok payload

  -- The end of `process_response`, once the challenge is verified.
  unfoldable pub prove : Bytes → Bytes → Bytes → ℕ → ℕ → Method Bytes
  prove peer_node_id our_nonce peer_nonce draw now h =
      (do
        let session_id = session_id_of our_nonce peer_nonce h.node_id peer_node_id
        assign (λ h. record h { session_id = some session_id })
        c ← lift (
            encrypted (
              stc.encrypt_frame draw session_id
                (frame_context "auth_proof" h.node_id peer_node_id)))
        assign (λ h. record h { completed = true })
        lift (write_message (proof_fields session_id c.0 c.1 now)))
        h

  -- `process_response` from the decrypted challenge on.
  unfoldable pub check_challenge : Bytes → Bytes → Bytes → ℕ → ℕ → Method Bytes
  check_challenge payload peer_node_id peer_nonce draw now h =
      (do
        our_nonce ← lift (assigned h.our_nonce)
        raise_when (not (bytes_beq payload (our_nonce ++ peer_nonce))) challenge_mismatch
        prove peer_node_id our_nonce peer_nonce draw now)
        h

  -- `process_response`, and `process_challenge`, which only calls it
  unfoldable pub process_response : Bytes → ℕ → ℕ → Method Bytes
  process_response response_data draw now h =
      (do
        response_msg ← lift (read_message response_data)
        peer_node_id ← bytes_item "node_id" response_msg
        assign (λ h. record h { peer_node_id = some peer_node_id })
        peer_nonce ← bytes_item "nonce" response_msg
        assign (λ h. record h { peer_nonce = some peer_nonce })
        challenge ← lift (item "challenge" response_msg)
        metadata ← lift (item "challenge_metadata" response_msg)
        payload ← lift (
            opened (
              decrypt_item challenge metadata
                (frame_context "handshake_challenge" h.node_id peer_node_id)))
        check_challenge payload peer_node_id peer_nonce draw now)
        h

  -- session_id == value
  abbrev pub is_id : Bytes → Value → Bool
  is_id session_id (bytes b) = bytes_beq session_id b
  is_id session_id _ = false

  abbrev pub is_opened_id : Bytes → Option Bytes → Bool
  is_opened_id session_id none = false
  is_opened_id session_id (some b) = bytes_beq b session_id

  -- The end of `verify_proof`, with what the decryption gave.
  abbrev pub conclude : Bool → Method Bool
  conclude right h = if right then (record h { completed = true }, ok true) else (h, ok false)

  -- The decryption inside the `try`: a field that is missing counts as a decryption that raises.
  abbrev pub decrypt_proof :
      Result HandshakeError Value → Result HandshakeError Value → AssociatedData → Option Bytes
  decrypt_proof (ok proof) (ok metadata) context = decrypt_item proof metadata context
  decrypt_proof (ok proof) (err e) context = none
  decrypt_proof (err e) metadata context = none

  -- `verify_proof`
  unfoldable pub verify_proof : Bytes → Method Bool
  verify_proof proof_data h =
      (do
        proof_msg ← lift (read_message proof_data)
        our_nonce ← lift (assigned h.our_nonce)
        peer_nonce ← lift (assigned h.peer_nonce)
        peer_node_id ← lift (assigned h.peer_node_id)
        let session_id = session_id_of our_nonce peer_nonce h.node_id peer_node_id
        assign (λ h. record h { session_id = some session_id })
        claimed ← lift (item "session_id" proof_msg)
        conclude (
            is_id session_id claimed
            && is_opened_id session_id (
                decrypt_proof (item "proof" proof_msg) (item "proof_metadata" proof_msg)
                  (frame_context "auth_proof" peer_node_id h.node_id))))
        h

  -- `verify_response`
  unfoldable pub verify_response : Bytes → ℕ → Method Bytes
  unfolding verify_proof
  verify_response response_data now = do
    right ← verify_proof response_data
    raise_when (not right) invalid_proof
    λ h. lift (write_message (final_fields h.session_id now)) h

-- message.get(key), of a dictionary
abbrev pub get_item : String → Value → Result HandshakeError (Option Value)
get_item key (dict fs) = ok (get_field (codes key) fs)
get_item key _ = err wrong_type

-- deserialize_stt(data).get('type')
unfoldable pub message_type : Bytes → Result HandshakeError (Option Value)
message_type incoming = bind (read_message incoming) (get_item "type")

-- message.get('session_id') != self.session_id
abbrev pub differs : Option Value → Option Bytes → Bool
differs none none = false
differs none (some b) = true
differs (some null) none = false
differs (some (bytes c)) (some b) = not (bytes_beq c b)
differs (some v) id = true

-- `process_final`
unfoldable pub process_final : Bytes → Method (Unit {0})
process_final final_data h =
    (do
      final_msg ← lift (read_message final_data)
      claimed ← lift (get_item "session_id" final_msg)
      raise_when (differs claimed h.session_id) session_mismatch
      assign (λ h. record h { completed = true }))
      h

-- `get_session_id`
unfoldable pub get_session_id : Handshake → Option Bytes
get_session_id h = if h.completed then h.session_id else none

-- `get_session_key`
unfoldable pub get_session_key : Handshake → Option Bytes
get_session_key h = if h.completed then h.session_key else none
