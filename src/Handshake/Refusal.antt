-- ===== src/Handshake/Refusal.antt =====
-- What an STTHandshake (handshake/handshake.py) accepts, and what it does not.
use seigr_toolset_transmissi.Common.{
  ℕ, ◌≡◌, refl, ap, sym, ◌∙◌, ◌++◌, Bytes, Bool, true, false, not, Option, none, some, Result, ok,
  err, bind, if◌then◌else◌,
}
use seigr_toolset_transmissi.Common.Dict.{bytes_beq, bytes_beq_iff}
use seigr_toolset_transmissi.Stc.{Stc}
use seigr_toolset_transmissi.Serialization.{Value, null, get_field, put_field}
use seigr_toolset_transmissi.Serialization.Encode.{sort_entries, insert_entry}
use seigr_toolset_transmissi.Serialization.Normal.{normal, collect}
use seigr_toolset_transmissi.Handshake.{
  Handshake, HandshakeError, challenge_mismatch, Method, continue, read_message, write_message,
  item, as_bytes, decrypt_item, opened, assigned, encrypted, frame_context, session_id_of,
  final_fields, process_response, check_challenge, prove, process_final, differs, get_session_id,
}
use seigr_toolset_transmissi.Handshake.Messages.{read-write_message}

-- A step that returned, and the rest of the method behind it.
lift-inv :
    {A B : Type 0} (h h' : Handshake) (r : Result HandshakeError A) (next : A → Method B) (b : B)
    → continue (h, r) next ≡ (h', ok b)
    → (a : A) × (r ≡ ok a) × (next a h ≡ (h', ok b))
lift-inv h h' (ok a) next b e = (a, refl, e)
lift-inv h h' (err x) next b e = absurd (let y : err x ≡ ok b = ap (λ p. p.1) e in cc y)

-- What an initiator has seen in a response when `process_response` returns.
pub record IsAuthenticated (stc : Stc) (response : Bytes) (h h' : Handshake) : Type 0 where
  pub our_nonce : Bytes
  pub peer_nonce : Bytes
  pub peer_node_id : Bytes
  pub challenge : Value
  pub metadata : Value
  pub message : Value
  pub read : read_message response ≡ ok message
  pub has_node_id : bind (item "node_id" message) as_bytes ≡ ok peer_node_id
  pub has_nonce : bind (item "nonce" message) as_bytes ≡ ok peer_nonce
  pub has_challenge : item "challenge" message ≡ ok challenge
  pub has_metadata : item "challenge_metadata" message ≡ ok metadata
  pub sent_nonce : h.our_nonce ≡ some our_nonce
  pub opened :
      decrypt_item stc challenge metadata
        (frame_context "handshake_challenge" h.node_id peer_node_id)
      ≡ some (our_nonce ++ peer_nonce)
  pub session : get_session_id h' ≡ some (session_id_of our_nonce peer_nonce h.node_id peer_node_id)

opened-inv :
    (stc : Stc) (o : Option Bytes) (payload : Bytes) → opened stc o ≡ ok payload → o ≡ some payload
opened-inv stc none payload h = cc h
opened-inv stc (some b) payload h = cc h

assigned-inv : (o : Option Bytes) (b : Bytes) → assigned o ≡ ok b → o ≡ some b
assigned-inv none b h = cc h
assigned-inv (some c) b h = cc h

raise-inv :
    (good : Bool) (e : HandshakeError) (u : Unit {0})
    → (if not good then err e else ok tt) ≡ ok u
    → good ≡ true
raise-inv true e u h = refl
raise-inv false e u h = cc h

prove-session :
    (stc : Stc) (idR nI nR out : Bytes) (draw now : ℕ) (h h' : Handshake)
    → prove stc idR nI nR draw now h ≡ (h', ok out)
    → get_session_id h' ≡ some (session_id_of nI nR h.node_id idR)
unfolding prove
prove-session stc idR nI nR out draw now h h' e =
    let sid = session_id_of nI nR h.node_id idR in
    let (c, e0, r0) =
      lift-inv _ h'
        (encrypted (stc.encrypt_frame draw sid (frame_context "auth_proof" h.node_id idR))) _ out
        e in
    sym (ap (λ (r : Handshake × Result HandshakeError Bytes). get_session_id r.0) r0)
    ∙ (unfold get_session_id in refl)

check_challenge-inv :
    (stc : Stc) (payload idR nR out : Bytes) (draw now : ℕ) (h h' : Handshake)
    → check_challenge stc payload idR nR draw now h ≡ (h', ok out)
    → (nI : Bytes) × (h.our_nonce ≡ some nI)
      × (payload ≡ nI ++ nR)
      × (get_session_id h' ≡ some (session_id_of nI nR h.node_id idR))
unfolding check_challenge
check_challenge-inv stc payload idR nR out draw now h h' e =
    let (nI, e0, r0) = lift-inv h h' (assigned h.our_nonce) _ out e in
    let (u, e1, r1) =
      lift-inv h h' (if not (bytes_beq payload (nI ++ nR)) then err challenge_mismatch else ok tt) _
        out r0 in
    (
      nI,
      assigned-inv h.our_nonce nI e0,
      (bytes_beq_iff payload (nI ++ nR)).0
          (raise-inv (bytes_beq payload (nI ++ nR)) challenge_mismatch u e1),
      prove-session stc idR nI nR out draw now h h' r1,
    )

-- Where `process_response` returns, the response was read as a message whose "challenge", with its
-- "challenge_metadata", the crypto context decrypts, in the context of the message's "node_id", to the
-- initiator's own nonce with the message's "nonce" behind it; and the session identifier is the one of
-- these two nonces and of the own and the message's node identifiers.
pub process_response-IsAuthenticated :
    (stc : Stc) (response out : Bytes) (draw now : ℕ) (h h' : Handshake)
    → process_response stc response draw now h ≡ (h', ok out)
    → IsAuthenticated stc response h h'
unfolding process_response
process_response-IsAuthenticated stc response out draw now h h' e =
    let (msg, e0, r0) = lift-inv h h' (read_message response) _ out e in
    let (idR, e1, r1) = lift-inv h h' (bind (item "node_id" msg) as_bytes) _ out r0 in
    let (nR, e2, r2) = lift-inv _ h' (bind (item "nonce" msg) as_bytes) _ out r1 in
    let (challenge, e3, r3) = lift-inv _ h' (item "challenge" msg) _ out r2 in
    let (metadata, e4, r4) = lift-inv _ h' (item "challenge_metadata" msg) _ out r3 in
    let context = frame_context "handshake_challenge" h.node_id idR in
    let (payload, e5, r5) =
      lift-inv _ h' (opened stc (decrypt_item stc challenge metadata context)) _ out r4 in
    let (nI, e6, e7, e8) = check_challenge-inv stc payload idR nR out draw now _ h' r5 in
    record {
      our_nonce = nI;
      peer_nonce = nR;
      peer_node_id = idR;
      challenge = challenge;
      metadata = metadata;
      message = msg;
      read = e0;
      has_node_id = e1;
      has_nonce = e2;
      has_challenge = e3;
      has_metadata = e4;
      sent_nonce = e6;
      opened =
          opened-inv stc (decrypt_item stc challenge metadata context) payload e5
          ∙ ap (λ (b : Bytes). some b) e7;
      session = e8;
    }

-- A FINAL message with no session identifier is accepted by a handshake that has none: it counts as
-- completed, though neither a challenge nor a proof has been seen.
pub process_final_unproved :
    (h : Handshake) (bs : Bytes) (now : ℕ)
    → h.session_id ≡ none
    → write_message (final_fields none now) ≡ ok bs
    → process_final bs h ≡ (record h { completed = true }, ok tt)
unfolding process_final normal sort_entries insert_entry collect get_field put_field
process_final_unproved h bs now e w =
    let equal : differs (some null) h.session_id ≡ false = rw e in
    rw (read-write_message (final_fields none now) bs w, equal)
