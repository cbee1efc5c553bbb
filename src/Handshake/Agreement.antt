-- ===== src/Handshake/Agreement.antt =====
-- A whole handshake between two STTHandshakes (handshake/handshake.py): both ends finish with the same
-- session identifier.
use seigr_toolset_transmissi.Common.{
  ℕ, ◌<◌, ◌≡◌, refl, [], ◌∷◌, ◌++◌, Bytes, true, false, some, ok, length, length-append,
  length-take, arith,
}
use seigr_toolset_transmissi.Common.Bits.{bit_xor_comm}
use seigr_toolset_transmissi.Common.Dict.{bytes_beq, bytes_beq_iff}
use seigr_toolset_transmissi.Stc.{Stc, AssociatedData, IsLawful}
use seigr_toolset_transmissi.Serialization.{bytes, str, codes, get_field, put_field}
use seigr_toolset_transmissi.Serialization.Encode.{sort_entries, insert_entry}
use seigr_toolset_transmissi.Serialization.Normal.{normal, collect}
use seigr_toolset_transmissi.Serialization.Total.{IsSize}
use seigr_toolset_transmissi.Handshake.{
  Handshake, new, write_message, hello_fields, response_fields, proof_fields, final_fields,
  frame_context, session_id_of, xor_bytes, create_hello, process_hello, process_response,
  check_challenge, prove, verify_proof, verify_response, process_final, assigned, message_type,
  differs, get_session_id,
}
use seigr_toolset_transmissi.Handshake.Messages.{
  read-write_message, IsTime, hello_total, response_total, proof_total, final_total,
}

xor_bytes_comm : (a b : Bytes) → xor_bytes a b ≡ xor_bytes b a
unfolding xor_bytes
xor_bytes_comm [] [] = refl
xor_bytes_comm [] (b ∷ bs) = refl
xor_bytes_comm (a ∷ as') [] = refl
xor_bytes_comm (a ∷ as') (b ∷ bs) = rw (bit_xor_comm a b, xor_bytes_comm as' bs)

-- The identifier does not depend on the side that computes it.
pub session_id_of_comm : (n m a b : Bytes) → session_id_of n m a b ≡ session_id_of m n b a
session_id_of_comm n m a b = rw (xor_bytes_comm n m, xor_bytes_comm a b)

same_bytes : (b : Bytes) → bytes_beq b b ≡ true
same_bytes b = (bytes_beq_iff b b).1 refl

-- The encryption of a payload of less than 2 ^ 31 bytes does not raise, and what it returns has lengths
-- of 32 bits.
pub record IsTotal (stc : Stc) : Type 0 where
  pub encrypts :
      (draw : ℕ) (payload : Bytes) (context : AssociatedData)
      → length payload < 2147483648
      → (c : Bytes) × (m : Bytes) × (stc.encrypt_frame draw payload context ≡ some (c, m))
        × IsSize (length c)
        × IsSize (length m)

module _ (stc : Stc) (hash_data : ℕ → Bytes → Bytes) where
  create_hello-written :
      (h : Handshake) (nonce hello : Bytes) (draw now : ℕ)
      → write_message (hello_fields h.node_id nonce now (hash_data draw (h.node_id ++ nonce)))
        ≡ ok hello
      → create_hello stc hash_data nonce draw now h
        ≡ (record h { our_nonce = some nonce }, ok hello)
  unfolding create_hello
  create_hello-written h nonce hello draw now e = rw e

module _ (stc : Stc) where
  process_hello-written :
      (h : Handshake) (idI nI commitment nonce hello response c m : Bytes) (draw t now : ℕ)
      → write_message (hello_fields idI nI t commitment) ≡ ok hello
      → stc.encrypt_frame draw (nI ++ nonce) (frame_context "handshake_challenge" idI h.node_id)
        ≡ some (c, m)
      → write_message (response_fields h.node_id nonce c m now) ≡ ok response
      → process_hello stc hello nonce draw now h ≡ (
        record h {
          peer_node_id = some idI;
          peer_nonce = some nI;
          our_nonce = some nonce;
          challenge = some c;
          challenge_metadata = some m;
        },
        ok response,
      )
  unfolding process_hello normal sort_entries insert_entry collect get_field put_field
  process_hello-written h idI nI commitment nonce hello response c m draw t now eh ee er =
      rw (read-write_message (hello_fields idI nI t commitment) hello eh, ee, er)

  process_response-written :
      (h : Handshake) (idR nR nI response c m c' m' proof : Bytes) (draw t now : ℕ)
      → h.our_nonce ≡ some nI
      → write_message (response_fields idR nR c m t) ≡ ok response
      → stc.decrypt_frame c m (frame_context "handshake_challenge" h.node_id idR) ≡ some (nI ++ nR)
      → stc.encrypt_frame draw
          (session_id_of nI nR h.node_id idR)
          (frame_context "auth_proof" h.node_id idR)
        ≡ some (c', m')
      → write_message (proof_fields (session_id_of nI nR h.node_id idR) c' m' now) ≡ ok proof
      → process_response stc response draw now h ≡ (
        record h {
          peer_node_id = some idR;
          peer_nonce = some nR;
          session_id = some (session_id_of nI nR h.node_id idR);
          completed = true;
        },
        ok proof,
      )
  unfolding process_response check_challenge prove normal sort_entries insert_entry collect
      get_field put_field
  process_response-written h idR nR nI response c m c' m' proof draw t now en er ed ee ep =
      let ours : assigned h.our_nonce ≡ ok nI = rw en in
      rw (
        read-write_message (response_fields idR nR c m t) response er,
        ed,
        ours,
        same_bytes (nI ++ nR),
        ee,
        ep,
      )

  verify_response-written :
      (h : Handshake) (idI nI nR sid proof c m final : Bytes) (t now : ℕ)
      → h.our_nonce ≡ some nR
      → h.peer_nonce ≡ some nI
      → h.peer_node_id ≡ some idI
      → session_id_of nR nI h.node_id idI ≡ sid
      → write_message (proof_fields sid c m t) ≡ ok proof
      → stc.decrypt_frame c m (frame_context "auth_proof" idI h.node_id) ≡ some sid
      → write_message (final_fields (some sid) now) ≡ ok final
      → verify_response stc proof now h
        ≡ (record h { session_id = some sid; completed = true }, ok final)
  unfolding verify_response verify_proof normal sort_entries insert_entry collect get_field
      put_field
  verify_response-written h idI nI nR sid proof c m final t now e1 e2 e3 es ep ed ef =
      rw (
        read-write_message (proof_fields sid c m t) proof ep,
        e1,
        e2,
        e3,
        es,
        ed,
        same_bytes sid,
        ef,
      )

process_final-written :
    (h : Handshake) (sid final : Bytes) (t : ℕ)
    → h.session_id ≡ some sid
    → write_message (final_fields (some sid) t) ≡ ok final
    → process_final final h ≡ (record h { completed = true }, ok tt)
unfolding process_final normal sort_entries insert_entry collect get_field put_field
process_final-written h sid final t e ef =
    let equal : differs (some (bytes sid)) h.session_id ≡ false = rw (e, same_bytes sid) in
    rw (read-write_message (final_fields (some sid) t) final ef, equal)

hello_type :
    (a b c : Bytes) (t : ℕ) (bs : Bytes)
    → write_message (hello_fields a b t c) ≡ ok bs
    → message_type bs ≡ ok (some (str (codes "HELLO")))
unfolding message_type normal sort_entries insert_entry collect get_field put_field
hello_type a b c t bs e = rw (read-write_message (hello_fields a b t c) bs e)

response_type :
    (a b c d : Bytes) (t : ℕ) (bs : Bytes)
    → write_message (response_fields a b c d t) ≡ ok bs
    → message_type bs ≡ ok (some (str (codes "RESPONSE")))
unfolding message_type normal sort_entries insert_entry collect get_field put_field
response_type a b c d t bs e = rw (read-write_message (response_fields a b c d t) bs e)

proof_type :
    (a b c : Bytes) (t : ℕ) (bs : Bytes)
    → write_message (proof_fields a b c t) ≡ ok bs
    → message_type bs ≡ ok (some (str (codes "AUTH_PROOF")))
unfolding message_type normal sort_entries insert_entry collect get_field put_field
proof_type a b c t bs e = rw (read-write_message (proof_fields a b c t) bs e)

final_type :
    (a : Bytes) (t : ℕ) (bs : Bytes)
    → write_message (final_fields (some a) t) ≡ ok bs
    → message_type bs ≡ ok (some (str (codes "FINAL")))
unfolding message_type normal sort_entries insert_entry collect get_field put_field
final_type a t bs e = rw (read-write_message (final_fields (some a) t) bs e)

-- The four messages between an initiator and a responder, and where both ends stand behind them.
pub record Agreed (stc : Stc) (hash_data : ℕ → Bytes → Bytes) (idI idR nI nR : Bytes)
    (d0 d1 d2 t0 t1 t2 t3 : ℕ) : Type 0 where
  pub greeted : Handshake
  pub asked : Handshake
  pub proved : Handshake
  pub accepted : Handshake
  pub finished : Handshake
  pub hello : Bytes
  pub response : Bytes
  pub proof : Bytes
  pub final : Bytes
  pub step0 : create_hello stc hash_data nI d0 t0 (new idI true) ≡ (greeted, ok hello)
  pub step1 : process_hello stc hello nR d1 t1 (new idR false) ≡ (asked, ok response)
  pub step2 : process_response stc response d2 t2 greeted ≡ (proved, ok proof)
  pub step3 : verify_response stc proof t3 asked ≡ (accepted, ok final)
  pub step4 : process_final final proved ≡ (finished, ok tt)
  pub kind0 : message_type hello ≡ ok (some (str (codes "HELLO")))
  pub kind1 : message_type response ≡ ok (some (str (codes "RESPONSE")))
  pub kind2 : message_type proof ≡ ok (some (str (codes "AUTH_PROOF")))
  pub kind3 : message_type final ≡ ok (some (str (codes "FINAL")))
  pub initiator_id : get_session_id finished ≡ some (session_id_of nI nR idI idR)
  pub responder_id : get_session_id accepted ≡ some (session_id_of nI nR idI idR)

length-session_id_of : (n m a b : Bytes) → IsSize (length (session_id_of n m a b))
length-session_id_of n m a b = omega (arith, length-take 8 (xor_bytes n m ++ xor_bytes a b))

id_small : (n m a b : Bytes) → length (session_id_of n m a b) < 2147483648
id_small n m a b = omega (arith, length-take 8 (xor_bytes n m ++ xor_bytes a b))

-- With a lawful crypto context whose encryption does not raise, nonces of 32 bytes, and other parts of
-- the messages that fit their formats, each of the four messages is accepted, and both ends finish with the same session
-- identifier, the one that both nonces and both node identifiers determine.
pub handshake_agrees :
    (stc : Stc) (hash_data : ℕ → Bytes → Bytes) (idI idR nI nR : Bytes) (d0 d1 d2 t0 t1 t2 t3 : ℕ)
    → IsLawful stc
    → IsTotal stc
    → IsSize (length (hash_data d0 (idI ++ nI)))
    → IsSize (length idI)
    → IsSize (length idR)
    → length nI ≡ 32
    → length nR ≡ 32
    → IsTime t0
    → IsTime t1
    → IsTime t2
    → IsTime t3
    → Agreed stc hash_data idI idR nI nR d0 d1 d2 t0 t1 t2 t3
handshake_agrees stc hash_data idI idR nI nR d0 d1 d2 t0 t1 t2 t3 law total hh hI hR hn hm h0 h1 h2
      h3 =
    let sid = session_id_of nI nR idI idR in
    let challenge = frame_context "handshake_challenge" idI idR in
    let auth = frame_context "auth_proof" idI idR in
    let (c, m, ec, sc, sm) =
      total.encrypts d1 (nI ++ nR) challenge (omega (arith, length-append nI nR)) in
    let (c', m', ec', sc', sm') = total.encrypts d2 sid auth (id_small nI nR idI idR) in
    let (hello, eh) = hello_total t0 h0 idI nI (hash_data d0 (idI ++ nI)) hI (omega arith) hh in
    let (response, er) = response_total t1 h1 idR nR c m hR (omega arith) sc sm in
    let (proof, ep) = proof_total t2 h2 sid c' m' (length-session_id_of nI nR idI idR) sc' sm' in
    let (final, ef) = final_total t3 h3 sid (length-session_id_of nI nR idI idR) in
    let greeted = record (new idI true) { our_nonce = some nI } in
    let asked = record (new idR false) {
      peer_node_id = some idI;
      peer_nonce = some nI;
      our_nonce = some nR;
      challenge = some c;
      challenge_metadata = some m;
    } in
    let proved = record greeted {
      peer_node_id = some idR;
      peer_nonce = some nR;
      session_id = some sid;
      completed = true;
    } in
    record {
      greeted = greeted;
      asked = asked;
      proved = proved;
      accepted = record asked { session_id = some sid; completed = true };
      finished = record proved { completed = true };
      hello = hello;
      response = response;
      proof = proof;
      final = final;
      step0 = create_hello-written stc hash_data (new idI true) nI hello d0 t0 eh;
      step1 =
          process_hello-written stc (new idR false) idI nI (hash_data d0 (idI ++ nI)) nR hello
            response c m d1 t0 t1 eh ec er;
      step2 =
          process_response-written stc greeted idR nR nI response c m c' m' proof d2 t1 t2 refl er
            (law.decrypt-encrypt d1 (nI ++ nR) challenge c m ec) ec' ep;
      step3 =
          verify_response-written stc asked idI nI nR sid proof c' m' final t2 t3 refl refl refl
            (session_id_of_comm nR nI idR idI) ep (law.decrypt-encrypt d2 sid auth c' m' ec') ef;
      step4 = process_final-written proved sid final t3 refl ef;
      kind0 = hello_type idI nI (hash_data d0 (idI ++ nI)) t0 hello eh;
      kind1 = response_type idR nR c m t1 response er;
      kind2 = proof_type sid c' m' t2 proof ep;
      kind3 = final_type sid t3 final ef;
      initiator_id = unfold get_session_id in refl;
      responder_id = unfold get_session_id in refl;
    }
