-- ===== src/Handshake/Exchange.antt =====
-- The same handshake between two HandshakeManagers (handshake/handshake.py), whose handle_incoming
-- finds the object of a message by the peer's address and the method by the message's type.
use seigr_toolset_transmissi.Common.{
  ℕ, ◌≡◌, refl, [], Bytes, Bool, true, false, Option, none, some, ok, Result, ◌++◌, ◌∷◌, sym, ap,
  ◌∙◌, subst, length, if◌then◌else◌, arith,
}
use seigr_toolset_transmissi.Common.Dict.{Dict, get, put, remove, get-put, get-remove, bytes_eq}
use seigr_toolset_transmissi.Stc.{Stc, IsLawful}
use seigr_toolset_transmissi.Serialization.{str, codes}
use seigr_toolset_transmissi.Handshake.{
  Handshake, new, session_id_of, message_type, process_hello, process_response, verify_response,
  process_final, get_session_id, create_hello, xor_bytes, HandshakeError,
}
use seigr_toolset_transmissi.Handshake.Manager.{
  PeerKey, peer_beq, peer_beq_iff, peer_eq, id_beq, id_beq_iff, id_eq, Manager, is_truthy,
  handle_incoming, complete_handshake, with_active, completed_active,
}
use seigr_toolset_transmissi.Handshake.Agreement.{IsTotal, Agreed, handshake_agrees}
use seigr_toolset_transmissi.Serialization.Total.{IsSize}
use seigr_toolset_transmissi.Handshake.Messages.{IsTime}

same_key : (k : PeerKey) → peer_beq k k ≡ true
same_key k = (peer_beq_iff k k).1 refl

get-put_self :
    (k : PeerKey) (h : Handshake) (d : Dict PeerKey Handshake) → get k (put k h d) ≡ some h
get-put_self k h d = rw (get-put k k h d, same_key k)

module _ (stc : Stc) (key : PeerKey) (incoming nonce : Bytes) (draw now : ℕ) (m : Manager) where
  handle-hello :
      (h' : Handshake) (response : Bytes)
      → message_type incoming ≡ ok (some (str (codes "HELLO")))
      → get key m.active ≡ none
      → process_hello stc incoming nonce draw now (new m.node_id false) ≡ (h', ok response)
      → handle_incoming stc key incoming nonce draw now m
        ≡ (record m { active = put key h' m.active }, ok response)
  unfolding handle_incoming
  handle-hello h' response kind absent run = rw (kind, handle_incoming, absent, run)

  handle-response :
      (h h' : Handshake) (proof : Bytes)
      → message_type incoming ≡ ok (some (str (codes "RESPONSE")))
      → get key m.active ≡ some h
      → process_response stc incoming draw now h ≡ (h', ok proof)
      → handle_incoming stc key incoming nonce draw now m
        ≡ (record m { active = put key h' m.active }, ok proof)
  unfolding handle_incoming
  handle-response h h' proof kind there run = rw (kind, handle_incoming, with_active, there, run)

  handle-proof :
      (h h' : Handshake) (final : Bytes)
      → message_type incoming ≡ ok (some (str (codes "AUTH_PROOF")))
      → get key m.active ≡ some h
      → verify_response stc incoming now h ≡ (h', ok final)
      → handle_incoming stc key incoming nonce draw now m
        ≡ (record m { active = put key h' m.active }, ok final)
  unfolding handle_incoming
  handle-proof h h' final kind there run = rw (kind, handle_incoming, with_active, there, run)

  handle-final :
      (h h' : Handshake) (id : Bytes)
      → message_type incoming ≡ ok (some (str (codes "FINAL")))
      → get key m.active ≡ some h
      → process_final incoming h ≡ (h', ok tt)
      → get_session_id h' ≡ some id
      → is_truthy (some id) ≡ true
      → handle_incoming stc key incoming nonce draw now m ≡ (
        record m {
          active = remove key (put key h' m.active);
          completed = put (some id) h' m.completed;
        },
        ok [],
      )
  unfolding handle_incoming
  handle-final h h' id kind there run sid truthy =
      rw (kind, handle_incoming, with_active, there, run, sid, truthy)

get-remove_self : (k : PeerKey) (d : Dict PeerKey Handshake) → get k (remove k d) ≡ none
get-remove_self k d = rw (get-remove k k d, same_key k)

get-put_id :
    (id : Bytes) (h : Handshake) (d : Dict (Option Bytes) Handshake)
    → get (some id) (put (some id) h d) ≡ some h
get-put_id id h d =
    let same : id_beq (some id) (some id) ≡ true = (id_beq_iff (some id) (some id)).1 refl in
    rw (get-put (some id) (some id) h d, same)

completed_of : (h : Handshake) (id : Bytes) → get_session_id h ≡ some id → h.completed ≡ true
unfolding get_session_id
completed_of h id e = ground (arith, e)

pick : (done : Bool) (h : Handshake) → done ≡ true → (if done then some h else none) ≡ some h
pick true h e = refl
pick false h e = cc e

complete-active :
    (key : PeerKey) (m : Manager) (h : Handshake) (id : Bytes)
    → get key m.active ≡ some h
    → get_session_id h ≡ some id
    → complete_handshake key m ≡ (
      record m { active = remove key m.active; completed = put (some id) h m.completed },
      some id,
    )
unfolding complete_handshake
complete-active key m h id there e =
    let live = pick h.completed h (completed_of h id e) in
    rw (there, completed_active, complete_handshake, live, e)

-- Where the two managers stand behind the four messages.
pub record Exchanged (stc : Stc) (at_initiator at_responder : Manager)
    (to_responder to_initiator : PeerKey) (hello nR : Bytes) (d1 d2 t1 t2 t3 : ℕ) (id : Bytes)
    : Type 0 where
  pub i2 : Manager
  pub i4 : Manager
  pub r1 : Manager
  pub r3 : Manager
  pub r5 : Manager
  pub response : Bytes
  pub proof : Bytes
  pub final : Bytes
  pub answers : handle_incoming stc to_initiator hello nR d1 t1 at_responder ≡ (r1, ok response)
  pub proves : handle_incoming stc to_responder response [] d2 t2 at_initiator ≡ (i2, ok proof)
  pub accepts : handle_incoming stc to_initiator proof [] 0 t3 r1 ≡ (r3, ok final)
  pub ends : handle_incoming stc to_responder final [] 0 t3 i2 ≡ (i4, ok [])
  pub completes : complete_handshake to_initiator r3 ≡ (r5, some id)
  pub initiator_holds : (h : Handshake) × (get (some id) i4.completed ≡ some h)
  pub initiator_done : get to_responder i4.active ≡ none
  pub responder_holds : (h : Handshake) × (get (some id) r5.completed ≡ some h)
  pub responder_done : get to_initiator r5.active ≡ none

exchange :
    (stc : Stc) (hash_data : ℕ → Bytes → Bytes) (idI idR nI nR : Bytes) (d0 d1 d2 t0 t1 t2 t3 : ℕ)
    (a : Agreed stc hash_data idI idR nI nR d0 d1 d2 t0 t1 t2 t3)
    (at_initiator at_responder : Manager) (to_responder to_initiator : PeerKey)
    → at_responder.node_id ≡ idR
    → get to_responder at_initiator.active ≡ some a.greeted
    → get to_initiator at_responder.active ≡ none
    → is_truthy (some (session_id_of nI nR idI idR)) ≡ true
    → Exchanged stc at_initiator at_responder to_responder to_initiator a.hello nR d1 d2 t1 t2 t3
        (session_id_of nI nR idI idR)
exchange stc hash_data idI idR nI nR d0 d1 d2 t0 t1 t2 t3 a mi mr kr ki own there absent truthy =
    let id = session_id_of nI nR idI idR in
    let r1 = record mr { active = put ki a.asked mr.active } in
    let r3 = record mr { active = put ki a.accepted r1.active } in
    let r5 = record r3 {
      active = remove ki r3.active;
      completed = put (some id) a.accepted mr.completed;
    } in
    let i2 = record mi { active = put kr a.proved mi.active } in
    let i4 = record mi {
      active = remove kr (put kr a.finished i2.active);
      completed = put (some id) a.finished mi.completed;
    } in
    record {
      i2 = i2;
      i4 = i4;
      r1 = r1;
      r3 = r3;
      r5 = r5;
      response = a.response;
      proof = a.proof;
      final = a.final;
      answers =
          handle-hello stc ki a.hello nR d1 t1 mr a.asked a.response a.kind0 absent
            (rw own a.step1);
      proves =
          handle-response stc kr a.response [] d2 t2 mi a.greeted a.proved a.proof a.kind1 there
            a.step2;
      accepts =
          handle-proof stc ki a.proof [] 0 t3 r1 a.asked a.accepted a.final a.kind2
            (get-put_self ki a.asked mr.active) a.step3;
      ends =
          handle-final stc kr a.final [] 0 t3 i2 a.proved a.finished id a.kind3
            (get-put_self kr a.proved mi.active) a.step4 a.initiator_id truthy;
      completes =
          complete-active ki r3 a.accepted id (get-put_self ki a.accepted r1.active) a.responder_id;
      initiator_holds = (a.finished, get-put_id id a.finished mi.completed);
      initiator_done = get-remove_self kr (put kr a.finished i2.active);
      responder_holds = (a.accepted, get-put_id id a.accepted mr.completed);
      responder_done = get-remove_self ki r3.active;
    }

-- The identifier of two nonces of 32 bytes is not empty.
session_id_of-is_truthy :
    (nI nR idI idR : Bytes)
    → length nI ≡ 32
    → length nR ≡ 32
    → is_truthy (some (session_id_of nI nR idI idR)) ≡ true
unfolding xor_bytes
session_id_of-is_truthy [] nR idI idR hn hm = absurd (omega (arith, hn))
session_id_of-is_truthy (a ∷ nI) [] idI idR hn hm = absurd (omega (arith, hm))
session_id_of-is_truthy (a ∷ nI) (b ∷ nR) idI idR hn hm = refl

-- Two managers: the initiator's holds, for the responder's key, the handshake that create_hello has left,
-- and the responder's none for the initiator's. With a lawful crypto context whose encryption does not
-- raise, nonces of 32 bytes, and other parts of the messages that fit their formats, handle_incoming
-- answers the HELLO, the RESPONSE, the AUTH_PROOF and the FINAL message in turn, and behind them and
-- complete_handshake each manager has moved its handshake to the completed sessions, under the session
-- identifier that both nonces and both node identifiers determine.
pub managers_agree :
    (stc : Stc) (hash_data : ℕ → Bytes → Bytes) (idI idR nI nR : Bytes) (d0 d1 d2 t0 t1 t2 t3 : ℕ)
    (greeted : Handshake) (hello : Bytes) (at_initiator at_responder : Manager)
    (to_responder to_initiator : PeerKey)
    → IsLawful stc
    → IsTotal stc
    → IsSize (length (hash_data d0 (idI ++ nI)))
    → IsSize (length idI)
    → IsSize (length idR)
    → length nI ≡ 32
    → length nR ≡ 32
    → IsTime t0
    → IsTime t1
    → IsTime t2
    → IsTime t3
    → create_hello stc hash_data nI d0 t0 (new idI true) ≡ (greeted, ok hello)
    → at_responder.node_id ≡ idR
    → get to_responder at_initiator.active ≡ some greeted
    → get to_initiator at_responder.active ≡ none
    → Exchanged stc at_initiator at_responder to_responder to_initiator hello nR d1 d2 t1 t2 t3
        (session_id_of nI nR idI idR)
managers_agree stc hash_data idI idR nI nR d0 d1 d2 t0 t1 t2 t3 greeted hello mi mr kr ki law total
      hh hI hR hn hm h0 h1 h2 h3 said own there absent =
    let a =
      handshake_agrees stc hash_data idI idR nI nR d0 d1 d2 t0 t1 t2 t3 law total hh hI hR hn hm h0
        h1 h2 h3 in
    let same : (a.greeted, ok a.hello) ≡ (greeted, ok hello) = sym a.step0 ∙ said in
    let held : greeted ≡ a.greeted =
      sym (ap (λ (r : Handshake × Result HandshakeError Bytes). r.0) same) in
    let written : a.hello ≡ hello = cc same in
    subst
      (λ (b : Bytes). Exchanged stc mi mr kr ki b nR d1 d2 t1 t2 t3 (session_id_of nI nR idI idR))
      written
      (exchange stc hash_data idI idR nI nR d0 d1 d2 t0 t1 t2 t3 a mi mr kr ki own
        (there ∙ ap (λ (h : Handshake). some h) held) absent
        (session_id_of-is_truthy nI nR idI idR hn hm))
