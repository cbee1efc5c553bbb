-- ===== src/Handshake/Examples.antt =====
-- A handshake over a toy crypto context, and the theorems at it.
use seigr_toolset_transmissi.Common.{
  ℕ, ◌≡◌, refl, [], ◌∷◌, ◌++◌, Bytes, true, some, replicate, ok, arith,
}
use seigr_toolset_transmissi.Common.Dict.{get}
use seigr_toolset_transmissi.Stc.{Stc, IsLawful}
use seigr_toolset_transmissi.Struct.{pack_int, pack_uint, be}
use seigr_toolset_transmissi.Serialization.{codes}
use seigr_toolset_transmissi.Serialization.Utf8.{encode}
use seigr_toolset_transmissi.Serialization.Encode.{
  serialize, serialize_int, serialize_string, serialize_bytes, join_entries, sort_entries,
  insert_entry,
}
use seigr_toolset_transmissi.Handshake.{new, xor_bytes, session_id_of, process_final}
use seigr_toolset_transmissi.Handshake.Manager.{Manager, PeerKey, address}
use seigr_toolset_transmissi.Handshake.Agreement.{IsTotal, Agreed, handshake_agrees}
use seigr_toolset_transmissi.Handshake.Exchange.{Exchanged, managers_agree}
use seigr_toolset_transmissi.Handshake.Refusal.{
  IsAuthenticated, process_response-IsAuthenticated, process_final_unproved,
}

-- The ciphertext is the plaintext, and the metadata the random choice.
abbrev toy : Stc
toy = record {
  encrypt_frame = λ draw payload context. some (payload, draw ∷ []);
  decrypt_frame = λ c m context. some c;
}

toy-IsLawful : IsLawful toy
toy-IsLawful = record { decrypt-encrypt = λ draw payload context c m e. cc e }

abbrev hash : ℕ → Bytes → Bytes
hash draw bs = draw ∷ []

toy-IsTotal : IsTotal toy
toy-IsTotal = record {
  encrypts = λ draw payload context small. (payload, draw ∷ [], refl, (omega arith), (omega arith));
}

abbrev ours : Bytes
ours = 9 ∷ replicate 31 4

abbrev theirs : Bytes
theirs = replicate 32 2

handshake_agrees_example : Agreed toy hash (1 ∷ []) (6 ∷ []) ours theirs 0 1 2 3 4 5 6
handshake_agrees_example =
    handshake_agrees toy hash (1 ∷ []) (6 ∷ []) ours theirs 0 1 2 3 4 5 6 toy-IsLawful toy-IsTotal
      (omega arith) (omega arith) (omega arith) refl refl (omega arith) (omega arith) (omega arith)
      (omega arith)

abbrev meeting : Agreed toy hash (1 ∷ []) (6 ∷ []) ours theirs 0 1 2 3 4 5 6
meeting =
    handshake_agrees toy hash (1 ∷ []) (6 ∷ []) ours theirs 0 1 2 3 4 5 6 toy-IsLawful toy-IsTotal
      (omega arith) (omega arith) (omega arith) refl refl (omega arith) (omega arith) (omega arith)
      (omega arith)

abbrev here : PeerKey
here = address (codes "10.0.0.1") 80

abbrev there : PeerKey
there = address (codes "10.0.0.2") 80

abbrev initiator : Manager
initiator = record { node_id = 1 ∷ []; active = (there, meeting.greeted) ∷ []; completed = [] }

abbrev responder : Manager
responder = record { node_id = 6 ∷ []; active = []; completed = [] }

managers_agree_example :
    Exchanged toy initiator responder there here meeting.hello theirs 1 2 4 5 6
      (session_id_of ours theirs (1 ∷ []) (6 ∷ []))
unfolding get xor_bytes
managers_agree_example =
    managers_agree toy hash (1 ∷ []) (6 ∷ []) ours theirs 0 1 2 3 4 5 6 meeting.greeted
      meeting.hello initiator responder there here toy-IsLawful toy-IsTotal (omega arith)
      (omega arith) (omega arith) refl refl (omega arith) (omega arith) (omega arith) (omega arith)
      meeting.step0 refl refl refl

process_response-IsAuthenticated_example :
    IsAuthenticated toy meeting.response meeting.greeted meeting.proved
process_response-IsAuthenticated_example =
    process_response-IsAuthenticated toy meeting.response meeting.proof 2 5 meeting.greeted
      meeting.proved meeting.step2

-- {"session_id": None, "timestamp": 5, "type": "FINAL"}
abbrev empty_final : Bytes
empty_final =
    0x41 ∷ 0 ∷ 0 ∷ 0 ∷ 3 ∷ 0x31 ∷ 0 ∷ 0 ∷ 0 ∷ 10 ∷ codes "session_id"
    ++ (0x00 ∷ 0x31 ∷ 0 ∷ 0 ∷ 0 ∷ 9 ∷ codes "timestamp"
        ++ (0x10 ∷ 5 ∷ 0x31 ∷ 0 ∷ 0 ∷ 0 ∷ 4 ∷ codes "type"
            ++ (0x31 ∷ 0 ∷ 0 ∷ 0 ∷ 5 ∷ codes "FINAL")))

process_final_unproved_example :
    process_final empty_final (new (1 ∷ []) true)
    ≡ (record (new (1 ∷ []) true) { completed = true }, ok tt)
unfolding serialize serialize_int serialize_string serialize_bytes join_entries sort_entries
    insert_entry encode pack_int pack_uint be
process_final_unproved_example = process_final_unproved (new (1 ∷ []) true) empty_final 5 refl refl
