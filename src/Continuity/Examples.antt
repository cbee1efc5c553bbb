-- ===== src/Continuity/Examples.antt =====
-- Runs of the session continuity, and its theorems at concrete inputs.
use seigr_toolset_transmissi.Common.{
  ℕ, ◌+◌, ◌*◌, ◌/◌, ◌≤◌, ◌↔◌, ◌≡◌, ◌≢◌, ◌<◌, ◌^◌, refl, sym, ap, ◌∙◌, [], ◌∷◌, ◌++◌, Bytes, true,
  some, ok, err, take, drop, take_prefix, append-nil, arith,
}
use seigr_toolset_transmissi.Common.Dict.{get, string_eq, bytes_eq}
use seigr_toolset_transmissi.Stc.{AssociatedData}
use seigr_toolset_transmissi.Struct.{be, from_be}
use seigr_toolset_transmissi.Struct.Laws.{length-be, from_be-be}
use seigr_toolset_transmissi.Continuity.{
  invalid_token, number, SessionState, Continuity, Attached, int_to_bytes,
}
use seigr_toolset_transmissi.Continuity.Registry.{
  create_resumable_session, new_state, created, resume_session, save_session_state,
  cleanup_expired_sessions,
}
use seigr_toolset_transmissi.Continuity.Challenge.{
  proof_of, generate_continuity_proof, verify_continuity_proof,
}
use seigr_toolset_transmissi.Continuity.Resume.{resume_session-create, resume-save-resume}
use seigr_toolset_transmissi.Continuity.Proof.{verify_iff, verify_refuses}
use seigr_toolset_transmissi.Continuity.Cleanup.{resume_session-cleanup}

-- A hash that is the data themselves, and a clock of a thousand ticks to the second.
abbrev plain : ℕ → Bytes → AssociatedData → Bytes
plain draw material ad = material

abbrev empty : Continuity
empty = record { resumption_timeout = 60; session_registry = []; session_tokens = [] }

abbrev id : Bytes
id = 1 ∷ 2 ∷ 3 ∷ 4 ∷ 5 ∷ 6 ∷ 7 ∷ 8 ∷ []

abbrev seed : Bytes
seed = 1 ∷ 2 ∷ 3 ∷ 4 ∷ 5 ∷ 6 ∷ []

abbrev made : (Bytes × Bytes) × Continuity
made = created plain 1000 0 (9 ∷ []) (seed ++ ((7 ∷ 8 ∷ []) ++ ((9 ∷ []) ++ be 8 100))) 100 empty

create_run : create_resumable_session plain 1000 0 100500 (9 ∷ []) seed (7 ∷ 8 ∷ []) empty ≡ ok made
unfolding create_resumable_session int_to_bytes
create_run = refl

resume_session-create_example :
    (a : Attached) × (c : Continuity) × (resume_session 1000 130000 made.0.1 "udp"
        ("host", 5)
        made.1
      ≡ (c, ok a))
    × (a.session.session_id ≡ id)
    × (a.session.peer_node_id ≡ 9 ∷ [])
    × (a.transport_type ≡ some "udp")
    × (get "resume_count" a.metadata ≡ some (number 1))
resume_session-create_example =
    resume_session-create 1000 plain 0 100500 130000 (9 ∷ []) seed (7 ∷ 8 ∷ []) id made.0.1 "udp"
      ("host", 5) empty made.1 create_run refl (omega arith)

abbrev state : SessionState
state = new_state id (9 ∷ []) 100

abbrev known : Continuity
known = record {
  resumption_timeout = 60;
  session_registry = (5 ∷ [], state) ∷ [];
  session_tokens = (id, 5 ∷ []) ∷ [];
}

resume-save-resume_example :
    (c' : Continuity) × (a : Attached) × (c'' : Continuity) × (a' : Attached)
    × (state' : SessionState) × (resume_session 1000 101000 (5 ∷ []) "udp" ("host", 5) known
        ≡ (c', ok a))
    × (resume_session 1000 102000 (5 ∷ []) "websocket" ("host", 6) (save_session_state 1000 a [] c')
        ≡ (c'', ok a'))
    × (get "resume_count" a'.metadata ≡ some (number 1))
    × (get (5 ∷ []) c''.session_registry ≡ some state')
    × (state'.resume_count ≡ 2)
unfolding get
resume-save-resume_example =
    resume-save-resume 1000 101000 102000 5 [] "udp" "websocket" ("host", 5) ("host", 6) known state
      refl refl refl refl refl refl

resume_session-cleanup_example :
    resume_session 1000 200000
      (5 ∷ [])
      "udp"
      ("host", 5)
      (cleanup_expired_sessions 1000 161000 known).0
    ≡ ((cleanup_expired_sessions 1000 161000 known).0, err invalid_token)
unfolding get
resume_session-cleanup_example =
    resume_session-cleanup 1000 161000 200000 (5 ∷ []) "udp" ("host", 5) known state refl refl

-- Without seeds the stamp stands in the last eight of the 32 bytes.
abbrev proof : Bytes
proof = proof_of plain 1000 0 [] [] id (be 8 100)

generate_run : generate_continuity_proof plain 1000 0 100500 id [] [] ≡ ok proof
unfolding generate_continuity_proof int_to_bytes
generate_run = refl

verify_iff_example : (verify_continuity_proof plain 1000 7 120500 id proof [] [] 60 ≡ ok true) ↔ (
    (n t : ℕ) × (10 * n ≤ 2 * 60)
    × (120500 / 1000 + 10 * n ≡ t + 60)
    × (proof ≡ proof_of plain 1000 (7 + n) [] [] id (be 8 t)))
verify_iff_example = verify_iff plain 1000 id [] [] 7 120500 60 proof (omega arith) (omega arith)

-- The proof of second 100 is the one of the fifth round at second 120.
verify_run : verify_continuity_proof plain 1000 7 120500 id proof [] [] 60 ≡ ok true
verify_run =
    (verify_iff plain 1000 id [] [] 7 120500 60 proof (omega arith) (omega arith)).1
      (4, 100, omega arith, omega arith, refl)

take-be : (s : ℕ) → take 8 (be 8 s) ≡ be 8 s
take-be s =
    let whole = take_prefix 8 (be 8 s) [] (length-be 8 s) in rw (append-nil (be 8 s)) at whole

proof-apart : (d s : ℕ) → s < 256 ^ 8 → s ≢ 100 → proof ≢ proof_of plain 1000 d [] [] id (be 8 s)
proof-apart d s small other same =
    let stamps = sym (take-be 100) ∙ ap (drop 24) same ∙ take-be s in
    other
      (sym (from_be-be 8 s small) ∙ ap (from_be 0) (sym stamps) ∙ from_be-be 8 100 (omega arith))

-- Seven seconds later.
verify_refuses_example : verify_continuity_proof plain 1000 7 107500 id proof [] [] 60 ≢ ok true
verify_refuses_example =
    verify_refuses plain 1000 id [] [] 0 7 100500 107500 60 proof generate_run proof-apart
      (omega arith)
