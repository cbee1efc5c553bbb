-- ===== src/Continuity/Cleanup.antt =====
-- What cleanup_expired_sessions leaves, session/continuity.py.
use Prim.Native.String.{String}
use seigr_toolset_transmissi.Common.{
  ℕ, ◌≡◌, refl, ap, ◌∙◌, List, [], ◌∷◌, Bytes, Bool, true, false, Bool-cases, inl, inr, none, some,
  ◌⊎◌, err, if◌then◌else◌, arith,
}
use seigr_toolset_transmissi.Common.Dict.{Dict, get, get-remove, bytes_eq, bytes_beq}
use seigr_toolset_transmissi.Continuity.{invalid_token, SessionState, Continuity, has_expired}
use seigr_toolset_transmissi.Continuity.Registry.{
  resume_state, resume_session, expired_states, remove_expired, cleanup_expired_sessions,
}

module _ (per : ℕ) where
  -- Whether a token stands among those to remove.
  abbrev Listed : Bytes → List (Bytes × Bytes) → Type 0
  Listed token [] = ⊥
  Listed token ((t, i) ∷ expired) = (bytes_beq t token ≡ true) ⊎ Listed token expired

  Listed-head :
      (token t i : Bytes) (rest : List (Bytes × Bytes)) (late : Bool)
      → late ≡ true
      → bytes_beq t token ≡ true
      → Listed token (if late then (t, i) ∷ rest else rest)
  Listed-head token t i rest late on same = rw on (inl same)

  Listed-rest :
      (token t i : Bytes) (rest : List (Bytes × Bytes)) (late : Bool)
      → Listed token rest
      → Listed token (if late then (t, i) ∷ rest else rest)
  Listed-rest token t i rest true listed = inr listed
  Listed-rest token t i rest false listed = listed

  expired-Listed :
      (now : ℕ) (token : Bytes) (c : Continuity) (registry : Dict Bytes SessionState)
      (state : SessionState)
      → get token registry ≡ some state
      → has_expired per now c state ≡ true
      → Listed token (expired_states per now c registry)
  unfolding expired_states get
  expired-Listed now token c [] state there late = cc there
  expired-Listed now token c ((t, s) ∷ registry) state there late =
      let rest = expired_states per now c registry in
      elim (Bool-cases (bytes_beq t token)) [
        | inl same ↦
            let own : s ≡ state = cc (rw same at there) in
            Listed-head token t s.session_id rest (has_expired per now c s)
              (ap (has_expired per now c) own ∙ late) same
        | inr differ ↦
            Listed-rest token t s.session_id rest (has_expired per now c s)
              (expired-Listed now token c registry state (rw differ at there) late)
      ]

  remove_expired-none :
      (token : Bytes) (expired : List (Bytes × Bytes)) (c : Continuity)
      → get token c.session_registry ≡ none
      → get token (remove_expired per expired c).session_registry ≡ none
  unfolding remove_expired
  remove_expired-none token [] c gone = gone
  remove_expired-none token ((t, i) ∷ expired) c gone =
      remove_expired-none token expired _
        (get-remove t token c.session_registry ∙ ground (arith, gone))

  remove_expired-Listed :
      (token : Bytes) (expired : List (Bytes × Bytes)) (c : Continuity)
      → Listed token expired
      → get token (remove_expired per expired c).session_registry ≡ none
  unfolding remove_expired
  remove_expired-Listed token [] c listed = absurd listed
  remove_expired-Listed token ((t, i) ∷ expired) c (inl same) =
      remove_expired-none token expired _ (rw (get-remove, same) refl)
  remove_expired-Listed token ((t, i) ∷ expired) c (inr later) =
      remove_expired-Listed token expired _ later

  -- A token whose state has expired when the registry is cleaned is an invalid token from then on.
  pub resume_session-cleanup :
      (now later : ℕ) (token : Bytes) (transport : String) (addr : String × ℕ) (c : Continuity)
      (state : SessionState)
      → get token c.session_registry ≡ some state
      → has_expired per now c state ≡ true
      → resume_session per later token transport addr (cleanup_expired_sessions per now c).0
        ≡ ((cleanup_expired_sessions per now c).0, err invalid_token)
  unfolding resume_session cleanup_expired_sessions
  resume_session-cleanup now later token transport addr c state there late =
      let gone =
        remove_expired-Listed token (expired_states per now c c.session_registry) c
          (expired-Listed now token c c.session_registry state there late) in
      ap
        (resume_state per later token transport addr
          (remove_expired per (expired_states per now c c.session_registry) c))
        gone
