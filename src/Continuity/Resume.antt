-- ===== src/Continuity/Resume.antt =====
-- Resuming what was created, session/continuity.py.
use Prim.Native.String.{String}
use seigr_toolset_transmissi.Common.{
  ℕ, ◌+◌, ◌-◌, ◌*◌, ◌/◌, ◌≤◌, ◌≡◌, refl, sym, ap, ◌∙◌, [], ◌∷◌, Bytes, true, false, some, Result,
  ok, >>=-eq-ok, ◌==◌, length, arith,
}
use seigr_toolset_transmissi.Common.Dict.{
  get, put, get-put, string_eq, bytes_eq, nat_eq, bytes_beq, bytes_beq_iff,
}
use seigr_toolset_transmissi.Stc.{AssociatedData}
use seigr_toolset_transmissi.Session.{Session, started, new as new_session}
use seigr_toolset_transmissi.Continuity.{
  ContinuityError, number, Metadata, SessionState, Continuity, Attached, update, int_to_bytes,
  registered, has_expired,
}
use seigr_toolset_transmissi.Continuity.Registry.{
  new_state, create_resumable_session, attach, resumed_metadata, after_resume, reattach,
  resume_state, resume_session, saved_state, save_under, save_session_state,
}

same_key : (a : Bytes) → bytes_beq a a ≡ true
same_key a = (bytes_beq_iff a a).1 refl

-- A session with an identifier of eight bytes.
new_session-ok :
    (id peer : Bytes) (now : ℕ)
    → length id ≡ 8
    → (s : Session) × (new_session id peer now ≡ ok s)
      × (s.session_id ≡ id)
      × (s.peer_node_id ≡ peer)
unfolding new_session
new_session-ok id peer now eight =
    let right : (length id == 8) ≡ true = ground arith in
    (started id peer now, rw (new_session, right) refl, refl, refl)

module _ (per : ℕ) where
  -- A token whose state has not expired is resumed.
  pub resume_session-found :
      (now : ℕ) (token : Bytes) (transport : String) (addr : String × ℕ) (c : Continuity)
      (state : SessionState)
      → get token c.session_registry ≡ some state
      → has_expired per now c state ≡ false
      → length state.session_id ≡ 8
      → (session : Session) × (resume_session per now token transport addr c ≡ (
        record c {
          session_registry = put token (after_resume per transport state) c.session_registry;
        },
        ok (attach per now transport addr state session),
      ))
        × (session.session_id ≡ state.session_id)
        × (session.peer_node_id ≡ state.peer_node_id)
  unfolding resume_session
  resume_session-found now token transport addr c state there fresh eight =
      let (session, made, id, peer) =
        new_session-ok state.session_id state.peer_node_id now eight in
      (
        session,
        ap (resume_state per now token transport addr c) there
            ∙ rw (resume_state, fresh, made, reattach) refl,
        id,
        peer,
      )

  made_parts :
      (x y id token peer : Bytes) (stamp : ℕ) (c c' : Continuity)
      → ◌≡◌ {A = Result ContinuityError ((Bytes × Bytes) × Continuity)}
          (ok ((x, y), registered x y (new_state x peer stamp) c))
          (ok ((id, token), c'))
      → registered id token (new_state id peer stamp) c ≡ c'
  made_parts x y id token peer stamp c c' h =
      let first : x ≡ id = cc h in
      let second : y ≡ token = cc h in
      let third : registered x y (new_state x peer stamp) c ≡ c' = cc h in
      ap (λ i. registered i token (new_state i peer stamp) c) (sym first)
      ∙ ap (λ t. registered x t (new_state x peer stamp) c) (sym second)
      ∙ third

  -- A session that was created is resumed by its token until the token expires, if its identifier has
  -- eight bytes: with the same identifier and the same peer, on the new transport, as its first
  -- resumption.
  pub resume_session-create :
      (hash_data : ℕ → Bytes → AssociatedData → Bytes) (draw now later : ℕ)
      (peer node_seed shared_seed id token : Bytes) (transport : String) (addr : String × ℕ)
      (c c' : Continuity)
      → create_resumable_session hash_data per draw now peer node_seed shared_seed c
        ≡ ok ((id, token), c')
      → length id ≡ 8
      → later - now / per * per ≤ c.resumption_timeout * per
      → (a : Attached) × (c'' : Continuity) × (resume_session per later token transport addr c'
          ≡ (c'', ok a))
        × (a.session.session_id ≡ id)
        × (a.session.peer_node_id ≡ peer)
        × (a.transport_type ≡ some transport)
        × (get "resume_count" a.metadata ≡ some (number 1))
  unfolding create_resumable_session
  resume_session-create hash_data draw now later peer node_seed shared_seed id token transport addr
        c c' made eight in_time =
      let (stamp, _, out) = >>=-eq-ok (int_to_bytes (now / per)) _ made in
      let state = new_state id peer (now / per) in
      let start = registered id token state c in
      let there : get token start.session_registry ≡ some state =
        rw (get-put, same_key token) refl in
      let fresh : has_expired per later start state ≡ false = ground arith in
      let (session, run, own, other) =
        resume_session-found later token transport addr start state there fresh eight in
      let same = made_parts _ _ id token peer (now / per) c c' out in
      (
        attach per later transport addr state session,
        _,
        ap (resume_session per later token transport addr) (sym same) ∙ run,
        own,
        other,
        refl,
        (unfold update put get in refl),
      )

  -- A session whose state has no metadata yet is resumed, saved, and resumed again, with no expiry: the
  -- metadata of the second resumption give the count of the first, though the registry has counted both.
  pub resume-save-resume :
      (now later : ℕ) (b : ℕ) (bs : Bytes) (first second : String) (addr addr' : String × ℕ)
      (c : Continuity) (state : SessionState)
      → get (b ∷ bs) c.session_registry ≡ some state
      → get state.session_id c.session_tokens ≡ some (b ∷ bs)
      → state.metadata ≡ []
      → length state.session_id ≡ 8
      → has_expired per now c state ≡ false
      → has_expired per later c state ≡ false
      → (c' : Continuity) × (a : Attached) × (c'' : Continuity) × (a' : Attached)
        × (state' : SessionState) × (resume_session per now (b ∷ bs) first addr c ≡ (c', ok a))
        × (resume_session per later (b ∷ bs) second addr' (save_session_state per a [] c')
            ≡ (c'', ok a'))
        × (get "resume_count" a'.metadata ≡ some (number (state.resume_count + 1)))
        × (get (b ∷ bs) c''.session_registry ≡ some state')
        × (state'.resume_count ≡ state.resume_count + 1 + 1)
  unfolding save_session_state
  resume-save-resume now later b bs first second addr addr' c state there known plain eight fresh
        fresh' =
      let (session, run, own, _) =
        resume_session-found now (b ∷ bs) first addr c state there fresh eight in
      let a = attach per now first addr state session in
      let state1 = after_resume per first state in
      let c1 = record c { session_registry = put (b ∷ bs) state1 c.session_registry } in
      let state2 = saved_state per a [] state1 in
      let c2 = record c1 { session_registry = put (b ∷ bs) state2 c1.session_registry } in
      let there1 : get (b ∷ bs) c1.session_registry ≡ some state1 =
        rw (get-put, same_key (b ∷ bs)) refl in
      let there2 : get (b ∷ bs) c2.session_registry ≡ some state2 =
        rw (get-put, same_key (b ∷ bs)) refl in
      let saved : save_session_state per a [] c1 ≡ c2 =
        ap (λ t. save_under per a [] t c1) (ap (λ i. get i c.session_tokens) own ∙ known)
        ∙ rw (save_under, there1) refl in
      let (session', run', _, _) =
        resume_session-found later (b ∷ bs) second addr' c2 state2 there2 fresh' eight in
      (
        c1,
        a,
        _,
        attach per later second addr' state2 session',
        after_resume per second state2,
        run,
        ap (resume_session per later (b ∷ bs) second addr') saved ∙ run',
        ap
              (λ (m : Metadata). get "resume_count" (
                resumed_metadata per later (
                  saved_state per
                    (attach per now first addr (record state { metadata = m }) session) []
                    (after_resume per first (record state { metadata = m })))))
              plain
            ∙ (unfold update put get in refl),
        rw (get-put, same_key (b ∷ bs)) refl,
        refl,
      )
