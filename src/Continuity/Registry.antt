-- ===== src/Continuity/Registry.antt =====
-- The registry of session/continuity.py: creating, resuming, saving and expiring resumable sessions.
use Prim.Native.String.{String}
use seigr_toolset_transmissi.Common.{
  ℕ, suc, ◌+◌, ◌/◌, List, [], ◌∷◌, ◌++◌, Bytes, Bool, true, Option, none, some, Result, ok, err,
  bind, if◌then◌else◌, length, take,
}
use seigr_toolset_transmissi.Common.Dict.{
  Dict, get, put, remove, ◌===◌, string_eq, bytes_eq, nat_eq,
}
use seigr_toolset_transmissi.Common.Int.{pos}
use seigr_toolset_transmissi.Stc.{AssociatedData, text, int}
use seigr_toolset_transmissi.Session.{Session, SessionError, new as new_session}
use seigr_toolset_transmissi.Continuity.{
  ContinuityError, invalid_token, expired_token, key_error, no_session, flag, name, number,
  Metadata, StreamState, SessionState, Continuity, Attached, update, int_to_bytes, resume_label,
  registered, age_of, has_expired,
}

-- The dictionary that `get_resumption_info` returns.
pub record Info : Type 0 where
  pub session_id : Bytes
  pub peer_node_id : Bytes
  pub created_at : ℕ
  pub age : ℕ
  pub resume_count : ℕ
  pub last_transport : String
  pub num_streams : ℕ
  pub expired : Bool

abbrev pub new_state : Bytes → Bytes → ℕ → SessionState
new_state session_id peer timestamp = record {
  session_id = session_id;
  peer_node_id = peer;
  created_at = timestamp;
  last_sequence = 0;
  stream_states = [];
  last_transport = "unknown";
  resume_count = 0;
  metadata = [];
}

module _ (hash_data : ℕ → Bytes → AssociatedData → Bytes) (per : ℕ) where
  abbrev pub created : ℕ → Bytes → Bytes → ℕ → Continuity → (Bytes × Bytes) × Continuity
  created draw peer material timestamp c =
      let session_id = take 8 (hash_data draw material (("purpose", text "session_id") ∷ [])) in
      let token = take 32 (
        hash_data (suc draw) (material ++ resume_label)
          (("purpose", text "resumption") ∷ ("timestamp", int (pos timestamp)) ∷ [])) in
      ((session_id, token), registered session_id token (new_state session_id peer timestamp) c)

  -- `create_resumable_session`
  unfoldable pub create_resumable_session :
      ℕ
      → ℕ
      → Bytes
      → Bytes
      → Bytes
      → Continuity
      → Result ContinuityError ((Bytes × Bytes) × Continuity)
  create_resumable_session draw now peer node_seed shared_seed c =
      bind (int_to_bytes (now / per)) (λ stamp.
        ok (created draw peer (node_seed ++ (shared_seed ++ (peer ++ stamp))) (now / per) c))

module _ (per : ℕ) where
  -- Removal of an expired state: `del` raises where the key is not there.
  abbrev pub expire : Bytes → SessionState → Continuity → Continuity × ContinuityError
  expire token state c =
      let c' = record c { session_registry = remove token c.session_registry } in
      elim (get state.session_id c.session_tokens) [
        | none ↦ (c', key_error)
        | some _ ↦
            (record c' { session_tokens = remove state.session_id c.session_tokens }, expired_token)
      ]

  abbrev pub resumed_metadata : ℕ → SessionState → Metadata
  resumed_metadata now state =
      update
        (("resumed", flag true)
          ∷ ("previous_transport", name state.last_transport)
          ∷ ("resume_count", number (state.resume_count + 1))
          ∷ ("original_created_at", number state.created_at)
          ∷ ("resume_age", number (age_of per now state))
          ∷ [])
        state.metadata

  abbrev pub attach : ℕ → String → String × ℕ → SessionState → Session → Attached
  attach now transport addr state session = record {
    session = session;
    peer_addr = addr;
    transport_type = some transport;
    metadata = resumed_metadata now state;
  }

  abbrev pub after_resume : String → SessionState → SessionState
  after_resume transport state = record state {
    resume_count = state.resume_count + 1;
    last_transport = transport;
    last_sequence = 0;
  }

  abbrev pub reattach :
      ℕ
      → Bytes
      → String
      → String × ℕ
      → SessionState
      → Continuity
      → Result SessionError Session
      → Continuity × Result ContinuityError Attached
  reattach now token transport addr state c (err e) = (c, err (no_session e))
  reattach now token transport addr state c (ok session) = (
    record c { session_registry = put token (after_resume transport state) c.session_registry },
    ok (attach now transport addr state session),
  )

  abbrev pub resume_state :
      ℕ
      → Bytes
      → String
      → String × ℕ
      → Continuity
      → Option SessionState
      → Continuity × Result ContinuityError Attached
  resume_state now token transport addr c none = (c, err invalid_token)
  resume_state now token transport addr c (some state) =
      if has_expired per now c state
      then (let (c', e) = expire token state c in (c', err e))
      else reattach now token transport addr state c
          (new_session state.session_id state.peer_node_id now)

  -- `resume_session`: the state it leaves, and what it returns or raises.
  unfoldable pub resume_session :
      ℕ → Bytes → String → String × ℕ → Continuity → Continuity × Result ContinuityError Attached
  resume_session now token transport addr c =
      resume_state now token transport addr c (get token c.session_registry)

  abbrev pub transport_or_unknown : Option String → String
  transport_or_unknown none = "unknown"
  transport_or_unknown (some t) = if t === "" then "unknown" else t

  abbrev pub saved_state : Attached → Dict ℕ StreamState → SessionState → SessionState
  saved_state a streams state = record state {
    last_sequence = 0;
    last_transport = transport_or_unknown a.transport_type;
    metadata = update state.metadata a.metadata;
    stream_states = update state.stream_states streams;
  }

  abbrev pub save_under : Attached → Dict ℕ StreamState → Option Bytes → Continuity → Continuity
  save_under a streams none c = c
  save_under a streams (some []) c = c
  save_under a streams (some (b ∷ bs)) c = elim (get (b ∷ bs) c.session_registry) [
    | none ↦ c
    | some state ↦ record c {
      session_registry = put (b ∷ bs) (saved_state a streams state) c.session_registry;
    }
  ]

  -- `save_session_state`; no stream states and an empty dictionary of them are the same.
  unfoldable pub save_session_state : Attached → Dict ℕ StreamState → Continuity → Continuity
  save_session_state a streams c =
      save_under a streams (get a.session.session_id c.session_tokens) c

  -- The expired states, in the order of the registry.
  unfoldable pub expired_states : ℕ → Continuity → Dict Bytes SessionState → List (Bytes × Bytes)
  expired_states now c [] = []
  expired_states now c ((token, state) ∷ registry) =
      let rest = expired_states now c registry in
      if has_expired per now c state then (token, state.session_id) ∷ rest else rest

  unfoldable pub remove_expired : List (Bytes × Bytes) → Continuity → Continuity
  remove_expired [] c = c
  remove_expired ((token, session_id) ∷ expired) c = remove_expired expired (record c {
    session_registry = remove token c.session_registry;
    session_tokens = remove session_id c.session_tokens;
  })

  -- `cleanup_expired_sessions`
  unfoldable pub cleanup_expired_sessions : ℕ → Continuity → Continuity × ℕ
  cleanup_expired_sessions now c =
      let expired = expired_states now c c.session_registry in
      (remove_expired expired c, length expired)

  abbrev pub info_of : ℕ → Continuity → SessionState → Info
  info_of now c state = record {
    session_id = state.session_id;
    peer_node_id = state.peer_node_id;
    created_at = state.created_at;
    age = age_of per now state;
    resume_count = state.resume_count;
    last_transport = state.last_transport;
    num_streams = length state.stream_states;
    expired = has_expired per now c state;
  }

  abbrev pub info_under : ℕ → Continuity → Option Bytes → Option Info
  info_under now c none = none
  info_under now c (some []) = none
  info_under now c (some (b ∷ bs)) = elim (get (b ∷ bs) c.session_registry) [
    | none ↦ none
    | some state ↦ some (info_of now c state)
  ]

  -- `get_resumption_info`
  unfoldable pub get_resumption_info : ℕ → Bytes → Continuity → Option Info
  get_resumption_info now session_id c = info_under now c (get session_id c.session_tokens)
