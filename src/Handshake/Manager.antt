-- ===== src/Handshake/Manager.antt =====
-- seigr_toolset_transmissions/handshake/handshake.py, class HandshakeManager. A handshake is an object
-- that the manager's dictionaries share with their callers: here the dictionaries hold its state, and a
-- method that is called on it is stored back, also where it raises.
use seigr_toolset_transmissi.Common.{
  ℕ, ◌≡◌, refl, List, [], ◌∷◌, Bytes, Bool, true, false, ◌&&◌, Option, none, some, Result, ok, err,
  ◌==◌, ==_iff, ◌↔◌, if◌then◌else◌, arith,
}
use seigr_toolset_transmissi.Common.Dict.{
  Dict, Eq, get, put, remove, values, bytes_beq, bytes_beq_iff, bytes_eq,
}
use seigr_toolset_transmissi.Stc.{Stc}
use seigr_toolset_transmissi.Serialization.{Value, str, Text, codes}
use seigr_toolset_transmissi.Handshake.{
  Handshake, HandshakeError, no_active_handshake, unknown_message, new, message_type, create_hello,
  process_hello, process_response, verify_response, process_final, get_session_id,
}

-- The keys of `active_handshakes`: node identifiers, and addresses of an IP and a port.
pub data PeerKey : Type 0 where
  node : Bytes → PeerKey
  address : Text → ℕ → PeerKey

abbrev pub peer_beq : PeerKey → PeerKey → Bool
peer_beq (node a) (node b) = bytes_beq a b
peer_beq (address a p) (address b q) = bytes_beq a b && p == q
peer_beq _ _ = false

pub peer_beq_iff : (a b : PeerKey) → (peer_beq a b ≡ true) ↔ (a ≡ b)
peer_beq_iff (node a) (node b) = ground (arith, bytes_beq_iff a b)
peer_beq_iff (address a p) (address b q) = ground (arith, bytes_beq_iff a b, ==_iff p q)
peer_beq_iff (node a) (address b q) = ((λ h. cc), (λ h. cc))
peer_beq_iff (address a p) (node b) = ((λ h. cc), (λ h. cc))

instance abbrev pub peer_eq : Eq PeerKey
peer_eq = record { beq = peer_beq; beq_iff = peer_beq_iff }

-- The keys of `completed_sessions`: `complete_handshake` may store under None.
abbrev pub id_beq : Option Bytes → Option Bytes → Bool
id_beq none none = true
id_beq (some a) (some b) = bytes_beq a b
id_beq _ _ = false

pub id_beq_iff : (a b : Option Bytes) → (id_beq a b ≡ true) ↔ (a ≡ b)
id_beq_iff none none = ((λ h. refl), (λ h. refl))
id_beq_iff (some a) (some b) = ground (arith, bytes_beq_iff a b)
id_beq_iff none (some b) = ((λ h. cc), (λ h. cc))
id_beq_iff (some a) none = ((λ h. cc), (λ h. cc))

instance abbrev pub id_eq : Eq (Option Bytes)
id_eq = record { beq = id_beq; beq_iff = id_beq_iff }

pub record Manager : Type 0 where
  pub node_id : Bytes
  pub active : Dict PeerKey Handshake
  pub completed : Dict (Option Bytes) Handshake

-- `__init__`
pub new_manager : Bytes → Manager
new_manager node_id = record { node_id = node_id; active = []; completed = [] }

abbrev pub store :
    {A : Type 0}
    → PeerKey
    → Manager
    → Handshake × Result HandshakeError A
    → Manager × Result HandshakeError A
store key m (h, r) = (record m { active = put key h m.active }, r)

-- `if session_id:`, which takes the empty byte string for none
abbrev pub is_truthy : Option Bytes → Bool
is_truthy none = false
is_truthy (some []) = false
is_truthy (some (b ∷ bs)) = true

-- `completed_sessions[session_id] = handshake; del active_handshakes[key]`
abbrev pub move : PeerKey → Handshake → Manager → Manager
move key h m = record m {
  active = remove key m.active;
  completed = put (get_session_id h) h m.completed;
}

abbrev pub move_if : Bool → PeerKey → Handshake → Manager → Manager
move_if ready key h m = if ready then move key h m else m

module _ (stc : Stc) (hash_data : ℕ → Bytes → Bytes) where
  initiated :
      PeerKey
      → Manager
      → Handshake × Result HandshakeError Bytes
      → Manager × Result HandshakeError Bytes
  initiated key m (h, ok hello) = (record m { active = put key h m.active }, ok hello)
  initiated key m (h, err e) = (m, err e)

  -- `initiate_handshake_sync`
  unfoldable pub initiate_handshake_sync :
      Bytes → Bytes → ℕ → ℕ → Manager → Manager × Result HandshakeError Bytes
  unfolding initiated
  initiate_handshake_sync peer nonce draw now m =
      initiated (node peer) m (create_hello stc hash_data nonce draw now (new m.node_id true))

module _ (stc : Stc) where
  peer_key : Option Bytes → PeerKey
  peer_key none = node []
  peer_key (some id) = node id

  greeted :
      Manager → Handshake × Result HandshakeError Bytes → Manager × Result HandshakeError Bytes
  unfolding peer_key
  greeted m (h, ok response) =
      (record m { active = put (peer_key h.peer_node_id) h m.active }, ok response)
  greeted m (h, err e) = (m, err e)

  -- `handle_hello`; a HELLO that was processed has set the peer's identifier.
  unfoldable pub handle_hello :
      Bytes → Bytes → ℕ → ℕ → Manager → Manager × Result HandshakeError Bytes
  unfolding greeted
  handle_hello hello nonce draw now m =
      greeted m (process_hello stc hello nonce draw now (new m.node_id false))

  responded :
      PeerKey
      → Manager
      → Handshake × Result HandshakeError Bytes
      → Manager × Result HandshakeError (Option Bytes)
  responded key m (h, ok proof) = (
    move_if (is_truthy (get_session_id h)) key h (record m { active = put key h m.active }),
    ok (get_session_id h),
  )
  responded key m (h, err e) = (record m { active = put key h m.active }, err e)

  -- `complete_handshake_sync`
  unfoldable pub complete_handshake_sync :
      Bytes → Bytes → ℕ → ℕ → Manager → Manager × Result HandshakeError (Option Bytes)
  unfolding responded
  complete_handshake_sync peer response draw now m = elim (get (node peer) m.active) [
    | none ↦ (m, err no_active_handshake)
    | some h ↦ responded (node peer) m (process_response stc response draw now h)
  ]

  abbrev pub finish :
      PeerKey
      → Manager
      → Handshake × Result HandshakeError (Unit {0})
      → Manager × Result HandshakeError Bytes
  finish key m (h, ok u) = (
    move_if (is_truthy (get_session_id h)) key h (record m { active = put key h m.active }),
    ok [],
  )
  finish key m (h, err e) = (record m { active = put key h m.active }, err e)

  abbrev pub is_kind : Option Value → Text → Bool
  is_kind (some (str s)) kind = bytes_beq s kind
  is_kind _ kind = false

  abbrev pub with_active :
      PeerKey
      → Manager
      → (Handshake → Manager × Result HandshakeError Bytes)
      → Manager × Result HandshakeError Bytes
  with_active key m run = elim (get key m.active) [
    | none ↦ (m, err no_active_handshake)
    | some h ↦ run h
  ]

  -- The handshake of a HELLO: the one that is there, or a new one.
  abbrev pub responder : Manager → Option Handshake → Handshake
  responder m none = new m.node_id false
  responder m (some h) = h

  abbrev pub by_kind :
      PeerKey
      → Bytes
      → Bytes
      → ℕ
      → ℕ
      → Manager
      → Option Value
      → Manager × Result HandshakeError Bytes
  by_kind key incoming nonce draw now m kind =
      if is_kind kind (codes "HELLO")
      then store key m (process_hello stc incoming nonce draw now (responder m (get key m.active)))
      else if is_kind kind (codes "RESPONSE")
      then with_active key m (λ h. store key m (process_response stc incoming draw now h))
      else if is_kind kind (codes "AUTH_PROOF")
      then with_active key m (λ h. store key m (verify_response stc incoming now h))
      else if is_kind kind (codes "FINAL")
      then with_active key m (λ h. finish key m (process_final incoming h))
      else (m, err unknown_message)

  -- `handle_incoming`
  unfoldable pub handle_incoming :
      PeerKey → Bytes → Bytes → ℕ → ℕ → Manager → Manager × Result HandshakeError Bytes
  handle_incoming key incoming nonce draw now m = elim (message_type incoming) [
    | ok kind ↦ by_kind key incoming nonce draw now m kind
    | err e ↦ (m, err e)
  ]

-- `initiate_handshake`
unfoldable pub initiate_handshake : PeerKey → Manager → Manager
initiate_handshake key m = record m { active = put key (new m.node_id true) m.active }

abbrev pub first_key : Dict (Option Bytes) Handshake → Option Bytes
first_key [] = none
first_key ((id, h) ∷ sessions) = id

-- The test `handshake and handshake.completed`.
abbrev pub completed_active : PeerKey → Manager → Option Handshake
completed_active key m = elim (get key m.active) [
  | none ↦ none
  | some h ↦ if h.completed then some h else none
]

-- `get_session_id`
unfoldable pub find_session_id : PeerKey → Manager → Option Bytes
find_session_id key m = elim (completed_active key m) [
  | some h ↦ get_session_id h
  | none ↦ first_key m.completed
]

-- `get_session_id_async`
unfoldable pub get_session_id_async : PeerKey → Manager → Option Bytes
get_session_id_async key m = elim (completed_active key m) [
  | some h ↦ get_session_id h
  | none ↦ none
]

-- `complete_handshake`
unfoldable pub complete_handshake : PeerKey → Manager → Manager × Option Bytes
complete_handshake key m = elim (completed_active key m) [
  | some h ↦ (move key h m, get_session_id h)
  | none ↦ (m, none)
]

any_peer : List Handshake → Bool
any_peer [] = false
any_peer (h ∷ hs) = let rest = any_peer hs in if is_truthy h.peer_node_id then true else rest

-- `is_handshake_complete`
unfoldable pub is_handshake_complete : PeerKey → Manager → Bool
unfolding any_peer
is_handshake_complete key m = elim (completed_active key m) [
  | some h ↦ true
  | none ↦ any_peer (values m.completed)
]

-- `cleanup_timeouts`
unfoldable pub cleanup_timeouts : ℕ → Manager → Manager
cleanup_timeouts max_age m = if max_age == 0 then record m { active = [] } else m
