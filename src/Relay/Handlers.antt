-- ===== src/Relay/Handlers.antt =====
-- The handlers of RelayServer in seigr_toolset_transmissions/nat/relay_server.py, and RelayProtocol.
use Prim.Native.String.{String}
use seigr_toolset_transmissi.Common.{
  ℕ, ◌+◌, List, [], ◌∷◌, Bytes, Bool, true, false, ◌&&◌, Option, none, some, if◌then◌else◌, length,
}
use seigr_toolset_transmissi.Common.Dict.{put, remove, ◌===◌, string_eq}
use seigr_toolset_transmissi.Relay.{
  RegisteredNode, Server, Message, Loaded, invalid, failed, message, Response, registered, alive,
  unregistered, peer_info, peer_not_found, error, Reply, answer, silent, raised, not_subscriptable,
  lookup_node, cleanup, RelayEvent, datagram, round, or_else, Key, key_eq, Identifier, key_of,
  is_falsy, hashed, logged,
}

abbrev pub is_of_type : String → Option String → Bool
is_of_type expected none = false
is_of_type expected (some t) = t === expected

module _ {ℓ} {V : Type ℓ} where
  abbrev pub new_node : V → Key → Message V → V × V → ℕ → RegisteredNode V
  new_node empty node_id msg addr now = record {
    node_id = node_id;
    host = or_else addr.0 msg.host;
    port = or_else addr.1 msg.port;
    registered_at = now;
    last_keep_alive = now;
    metadata = or_else empty msg.metadata;
  }

  abbrev pub register_node : Key → RegisteredNode V → Server V → Server V
  register_node node_id n s = record s {
    nodes = put node_id n s.nodes;
    stats = record s.stats { registrations = s.stats.registrations + 1 };
  }

  -- `_handle_register`; `empty` is the empty dictionary.
  abbrev pub register_as : V → Option Key → Message V → V × V → ℕ → Server V → Server V × Reply V
  register_as empty none msg addr now s = (s, answer (error "Missing node_id" now))
  register_as empty (some k) msg addr now s =
      (register_node k (new_node empty k msg addr now) s, answer (registered k now))

  unfoldable pub handle_register : V → Message V → V × V → ℕ → Server V → Server V × Reply V
  handle_register empty msg addr now s =
      if is_falsy msg.node_id
      then (s, answer (error "Missing node_id" now))
      else hashed msg.node_id s
          (logged msg.node_id (register_as empty (key_of msg.node_id) msg addr now s))

  -- `_handle_keep_alive`, where the answer to a node that is not there names it in a log line first
  abbrev pub refresh : Key → RegisteredNode V → ℕ → Server V → Server V
  refresh node_id n now s = record s {
    nodes = put node_id (record n { last_keep_alive = now }) s.nodes;
    stats = record s.stats { keep_alives = s.stats.keep_alives + 1 };
  }

  abbrev pub keep_alive_found :
      Option Key → Option (RegisteredNode V) → ℕ → Server V → Server V × Reply V
  keep_alive_found none found now s = (s, raised not_subscriptable)
  keep_alive_found (some node_id) none now s = (s, answer (error "Not registered" now))
  keep_alive_found (some node_id) (some n) now s = (refresh node_id n now s, answer (alive now))

  unfoldable pub handle_keep_alive : Message V → ℕ → Server V → Server V × Reply V
  handle_keep_alive msg now s =
      let k = key_of msg.node_id in
      hashed msg.node_id s (logged msg.node_id (keep_alive_found k (lookup_node k s) now s))

  -- `_handle_unregister`
  abbrev pub unregister_node : Key → Server V → Server V
  unregister_node node_id s = record s {
    nodes = remove node_id s.nodes;
    stats = record s.stats { unregistrations = s.stats.unregistrations + 1 };
  }

  abbrev pub unregister_found :
      Identifier → Option Key → Option (RegisteredNode V) → ℕ → Server V → Server V × Reply V
  unregister_found id (some k) (some n) now s =
      logged id (unregister_node k s, answer (unregistered now))
  unregister_found id (some k) none now s = (s, answer (unregistered now))
  unregister_found id none found now s = (s, answer (unregistered now))

  unfoldable pub handle_unregister : Message V → ℕ → Server V → Server V × Reply V
  handle_unregister msg now s =
      let k = key_of msg.node_id in
      hashed msg.node_id s (unregister_found msg.node_id k (lookup_node k s) now s)

  -- `_handle_lookup`, which counts the lookup before it names the peer in a log line
  abbrev pub count_lookup : Server V → Server V
  count_lookup s = record s { stats = record s.stats { lookups = s.stats.lookups + 1 } }

  abbrev pub count_hit : Server V → Server V
  count_hit s = record s {
    stats = record s.stats { lookups = s.stats.lookups + 1; lookup_hits = s.stats.lookup_hits + 1 };
  }

  abbrev pub count_miss : Server V → Server V
  count_miss s = record s {
    stats = record s.stats {
      lookups = s.stats.lookups + 1;
      lookup_misses = s.stats.lookup_misses + 1;
    };
  }

  abbrev pub lookup_found :
      Option Key → Option (RegisteredNode V) → ℕ → Server V → Server V × Reply V
  lookup_found none found now s = (count_miss s, raised not_subscriptable)
  lookup_found (some peer_id) none now s = (count_miss s, answer (peer_not_found peer_id now))
  lookup_found (some peer_id) (some n) now s = (count_hit s, answer (peer_info peer_id n now))

  unfoldable pub handle_lookup : Message V → ℕ → Server V → Server V × Reply V
  handle_lookup msg now s =
      let k = key_of msg.peer_id in
      hashed msg.peer_id (count_lookup s)
        (logged msg.peer_id (lookup_found k (lookup_node k s) now s))

  -- `_handle_forward`, which only counts
  abbrev pub count_forward : ℕ → Server V → Server V
  count_forward size s = record s {
    stats = record s.stats {
      forwards = s.stats.forwards + 1;
      bytes_forwarded = s.stats.bytes_forwarded + size;
    };
  }

  abbrev pub forward_found :
      Identifier → Option (RegisteredNode V) → ℕ → Server V → Server V × Reply V
  forward_found id none size s = (s, silent)
  forward_found id (some n) size s = logged id (count_forward size s, silent)

  unfoldable pub handle_forward : Message V → ℕ → Server V → Server V × Reply V
  handle_forward msg size s =
      hashed msg.target_id s
        (forward_found msg.target_id (lookup_node (key_of msg.target_id) s) size s)

  -- The branches of `handle_message`
  unfoldable pub by_type : V → Message V → ℕ → V × V → ℕ → Server V → Server V × Reply V
  by_type empty msg size addr now s =
      if is_of_type "register" msg.kind
      then handle_register empty msg addr now s
      else if is_of_type "keep_alive" msg.kind
      then handle_keep_alive msg now s
      else if is_of_type "unregister" msg.kind
      then handle_unregister msg now s
      else if is_of_type "lookup" msg.kind
      then handle_lookup msg now s
      else if is_of_type "forward" msg.kind && s.enable_forwarding
      then handle_forward msg size s
      else (s, answer (error "Unknown message type" now))

  abbrev pub caught : ℕ → Reply V → Option (Response V)
  caught now (answer r) = some r
  caught now silent = none
  caught now (raised reason) = some (error reason now)

  abbrev pub handle_loaded :
      V → Loaded V → ℕ → V × V → ℕ → Server V → Server V × Option (Response V)
  handle_loaded empty invalid size addr now s = (s, some (error "Invalid JSON" now))
  handle_loaded empty (failed reason) size addr now s = (s, some (error reason now))
  handle_loaded empty (message msg) size addr now s =
      let r = by_type empty msg size addr now s in (r.0, caught now r.1)

  -- `handle_message`
  unfoldable pub handle_message :
      (Bytes → Loaded V) → V → Bytes → V × V → ℕ → Server V → Server V × Option (Response V)
  handle_message loads empty payload addr now s =
      handle_loaded empty (loads payload) (length payload) addr now s

  -- The answer with its receiver, where the protocol has a transport
  abbrev sent_to : Bool → V × V → Option (Response V) → Option (Response V × (V × V))
  sent_to true addr (some r) = some (r, addr)
  sent_to true addr none = none
  sent_to false addr r = none

  -- `datagram_received` of RelayProtocol, with what it sends
  unfoldable pub datagram_received :
      (Bytes → Loaded V)
      → V
      → Bool
      → Bytes
      → V × V
      → ℕ
      → Server V
      → Server V × Option (Response V × (V × V))
  datagram_received loads empty connected payload addr now s =
      let r = handle_message loads empty payload addr now s in (r.0, sent_to connected addr r.1)

  abbrev pub relay_step : (Bytes → Loaded V) → V → RelayEvent V → Server V → Server V
  relay_step loads empty (datagram bytes addr now) s =
      (datagram_received loads empty true bytes addr now s).0
  relay_step loads empty (round now) s = cleanup now s

  unfoldable pub run_relay : (Bytes → Loaded V) → V → List (RelayEvent V) → Server V → Server V
  run_relay loads empty [] s = s
  run_relay loads empty (e ∷ events) s = run_relay loads empty events (relay_step loads empty e s)
