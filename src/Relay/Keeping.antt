-- ===== src/Relay/Keeping.antt =====
-- What the handlers of nat/relay_server.py leave of a node that no message replaces.
use seigr_toolset_transmissi.Common.{
  ℕ, ◌+◌, ◌≤◌, ◌≡◌, refl, ap, ◌∙◌, sym, ◌⊎◌, inl, inr, List, [], ◌∷◌, Bytes, Bool, true, false, not,
  ◌&&◌, ◌||◌, Option, none, some, Bool-cases, if-cases, if-keeps, leb, arith,
}
use seigr_toolset_transmissi.Common.Dict.{get, ◌===◌, string_eq, get-put, get-remove}
use seigr_toolset_transmissi.Common.Sweep.{HasUniqueKeys, put-HasUniqueKeys, remove-HasUniqueKeys}
use seigr_toolset_transmissi.Relay.{
  RegisteredNode, Server, Message, Loaded, invalid, failed, message, Reply, lookup_node, RelayEvent,
  datagram, round, Key, key_eq, Identifier, missing, text, number, container, key_of, is_falsy,
  hashed, logged,
}
use seigr_toolset_transmissi.Relay.Handlers.{
  is_of_type, handle_register, handle_keep_alive, handle_unregister, handle_lookup, handle_forward,
  by_type, register_as, keep_alive_found, unregister_found, lookup_found, forward_found, new_node,
  register_node, refresh,
}

abbrev pub names : Key → Option Key → Bool
names id none = false
names id (some k) = k === id

module _ {ℓ} {V : Type ℓ} where
  -- The event does not register or remove the node, and does not come too late or too early.
  abbrev pub replaces : Key → Loaded V → Bool
  replaces id invalid = false
  replaces id (failed reason) = false
  replaces id (message msg) =
      (is_of_type "register" msg.kind || is_of_type "unregister" msg.kind)
      && names id (key_of msg.node_id)

  abbrev pub spares : (Bytes → Loaded V) → Key → ℕ → ℕ → RelayEvent V → Bool
  spares loads id start limit (datagram payload addr now) =
      leb start now && not (replaces id (loads payload))
  spares loads id start limit (round now) = leb now (start + limit)

  abbrev pub all_spare : (Bytes → Loaded V) → Key → ℕ → ℕ → List (RelayEvent V) → Bool
  all_spare loads id start limit [] = true
  all_spare loads id start limit (e ∷ events) =
      spares loads id start limit e && all_spare loads id start limit events

  abbrev pub endpoint : RegisteredNode V → V × V × V
  endpoint n = (n.host, n.port, n.metadata)

other_node : (a b c : Bool) → (a || b) && c ≡ false → (a ≡ true) ⊎ (b ≡ true) → c ≡ false
other_node a b c h (inl is) = ground (arith, h, is)
other_node a b c h (inr is) = ground (arith, h, is)

module _ {ℓ} {V : Type ℓ} (id : Key) (place : V × V × V) (start : ℕ) (limit : ℕ) where
  -- The node is registered at this place, and was alive at the start or later.
  pub record IsHeld (s : Server V) : Type ℓ where
    pub timed : s.registration_timeout ≡ limit
    pub unique : HasUniqueKeys s.nodes
    pub node : RegisteredNode V
    pub there : get id s.nodes ≡ some node
    pub since : start ≤ node.last_keep_alive
    pub placed : endpoint node ≡ place

  abbrev HasNode : Server V × Reply V → Type ℓ
  HasNode r = IsHeld r.0

  hashed-IsHeld :
      (i : Identifier) (s : Server V) (r : Server V × Reply V)
      → IsHeld s
      → HasNode r
      → HasNode (hashed i s r)
  hashed-IsHeld missing s r h g = g
  hashed-IsHeld (text t) s r h g = g
  hashed-IsHeld (number n why) s r h g = g
  hashed-IsHeld (container is_empty why) s r h g = h

  logged-IsHeld : (i : Identifier) (r : Server V × Reply V) → HasNode r → HasNode (logged i r)
  logged-IsHeld missing r g = g
  logged-IsHeld (text t) r g = g
  logged-IsHeld (number n why) r g = g
  logged-IsHeld (container is_empty why) r g = g

  register_node-IsHeld :
      (k : Key) (n : RegisteredNode V) (s : Server V)
      → (k === id) ≡ false
      → IsHeld s
      → IsHeld (register_node k n s)
  register_node-IsHeld k n s other h = record {
    timed = h.timed;
    unique = put-HasUniqueKeys k n s.nodes h.unique;
    node = h.node;
    there = rw (get-put, other) h.there;
    since = h.since;
    placed = h.placed;
  }

  register_as-IsHeld :
      (empty : V) (node_id : Option Key) (msg : Message V) (addr : V × V) (now : ℕ) (s : Server V)
      → names id node_id ≡ false
      → IsHeld s
      → IsHeld (register_as empty node_id msg addr now s).0
  register_as-IsHeld empty none msg addr now s other h = h
  register_as-IsHeld empty (some k) msg addr now s other h =
      (register_node-IsHeld k (new_node empty k msg addr now) s other h)

  refresh-IsHeld :
      (k : Key) (n : RegisteredNode V) (now : ℕ) (s : Server V)
      → start ≤ now
      → get k s.nodes ≡ some n
      → IsHeld s
      → IsHeld (refresh k n now s)
  refresh-IsHeld k n now s later found h = elim (Bool-cases (k === id)) [
    | inr other ↦ record {
      timed = h.timed;
      unique = put-HasUniqueKeys k _ s.nodes h.unique;
      node = h.node;
      there = rw (get-put, other) h.there;
      since = h.since;
      placed = h.placed;
    }
    | inl is ↦
        let same : k ≡ id = (key_eq.beq_iff k id).0 is in
        let node_eq : some n ≡ some h.node = sym found ∙ ap (λ j. get j s.nodes) same ∙ h.there in
        let it : n ≡ h.node = cc node_eq in
        record {
          timed = h.timed;
          unique = put-HasUniqueKeys k _ s.nodes h.unique;
          node = record n { last_keep_alive = now };
          there = rw (get-put, is) refl;
          since = later;
          placed = ap (λ m. endpoint m) it ∙ h.placed;
        }
  ]

  keep_alive_found-IsHeld :
      (node_id : Option Key) (n : Option (RegisteredNode V)) (now : ℕ) (s : Server V)
      → start ≤ now
      → lookup_node node_id s ≡ n
      → IsHeld s
      → IsHeld (keep_alive_found node_id n now s).0
  keep_alive_found-IsHeld none n now s later found h = h
  keep_alive_found-IsHeld (some k) none now s later found h = h
  keep_alive_found-IsHeld (some k) (some n) now s later found h =
      refresh-IsHeld k n now s later found h

  unregister_found-IsHeld :
      (i : Identifier) (node_id : Option Key) (n : Option (RegisteredNode V)) (now : ℕ)
      (s : Server V)
      → names id node_id ≡ false
      → IsHeld s
      → HasNode (unregister_found i node_id n now s)
  unregister_found-IsHeld i none n now s other h = h
  unregister_found-IsHeld i (some k) none now s other h = h
  unregister_found-IsHeld i (some k) (some n) now s other h = logged-IsHeld i _ (record {
    timed = h.timed;
    unique = remove-HasUniqueKeys k s.nodes h.unique;
    node = h.node;
    there = rw (get-remove, other) h.there;
    since = h.since;
    placed = h.placed;
  })

  -- What leaves the registry and the timeout as they are keeps the node.
  same-IsHeld :
      (s t : Server V)
      → t.registration_timeout ≡ s.registration_timeout
      → t.nodes ≡ s.nodes
      → IsHeld s
      → IsHeld t
  same-IsHeld s t timeout nodes h = record {
    timed = timeout ∙ h.timed;
    unique = rw nodes h.unique;
    node = h.node;
    there = rw nodes h.there;
    since = h.since;
    placed = h.placed;
  }

  lookup_found-IsHeld :
      (peer_id : Option Key) (n : Option (RegisteredNode V)) (now : ℕ) (s : Server V)
      → IsHeld s
      → IsHeld (lookup_found peer_id n now s).0
  lookup_found-IsHeld none n now s h = same-IsHeld s _ refl refl h
  lookup_found-IsHeld (some peer_id) none now s h = same-IsHeld s _ refl refl h
  lookup_found-IsHeld (some peer_id) (some n) now s h = same-IsHeld s _ refl refl h

  forward_found-IsHeld :
      (i : Identifier) (n : Option (RegisteredNode V)) (size : ℕ) (s : Server V)
      → IsHeld s
      → HasNode (forward_found i n size s)
  forward_found-IsHeld i none size s h = h
  forward_found-IsHeld i (some n) size s h = logged-IsHeld i _ (same-IsHeld s _ refl refl h)

  handle_register-IsHeld :
      (empty : V) (msg : Message V) (addr : V × V) (now : ℕ) (s : Server V)
      → names id (key_of msg.node_id) ≡ false
      → IsHeld s
      → HasNode (handle_register empty msg addr now s)
  unfolding handle_register
  handle_register-IsHeld empty msg addr now s other h =
      if-keeps HasNode (is_falsy msg.node_id) _ _ h (
        hashed-IsHeld msg.node_id s _ h (
          logged-IsHeld msg.node_id _
            (register_as-IsHeld empty (key_of msg.node_id) msg addr now s other h)))

  handle_keep_alive-IsHeld :
      (msg : Message V) (now : ℕ) (s : Server V)
      → start ≤ now
      → IsHeld s
      → HasNode (handle_keep_alive msg now s)
  unfolding handle_keep_alive
  handle_keep_alive-IsHeld msg now s later h =
      let k = key_of msg.node_id in
      hashed-IsHeld msg.node_id s _ h (
        logged-IsHeld msg.node_id _
          (keep_alive_found-IsHeld k (lookup_node k s) now s later refl h))

  handle_unregister-IsHeld :
      (msg : Message V) (now : ℕ) (s : Server V)
      → names id (key_of msg.node_id) ≡ false
      → IsHeld s
      → HasNode (handle_unregister msg now s)
  unfolding handle_unregister
  handle_unregister-IsHeld msg now s other h =
      let k = key_of msg.node_id in
      hashed-IsHeld msg.node_id s _ h
        (unregister_found-IsHeld msg.node_id k (lookup_node k s) now s other h)

  handle_lookup-IsHeld :
      (msg : Message V) (now : ℕ) (s : Server V) → IsHeld s → HasNode (handle_lookup msg now s)
  unfolding handle_lookup
  handle_lookup-IsHeld msg now s h =
      let k = key_of msg.peer_id in
      hashed-IsHeld msg.peer_id _ _ (same-IsHeld s _ refl refl h)
        (logged-IsHeld msg.peer_id _ (lookup_found-IsHeld k (lookup_node k s) now s h))

  handle_forward-IsHeld :
      (msg : Message V) (size : ℕ) (s : Server V) → IsHeld s → HasNode (handle_forward msg size s)
  unfolding handle_forward
  handle_forward-IsHeld msg size s h =
      hashed-IsHeld msg.target_id s _ h
        (forward_found-IsHeld msg.target_id (lookup_node (key_of msg.target_id) s) size s h)

  pub by_type-IsHeld :
      (empty : V) (msg : Message V) (size : ℕ) (addr : V × V) (now : ℕ) (s : Server V)
      → start ≤ now
      → replaces id (message msg) ≡ false
      → IsHeld s
      → HasNode (by_type empty msg size addr now s)
  unfolding by_type
  by_type-IsHeld empty msg size addr now s later other h =
      if-cases HasNode (is_of_type "register" msg.kind) _ _
        (λ is.
          handle_register-IsHeld empty msg addr now s
            (other_node (is_of_type "register" msg.kind) _ _ other (inl is)) h)
        (λ _.
          if-keeps HasNode (is_of_type "keep_alive" msg.kind) _ _
            (handle_keep_alive-IsHeld msg now s later h)
            (if-cases HasNode (is_of_type "unregister" msg.kind) _ _
              (λ is.
                handle_unregister-IsHeld msg now s
                  (other_node _ (is_of_type "unregister" msg.kind) _ other (inr is)) h)
              (λ _.
                if-keeps HasNode (is_of_type "lookup" msg.kind) _ _
                  (handle_lookup-IsHeld msg now s h)
                  (if-keeps HasNode (is_of_type "forward" msg.kind && s.enable_forwarding) _ _
                    (handle_forward-IsHeld msg size s h) h))))
