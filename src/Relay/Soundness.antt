-- ===== src/Relay/Soundness.antt =====
-- What the handlers of nat/relay_server.py leave of the counters and of the keys of the registry.
use seigr_toolset_transmissi.Common.{ℕ, ◌+◌, ◌≡◌, refl, Option, none, some, if-keeps, arith}
use seigr_toolset_transmissi.Common.Dict.{string_eq}
use seigr_toolset_transmissi.Common.Sweep.{HasUniqueKeys, put-HasUniqueKeys, remove-HasUniqueKeys}
use seigr_toolset_transmissi.Relay.{
  RegisteredNode, Server, Message, Reply, Key, key_eq, Identifier, missing, text, number, container,
  key_of, is_falsy, hashed, logged, lookup_node,
}
use seigr_toolset_transmissi.Relay.Handlers.{
  handle_register, handle_keep_alive, handle_unregister, handle_forward, register_as,
  keep_alive_found, unregister_found, count_lookup, lookup_found, forward_found,
}

-- An identifier that cannot be hashed.
abbrev pub unhashable : Identifier → ℕ
unhashable missing = 0
unhashable (text t) = 0
unhashable (number n why) = 0
unhashable (container is_empty why) = 1

module _ {ℓ} {V : Type ℓ} where
  -- The counters agree but for `missed` lookups, and no key is registered twice.
  pub record IsSound (missed : ℕ) (s : Server V) : Type ℓ where
    pub counted : s.stats.lookups ≡ s.stats.lookup_hits + s.stats.lookup_misses + missed
    pub unique : HasUniqueKeys s.nodes

  abbrev pub HasSound : ℕ → Server V × Reply V → Type ℓ
  HasSound missed r = IsSound missed r.0

  pub more-IsSound :
      (missed more : ℕ) (s : Server V) → more ≡ 0 → IsSound missed s → IsSound (missed + more) s
  more-IsSound missed more s zero h = record {
    counted = omega (arith, h.counted, zero);
    unique = h.unique;
  }

module _ {ℓ} {V : Type ℓ} (missed : ℕ) where
  hashed-IsSound :
      (i : Identifier) (s : Server V) (r : Server V × Reply V)
      → IsSound missed s
      → HasSound missed r
      → HasSound missed (hashed i s r)
  hashed-IsSound missing s r h g = g
  hashed-IsSound (text t) s r h g = g
  hashed-IsSound (number n why) s r h g = g
  hashed-IsSound (container is_empty why) s r h g = h

  logged-IsSound :
      (i : Identifier) (r : Server V × Reply V) → HasSound missed r → HasSound missed (logged i r)
  logged-IsSound missing r g = g
  logged-IsSound (text t) r g = g
  logged-IsSound (number n why) r g = g
  logged-IsSound (container is_empty why) r g = g

  register_as-IsSound :
      (empty : V) (k : Option Key) (msg : Message V) (addr : V × V) (now : ℕ) (s : Server V)
      → IsSound missed s
      → HasSound missed (register_as empty k msg addr now s)
  register_as-IsSound empty none msg addr now s h = h
  register_as-IsSound empty (some k) msg addr now s h = record {
    counted = h.counted;
    unique = put-HasUniqueKeys k _ s.nodes h.unique;
  }

  pub handle_register-IsSound :
      (empty : V) (msg : Message V) (addr : V × V) (now : ℕ) (s : Server V)
      → IsSound missed s
      → HasSound missed (handle_register empty msg addr now s)
  unfolding handle_register
  handle_register-IsSound empty msg addr now s h =
      if-keeps (HasSound missed) (is_falsy msg.node_id) _ _ h (
        hashed-IsSound msg.node_id s _ h (
          logged-IsSound msg.node_id _
            (register_as-IsSound empty (key_of msg.node_id) msg addr now s h)))

  keep_alive_found-IsSound :
      (k : Option Key) (n : Option (RegisteredNode V)) (now : ℕ) (s : Server V)
      → IsSound missed s
      → HasSound missed (keep_alive_found k n now s)
  keep_alive_found-IsSound none n now s h = h
  keep_alive_found-IsSound (some k) none now s h = h
  keep_alive_found-IsSound (some k) (some n) now s h = record {
    counted = h.counted;
    unique = put-HasUniqueKeys k _ s.nodes h.unique;
  }

  pub handle_keep_alive-IsSound :
      (msg : Message V) (now : ℕ) (s : Server V)
      → IsSound missed s
      → HasSound missed (handle_keep_alive msg now s)
  unfolding handle_keep_alive
  handle_keep_alive-IsSound msg now s h =
      let k = key_of msg.node_id in
      hashed-IsSound msg.node_id s _ h
        (logged-IsSound msg.node_id _ (keep_alive_found-IsSound k (lookup_node k s) now s h))

  unregister_found-IsSound :
      (i : Identifier) (k : Option Key) (n : Option (RegisteredNode V)) (now : ℕ) (s : Server V)
      → IsSound missed s
      → HasSound missed (unregister_found i k n now s)
  unregister_found-IsSound i none n now s h = h
  unregister_found-IsSound i (some k) none now s h = h
  unregister_found-IsSound i (some k) (some n) now s h =
      logged-IsSound i _
        (record { counted = h.counted; unique = remove-HasUniqueKeys k s.nodes h.unique })

  pub handle_unregister-IsSound :
      (msg : Message V) (now : ℕ) (s : Server V)
      → IsSound missed s
      → HasSound missed (handle_unregister msg now s)
  unfolding handle_unregister
  handle_unregister-IsSound msg now s h =
      let k = key_of msg.node_id in
      hashed-IsSound msg.node_id s _ h
        (unregister_found-IsSound msg.node_id k (lookup_node k s) now s h)

  lookup_found-IsSound :
      (k : Option Key) (n : Option (RegisteredNode V)) (now : ℕ) (s : Server V)
      → IsSound missed s
      → HasSound missed (lookup_found k n now s)
  lookup_found-IsSound none n now s h = record {
    counted = omega (arith, h.counted);
    unique = h.unique;
  }
  lookup_found-IsSound (some k) none now s h = record {
    counted = omega (arith, h.counted);
    unique = h.unique;
  }
  lookup_found-IsSound (some k) (some n) now s h = record {
    counted = omega (arith, h.counted);
    unique = h.unique;
  }

  -- A lookup of a list or object is counted, and nothing else.
  pub looked_up-IsSound :
      (i : Identifier) (now : ℕ) (s : Server V)
      → IsSound missed s
      → let k = key_of i in
        HasSound
          (missed + unhashable i)
          (hashed i (count_lookup s) (logged i (lookup_found k (lookup_node k s) now s)))
  looked_up-IsSound missing now s h =
      more-IsSound missed 0 _ refl (lookup_found-IsSound none none now s h)
  looked_up-IsSound (text t) now s h =
      let k = key_of (text t) in
      more-IsSound missed 0 _ refl (lookup_found-IsSound k (lookup_node k s) now s h)
  looked_up-IsSound (number n why) now s h =
      let k = key_of (number n why) in
      more-IsSound missed 0 _ refl (lookup_found-IsSound k (lookup_node k s) now s h)
  looked_up-IsSound (container is_empty why) now s h = record {
    counted = omega (arith, h.counted);
    unique = h.unique;
  }

  forward_found-IsSound :
      (i : Identifier) (n : Option (RegisteredNode V)) (size : ℕ) (s : Server V)
      → IsSound missed s
      → HasSound missed (forward_found i n size s)
  forward_found-IsSound i none size s h = h
  forward_found-IsSound i (some n) size s h =
      logged-IsSound i _ (record { counted = h.counted; unique = h.unique })

  pub handle_forward-IsSound :
      (msg : Message V) (size : ℕ) (s : Server V)
      → IsSound missed s
      → HasSound missed (handle_forward msg size s)
  unfolding handle_forward
  handle_forward-IsSound msg size s h =
      hashed-IsSound msg.target_id s _ h
        (forward_found-IsSound msg.target_id (lookup_node (key_of msg.target_id) s) size s h)
