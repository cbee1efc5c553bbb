-- ===== src/Relay/Examples.antt =====
-- Runs of the relay server, and its theorems at concrete inputs.
use seigr_toolset_transmissi.Common.{ℕ, ◌≡◌, refl, [], ◌∷◌, List, Bytes, true, none, some}
use seigr_toolset_transmissi.Relay.{
  Server, new, Message, Loaded, message, RelayEvent, datagram, round, error, peer_not_found,
  not_subscriptable, cleanup,
}
use seigr_toolset_transmissi.Relay.Handlers.{
  handle_message, by_type, handle_register, handle_lookup, datagram_received, run_relay,
}
use seigr_toolset_transmissi.Relay.{missing, text, container, by_name}
use seigr_toolset_transmissi.Common.Dict.{get, put, remove}
use seigr_toolset_transmissi.Common.Sweep.{delete_keys, keys_where}

abbrev plain : Message ℕ
plain = record {
  kind = none;
  node_id = missing;
  peer_id = missing;
  target_id = missing;
  host = none;
  port = none;
  metadata = none;
}

abbrev hello : Message ℕ
hello = record plain { kind = some "register"; node_id = text "ann"; port = some 7000 }

abbrev still_here : Message ℕ
still_here = record plain { kind = some "keep_alive"; node_id = text "ann" }

abbrev find_ann : Message ℕ
find_ann = record plain { kind = some "lookup"; peer_id = text "ann" }

abbrev greeting : Bytes
greeting = 1 ∷ []

abbrev beat : Bytes
beat = 1 ∷ 2 ∷ []

abbrev question : Bytes
question = 1 ∷ 2 ∷ 3 ∷ []

abbrev nameless : Bytes
nameless = []

abbrev listing : Bytes
listing = 1 ∷ 2 ∷ 3 ∷ 4 ∷ []

-- Each of the five is a message of its own; the last one asks for a list.
abbrev texts : Bytes → Loaded ℕ
texts (_ ∷ []) = message hello
texts (_ ∷ _ ∷ []) = message still_here
texts (_ ∷ _ ∷ _ ∷ []) = message find_ann
texts [] = message (record plain { kind = some "lookup" })
texts _ =
    message
      (record plain { kind = some "lookup"; peer_id = container true "unhashable type: 'list'" })

abbrev fresh : Server ℕ
fresh = new 90 true

abbrev busy : List (RelayEvent ℕ)
busy = datagram beat (10, 20) 60 ∷ round 100 ∷ datagram nameless (1, 2) 110 ∷ []

-- A lookup without peer_id is answered with the error that slicing None raises.
nameless_lookup :
    (handle_message texts 0 nameless (1, 2) 5 fresh).1 ≡ some (error not_subscriptable 5)
unfolding handle_message by_type handle_lookup
nameless_lookup = refl

-- A node that is silent for too long is gone.
late_lookup :
    (handle_message texts 0 question
      (1, 2)
      200
      (run_relay texts 0 (datagram greeting (10, 20) 30 ∷ round 130 ∷ []) fresh)).1
    ≡ some (peer_not_found (by_name "ann") 200)
unfolding handle_message by_type handle_register handle_lookup datagram_received cleanup run_relay
    get put remove delete_keys keys_where
late_lookup = refl

-- The lookup of a list is counted, and is neither a hit nor a miss.
unhashable_lookup :
    let s = run_relay texts 0 (datagram listing (1, 2) 5 ∷ []) fresh in
    (s.stats.lookups ≡ 1) × (s.stats.lookup_hits ≡ 0) × (s.stats.lookup_misses ≡ 0)
unfolding run_relay datagram_received handle_message by_type handle_lookup
unhashable_lookup = (refl, refl, refl)
