-- ===== src/Relay/Counters.antt =====
-- What every event on the relay server of nat/relay_server.py keeps, and which lookups count
-- neither as hits nor as misses.
use Prim.Native.String.{String}
use seigr_toolset_transmissi.Common.{ℕ, ◌+◌, List, [], ◌∷◌, Bytes, if◌then◌else◌}
use seigr_toolset_transmissi.Relay.{
  Loaded, invalid, failed, message, key_eq, RelayEvent, datagram, round,
}
use seigr_toolset_transmissi.Relay.Handlers.{is_of_type}
use seigr_toolset_transmissi.Relay.Soundness.{unhashable}

module _ {ℓ} {V : Type ℓ} where
  -- The lookups whose identifier is a list or an object, in a message and in the messages of a run.
  abbrev pub uncounted : Loaded V → ℕ
  uncounted invalid = 0
  uncounted (failed reason) = 0
  uncounted (message msg) = if is_of_type "lookup" msg.kind then unhashable msg.peer_id else 0

  abbrev pub uncounted_in : (Bytes → Loaded V) → RelayEvent V → ℕ
  uncounted_in loads (datagram payload addr now) = uncounted (loads payload)
  uncounted_in loads (round now) = 0

  abbrev pub all_uncounted : (Bytes → Loaded V) → List (RelayEvent V) → ℕ
  all_uncounted loads [] = 0
  all_uncounted loads (e ∷ events) = uncounted_in loads e + all_uncounted loads events
