-- ===== src/Relay.antt =====
-- seigr_toolset_transmissions/nat/relay_server.py, class RelayServer. JSON is a parameter: `loads`
-- gives the fields that the server looks up in a message, or the error, and a response is what
-- json.dumps is given. A number that is an identifier is given by its value, as Python compares it; NaN,
-- which no JSON text denotes but Python reads, is not modelled. The fields that the server only keeps
-- are JSON values of any type `V`. The clock counts ticks and is read once for a message.
pub mod Handlers
pub mod Keeping
pub mod Registry
pub mod Soundness
pub mod Counters
mod Examples
use Prim.Native.String.{String}
use seigr_toolset_transmissi.Common.{
  ℕ, ◌+◌, ◌-◌, List, [], ◌∷◌, Bytes, Bool, true, false, ◌&&◌, Option, none, some, ltb,
  if◌then◌else◌, length, ◌==◌, ==_iff, ◌≡◌, ◌↔◌, refl, arith,
}
use seigr_toolset_transmissi.Common.Dict.{Eq, Dict, get, ◌===◌, string_eq, int_beq, int_beq_iff}
use seigr_toolset_transmissi.Common.Int.{ℤ, pos}
use seigr_toolset_transmissi.Common.Sweep.{keys_where, delete_keys}

-- A key of the registry. A Boolean is the number 0 or 1; a float that is no integer is its 64 bits.
pub data Number : Type 0 where
  whole : ℤ → Number
  fraction : ℕ → Number

pub data Key : Type 0 where
  by_name : String → Key
  by_number : Number → Key

abbrev pub number_beq : Number → Number → Bool
number_beq (whole a) (whole b) = int_beq a b
number_beq (fraction a) (fraction b) = a == b
number_beq _ _ = false

pub number_beq_iff : (a b : Number) → (number_beq a b ≡ true) ↔ (a ≡ b)
number_beq_iff (whole a) (whole b) = ground (arith, int_beq_iff a b)
number_beq_iff (fraction a) (fraction b) = ground (arith, ==_iff a b)
number_beq_iff (whole a) (fraction b) = ((λ h. cc), (λ h. cc))
number_beq_iff (fraction a) (whole b) = ((λ h. cc), (λ h. cc))

abbrev pub key_beq : Key → Key → Bool
key_beq (by_name a) (by_name b) = a === b
key_beq (by_number a) (by_number b) = number_beq a b
key_beq _ _ = false

pub key_beq_iff : (a b : Key) → (key_beq a b ≡ true) ↔ (a ≡ b)
key_beq_iff (by_name a) (by_name b) = ground (arith, string_eq.beq_iff a b)
key_beq_iff (by_number a) (by_number b) = ground (arith, number_beq_iff a b)
key_beq_iff (by_name a) (by_number b) = ((λ h. cc), (λ h. cc))
key_beq_iff (by_number a) (by_name b) = ((λ h. cc), (λ h. cc))

instance abbrev pub key_eq : Eq Key
key_eq = record { beq = key_beq; beq_iff = key_beq_iff }

-- An identifier in a message: missing or null, a string, a number or Boolean with the error that slicing
-- it raises, or a list or object, which may be empty, with the error that hashing it raises.
pub data Identifier : Type 0 where
  missing : Identifier
  text : String → Identifier
  number : Number → String → Identifier
  container : Bool → String → Identifier

pub record RegisteredNode {ℓ} (V : Type ℓ) : Type ℓ where
  pub node_id : Key
  pub host : V
  pub port : V
  pub registered_at : ℕ
  pub last_keep_alive : ℕ
  pub metadata : V

pub record Stats : Type 0 where
  pub registrations : ℕ
  pub unregistrations : ℕ
  pub keep_alives : ℕ
  pub lookups : ℕ
  pub lookup_hits : ℕ
  pub lookup_misses : ℕ
  pub forwards : ℕ
  pub bytes_forwarded : ℕ

pub record Server {ℓ} (V : Type ℓ) : Type ℓ where
  pub registration_timeout : ℕ
  pub enable_forwarding : Bool
  pub nodes : Dict Key (RegisteredNode V)
  pub stats : Stats

-- The fields of a message; one that is missing is `none`, and so is a type that is no string.
pub record Message {ℓ} (V : Type ℓ) : Type ℓ where
  pub kind : Option String
  pub node_id : Identifier
  pub peer_id : Identifier
  pub target_id : Identifier
  pub host : Option V
  pub port : Option V
  pub metadata : Option V

-- What json.loads and decode come to: a JSONDecodeError, another exception, or a message.
pub data Loaded {ℓ} (V : Type ℓ) : Type ℓ where
  invalid : Loaded V
  failed : String → Loaded V
  message : Message V → Loaded V

pub data Response {ℓ} (V : Type ℓ) : Type ℓ where
  registered : Key → ℕ → Response V
  alive : ℕ → Response V
  unregistered : ℕ → Response V
  peer_info : Key → RegisteredNode V → ℕ → Response V
  peer_not_found : Key → ℕ → Response V
  error : String → ℕ → Response V

-- A handler returns bytes or None, or raises.
pub data Reply {ℓ} (V : Type ℓ) : Type ℓ where
  answer : Response V → Reply V
  silent : Reply V
  raised : String → Reply V

-- What slicing None raises
abbrev pub not_subscriptable : String
not_subscriptable = "'NoneType' object is not subscriptable"

abbrev no_calls : Stats
no_calls = record {
  registrations = 0;
  unregistrations = 0;
  keep_alives = 0;
  lookups = 0;
  lookup_hits = 0;
  lookup_misses = 0;
  forwards = 0;
  bytes_forwarded = 0;
}

-- `__init__`
abbrev pub new {ℓ} : {V : Type ℓ} → ℕ → Bool → Server V
new timeout forwarding = record {
  registration_timeout = timeout;
  enable_forwarding = forwarding;
  nodes = [];
  stats = no_calls;
}

-- What the server goes through: datagrams, with the sender and the time, and rounds of clean-up.
pub data RelayEvent {ℓ} (V : Type ℓ) : Type ℓ where
  datagram : Bytes → V × V → ℕ → RelayEvent V
  round : ℕ → RelayEvent V

abbrev pub key_of : Identifier → Option Key
key_of missing = none
key_of (text t) = some (by_name t)
key_of (number n why) = some (by_number n)
key_of (container is_empty why) = none

-- `not node_id`
abbrev pub is_falsy : Identifier → Bool
is_falsy missing = true
is_falsy (text t) = t === ""
is_falsy (number n why) = number_beq n (whole (pos 0))
is_falsy (container is_empty why) = is_empty

module _ {ℓ} {V : Type ℓ} where
  -- A dictionary access, which raises for a list or object; behind it comes `r`.
  abbrev pub hashed : Identifier → Server V → Server V × Reply V → Server V × Reply V
  hashed (container is_empty why) s r = (s, raised why)
  hashed missing s r = r
  hashed (text t) s r = r
  hashed (number n why) s r = r

  -- A log line with the first eight characters, which raises for a number, when the state has changed.
  abbrev pub logged : Identifier → Server V × Reply V → Server V × Reply V
  logged (number n why) r = (r.0, raised why)
  logged missing r = r
  logged (text t) r = r
  logged (container is_empty why) r = r

  abbrev pub or_else : V → Option V → V
  or_else default none = default
  or_else default (some v) = v

  -- The lookup of a key; None is never one.
  abbrev pub lookup_node : Option Key → Server V → Option (RegisteredNode V)
  lookup_node none s = none
  lookup_node (some k) s = get k s.nodes

  abbrev pub is_node_expired : ℕ → ℕ → RegisteredNode V → Bool
  is_node_expired now timeout n = ltb timeout (now - n.last_keep_alive)

  -- One round of `_cleanup_loop`
  unfoldable pub cleanup : ℕ → Server V → Server V
  cleanup now s = record s {
    nodes = delete_keys (keys_where (is_node_expired now s.registration_timeout) s.nodes) s.nodes;
  }
