-- ===== src/Continuity.antt =====
-- seigr_toolset_transmissions/session/continuity.py, class CryptoSessionContinuity. The clock counts
-- ticks, `per` of them to a second, and does not go back. hash_data of the crypto context is a
-- parameter: its documentation lets the output change with each call, so its first argument is the
-- number of the call. STTSession has no attribute `sequence`, so the sequence that is kept is 0.
pub mod Registry
pub mod Challenge
pub mod Resume
pub mod Proof
pub mod Cleanup
mod Examples
use Prim.Native.String.{String}
use seigr_toolset_transmissi.Common.{
  ℕ, zero, suc, ◌+◌, ◌-◌, ◌*◌, ◌/◌, ◌^◌, List, [], ◌∷◌, ◌++◌, Bytes, Bool, true, false, Option,
  none, some, Result, ok, err, bind, ltb, leb, if◌then◌else◌, length, take,
}
use seigr_toolset_transmissi.Common.Dict.{
  Eq, Dict, get, put, remove, has, ◌===◌, string_eq, bytes_eq, nat_eq, bytes_beq,
}
use seigr_toolset_transmissi.Common.Int.{pos}
use seigr_toolset_transmissi.Struct.{be}
use seigr_toolset_transmissi.Stc.{AssociatedData, text, int}
use seigr_toolset_transmissi.Session.{Session, SessionError, new as new_session}

-- SessionResumptionError, a KeyError, an OverflowError of `to_bytes`, and the error of STTSession.
pub data ContinuityError : Type 0 where
  invalid_token expired_token key_error overflow : ContinuityError
  no_session : SessionError → ContinuityError

-- The values of a metadata dictionary.
pub data MetadataValue : Type 0 where
  flag : Bool → MetadataValue
  name : String → MetadataValue
  number : ℕ → MetadataValue

abbrev pub Metadata : Type 0
Metadata = Dict String MetadataValue

pub record StreamState : Type 0 where
  pub stream_id : ℕ
  pub sequence : ℕ
  pub bytes_sent : ℕ
  pub bytes_received : ℕ

pub record SessionState : Type 0 where
  pub session_id : Bytes
  pub peer_node_id : Bytes
  pub created_at : ℕ
  pub last_sequence : ℕ
  pub stream_states : Dict ℕ StreamState
  pub last_transport : String
  pub resume_count : ℕ
  pub metadata : Metadata

pub record Continuity : Type 0 where
  pub resumption_timeout : ℕ
  pub session_registry : Dict Bytes SessionState
  pub session_tokens : Dict Bytes Bytes

-- A session with the attributes that a resumption sets.
pub record Attached : Type 0 where
  pub session : Session
  pub peer_addr : String × ℕ
  pub transport_type : Option String
  pub metadata : Metadata

-- `d.update(e)`
unfoldable pub update {ℓ κ} : {K : Type ℓ} {V : Type κ} ⦃e : Eq K⦄ → Dict K V → Dict K V → Dict K V
update d [] = d
update d ((k, v) ∷ more) = update (put k v d) more

-- `t.to_bytes(8, 'big')`
unfoldable pub int_to_bytes : ℕ → Result ContinuityError Bytes
int_to_bytes t = if ltb t (256 ^ 8) then ok (be 8 t) else err overflow

-- b'RESUME_TOKEN' and b'CONTINUITY_PROOF'
abbrev pub resume_label : Bytes
resume_label = 82 ∷ 69 ∷ 83 ∷ 85 ∷ 77 ∷ 69 ∷ 95 ∷ 84 ∷ 79 ∷ 75 ∷ 69 ∷ 78 ∷ []

abbrev pub proof_label : Bytes
proof_label = 67 ∷ 79 ∷ 78 ∷ 84 ∷ 73 ∷ 78 ∷ 85 ∷ 73 ∷ 84 ∷ 89 ∷ 95 ∷ 80 ∷ 82 ∷ 79 ∷ 79 ∷ 70 ∷ []

abbrev pub registered : Bytes → Bytes → SessionState → Continuity → Continuity
registered session_id token state c = record c {
  session_registry = put token state c.session_registry;
  session_tokens = put session_id token c.session_tokens;
}

-- What the age of a state is measured in is ticks; a timeout is in seconds.
abbrev pub age_of : ℕ → ℕ → SessionState → ℕ
age_of per now state = now - state.created_at * per

abbrev pub has_expired : ℕ → ℕ → Continuity → SessionState → Bool
has_expired per now c state = ltb (c.resumption_timeout * per) (age_of per now state)
