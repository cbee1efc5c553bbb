-- ===== src/Session.antt =====
-- seigr_toolset_transmissions/session/session.py, class STTSession. Clock values and durations are
-- numbers of ticks, handed in as `now` or `duration`, and the clock does not go back. The crypto
-- context is a parameter of `rotate_key`, as its two functions and the random nonce. Left out: the
-- metadata and the addresses, which no method changes.
pub mod Timing
pub mod Manager
pub mod Idle
mod Examples
use seigr_toolset_transmissi.Common.{
  ℕ, ◌+◌, ◌-◌, List, [], ◌∷◌, ◌++◌, Bytes, Bool, true, false, not, Option, none, some, Result, ok,
  err, ◌>>◌, raise_if, ltb, ◌==◌, if◌then◌else◌, length, drop,
}
use seigr_toolset_transmissi.Common.Dict.{Dict, get, put, remove, nat_eq}

-- The `STTSessionError` of the class.
pub data SessionError : Type 0 where
  invalid_session_id : SessionError

pub record Session : Type 0 where
  pub session_id : Bytes
  pub peer_node_id : Bytes
  pub is_active : Bool
  pub key_version : ℕ
  pub session_key : Option Bytes
  pub created_at : ℕ
  pub last_activity : ℕ
  pub bytes_sent : ℕ
  pub bytes_received : ℕ
  pub frames_sent : ℕ
  pub frames_received : ℕ
  pub rtt_samples : List ℕ
  pub frame_send_times : Dict ℕ ℕ
  pub encryption_time_total : ℕ
  pub decryption_time_total : ℕ
  pub encryption_ops : ℕ
  pub decryption_ops : ℕ
  pub throughput_window : List (ℕ × ℕ)

abbrev pub max_rtt_samples : ℕ
max_rtt_samples = 100

-- The attributes that `__init__` sets.
abbrev pub started : Bytes → Bytes → ℕ → Session
started session_id peer_node_id now = record {
  session_id = session_id;
  peer_node_id = peer_node_id;
  is_active = true;
  key_version = 0;
  session_key = none;
  created_at = now;
  last_activity = now;
  bytes_sent = 0;
  bytes_received = 0;
  frames_sent = 0;
  frames_received = 0;
  rtt_samples = [];
  frame_send_times = [];
  encryption_time_total = 0;
  decryption_time_total = 0;
  encryption_ops = 0;
  decryption_ops = 0;
  throughput_window = [];
}

-- `__init__`, for a window of `throughput_window_size` seconds given in ticks where it is used.
unfoldable pub new : Bytes → Bytes → ℕ → Result SessionError Session
new session_id peer_node_id now = do
  raise_if (not (length session_id == 8)) invalid_session_id
  ok (started session_id peer_node_id now)

-- `rotate_keys`
pub rotate_keys : ℕ → Session → Session
rotate_keys now s = record s { key_version = s.key_version + 1; last_activity = now }

-- `update_activity`
pub update_activity : ℕ → Session → Session
update_activity now s = record s { last_activity = now }

-- `[(t, s) for t, s in window if t > now - size]`
pub recent : ℕ → ℕ → List (ℕ × ℕ) → List (ℕ × ℕ)
recent now size [] = []
recent now size ((t, s) ∷ window) =
    let rest = recent now size window in if ltb now (t + size) then (t, s) ∷ rest else rest

pub start_timing : ℕ → Option ℕ → Session → Session
start_timing now none s = s
start_timing now (some frame_id) s = record s {
  frame_send_times = put frame_id now s.frame_send_times;
}

-- `record_frame_sent`
pub record_frame_sent : ℕ → ℕ → ℕ → Option ℕ → Session → Session
unfolding start_timing update_activity recent
record_frame_sent window_size now size frame_id s = update_activity now (
    start_timing now frame_id (record s {
      frames_sent = s.frames_sent + 1;
      bytes_sent = s.bytes_sent + size;
      throughput_window = recent now window_size (s.throughput_window ++ ((now, size) ∷ []));
    }))

-- The last `max_rtt_samples` of the samples, where there are more.
pub keep_recent : List ℕ → List ℕ
keep_recent samples =
    if ltb max_rtt_samples (length samples)
    then drop (length samples - max_rtt_samples) samples
    else samples

pub sample : ℕ → ℕ → Option ℕ → Session → Session
unfolding keep_recent
sample now frame_id none s = s
sample now frame_id (some sent_at) s = record s {
  rtt_samples = keep_recent (s.rtt_samples ++ ((now - sent_at) ∷ []));
  frame_send_times = remove frame_id s.frame_send_times;
}

pub stop_timing : ℕ → Option ℕ → Session → Session
unfolding sample
stop_timing now none s = s
stop_timing now (some frame_id) s = sample now frame_id (get frame_id s.frame_send_times) s

-- `record_frame_received`
pub record_frame_received : ℕ → ℕ → Option ℕ → Session → Session
unfolding stop_timing update_activity
record_frame_received now size frame_id s = update_activity now (
    stop_timing now frame_id (record s {
      frames_received = s.frames_received + 1;
      bytes_received = s.bytes_received + size;
    }))

-- `record_encryption`
pub record_encryption : ℕ → Session → Session
record_encryption duration s = record s {
  encryption_time_total = s.encryption_time_total + duration;
  encryption_ops = s.encryption_ops + 1;
}

-- `record_decryption`
pub record_decryption : ℕ → Session → Session
record_decryption duration s = record s {
  decryption_time_total = s.decryption_time_total + duration;
  decryption_ops = s.decryption_ops + 1;
}

-- `record_sent_bytes`
pub record_sent_bytes : ℕ → ℕ → Session → Session
unfolding update_activity
record_sent_bytes now size s = update_activity now (record s { bytes_sent = s.bytes_sent + size })

-- `record_received_bytes`
pub record_received_bytes : ℕ → ℕ → Session → Session
unfolding update_activity
record_received_bytes now size s =
    update_activity now (record s { bytes_received = s.bytes_received + size })

-- `close`
unfoldable pub close : Session → Session
close s = record s { is_active = false }

-- `is_closed`
abbrev pub is_closed : Session → Bool
is_closed s = not s.is_active

module _ (rotate_session_key : Bytes → Bytes → Bytes)
    (derive_session_key : Bytes → Bytes → Bytes) where
  rotated : Bytes → Option Bytes → Session → Session
  rotated nonce (some (b ∷ bs)) s = record s {
    session_key = some (rotate_session_key (b ∷ bs) nonce);
    key_version = s.key_version + 1;
  }
  rotated nonce _ s = record s {
    session_key = some (derive_session_key s.session_id s.peer_node_id);
    key_version = 1;
  }

  -- `rotate_key`: an absent key and an empty one are both replaced by a derived one.
  pub rotate_key : Bytes → Session → Session
  unfolding rotated
  rotate_key nonce s = rotated nonce s.session_key s
