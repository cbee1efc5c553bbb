-- ===== src/Session/Examples.antt =====
-- The theorems on sessions at concrete inputs.
use seigr_toolset_transmissi.Common.{◌≡◌, refl, [], ◌∷◌, true, none, replicate}
use seigr_toolset_transmissi.Common.Dict.{get, nat_eq}
use seigr_toolset_transmissi.Session.{Session}
use seigr_toolset_transmissi.Session.Manager.{Manager}
use seigr_toolset_transmissi.Common.Dict.{bytes_eq}
use seigr_toolset_transmissi.Common.Sweep.{unless}
use seigr_toolset_transmissi.Session.Idle.{
  IdleManager, get_idle_session, is_inactive, cleanup_inactive, get-cleanup_inactive,
}

-- A session with a full list of samples, which waits for the answer to frame 7.
abbrev busy : Session
busy = record {
  session_id = replicate 8 1;
  peer_node_id = [];
  is_active = true;
  key_version = 0;
  session_key = none;
  created_at = 0;
  last_activity = 5;
  bytes_sent = 0;
  bytes_received = 0;
  frames_sent = 0;
  frames_received = 0;
  rtt_samples = replicate 100 3;
  frame_send_times = (7, 5) ∷ [];
  encryption_time_total = 0;
  decryption_time_total = 0;
  encryption_ops = 0;
  decryption_ops = 0;
  throughput_window = [];
}

abbrev manager : Manager
manager = record { local_node_id = []; sessions = (2 ∷ [], busy) ∷ (4 ∷ [], busy) ∷ [] }

abbrev young : Session
young = record busy { last_activity = 95 }

abbrev idle : IdleManager
idle = record { node_id = []; sessions = (1 ∷ [], busy) ∷ (2 ∷ [], young) ∷ [] }

get-cleanup_inactive_example :
    get_idle_session (1 ∷ []) (cleanup_inactive 100 10 idle).1
    ≡ unless (is_inactive 100 10) (get_idle_session (1 ∷ []) idle)
unfolding get
get-cleanup_inactive_example = get-cleanup_inactive 100 10 (1 ∷ []) idle (refl, (refl, tt))
