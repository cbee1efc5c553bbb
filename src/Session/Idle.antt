-- ===== src/Session/Idle.antt =====
-- seigr_toolset_transmissions/session/session.py, class SessionManager, which cleans up by inactivity.
-- The continuity manager that it may hold is not called by any method.
use seigr_toolset_transmissi.Common.{
  ℕ, ◌-◌, ◌≡◌, refl, sym, ap, ◌∙◌, List, [], ◌∷◌, Bytes, Bool, not, ◌||◌, Option, none, some,
  Result, ok, bind, ltb, if◌then◌else◌, length,
}
use seigr_toolset_transmissi.Common.Dict.{Dict, get, put, remove, has, keys, bytes_eq}
use seigr_toolset_transmissi.Common.Sweep.{
  HasUniqueKeys, keys_where, delete_keys, unless, get-sweep, remove-none,
}
use seigr_toolset_transmissi.Session.{Session, SessionError, new as new_session, rotate_keys}

pub record IdleManager : Type 0 where
  pub node_id : Bytes
  pub sessions : Dict Bytes Session

-- `create_session`, which replaces a session of the same identifier
unfoldable pub create_idle_session :
    Bytes → Bytes → ℕ → IdleManager → Result SessionError (Session × IdleManager)
create_idle_session session_id peer_node_id now m =
    bind (new_session session_id peer_node_id now)
      (λ s. ok (s, record m { sessions = put session_id s m.sessions }))

-- `get_session`, `has_session`, `list_sessions`
abbrev pub get_idle_session : Bytes → IdleManager → Option Session
get_idle_session session_id m = get session_id m.sessions

abbrev pub has_idle_session : Bytes → IdleManager → Bool
has_idle_session session_id m = has session_id m.sessions

abbrev pub list_sessions : IdleManager → List Bytes
list_sessions m = keys m.sessions

-- `close_session`: the session that is closed is let go.
abbrev pub close_idle_found : Bytes → Option Session → IdleManager → IdleManager
close_idle_found session_id none m = m
close_idle_found session_id (some s) m = record m { sessions = remove session_id m.sessions }

unfoldable pub close_idle_session : Bytes → IdleManager → IdleManager
close_idle_session session_id m = close_idle_found session_id (get session_id m.sessions) m

abbrev pub rotate_each : ℕ → Dict Bytes Session → Dict Bytes Session
rotate_each now [] = []
rotate_each now ((sid, s) ∷ sessions) =
    (sid, if s.is_active then rotate_keys now s else s) ∷ rotate_each now sessions

-- `rotate_all_keys`
unfoldable pub rotate_all_keys : ℕ → IdleManager → IdleManager
rotate_all_keys now m = record m { sessions = rotate_each now m.sessions }

abbrev pub is_inactive : ℕ → ℕ → Session → Bool
is_inactive now timeout s = not s.is_active || ltb timeout (now - s.last_activity)

unfoldable pub close_all_of : List Bytes → IdleManager → IdleManager
close_all_of [] m = m
close_all_of (sid ∷ ids) m = close_all_of ids (close_idle_session sid m)

-- `cleanup_inactive`, and `cleanup_expired`, which calls it
unfoldable pub cleanup_inactive : ℕ → ℕ → IdleManager → ℕ × IdleManager
cleanup_inactive now timeout m =
    let to_remove = keys_where (is_inactive now timeout) m.sessions in
    (length to_remove, close_all_of to_remove m)

close_idle_found-sessions :
    (session_id : Bytes) (s : Option Session) (m : IdleManager)
    → get session_id m.sessions ≡ s
    → (close_idle_found session_id s m).sessions ≡ remove session_id m.sessions
close_idle_found-sessions session_id none m gone = sym (remove-none session_id m.sessions gone)
close_idle_found-sessions session_id (some s) m there = refl

close_all_of-sessions :
    (ids : List Bytes) (m : IdleManager)
    → (close_all_of ids m).sessions ≡ delete_keys ids m.sessions
unfolding close_all_of delete_keys close_idle_session
close_all_of-sessions [] m = refl
close_all_of-sessions (sid ∷ ids) m =
    close_all_of-sessions ids (close_idle_session sid m)
    ∙ ap (delete_keys ids) (close_idle_found-sessions sid (get sid m.sessions) m refl)

-- Clean-up by inactivity takes just the sessions that are closed or have been idle for longer than the
-- timeout, and leaves the others as they are, where no identifier stands twice.
pub get-cleanup_inactive :
    (now timeout : ℕ) (session_id : Bytes) (m : IdleManager)
    → HasUniqueKeys m.sessions
    → get_idle_session session_id (cleanup_inactive now timeout m).1
      ≡ unless (is_inactive now timeout) (get_idle_session session_id m)
unfolding cleanup_inactive
get-cleanup_inactive now timeout session_id m unique =
    ap (get session_id) (close_all_of-sessions (keys_where (is_inactive now timeout) m.sessions) m)
    ∙ get-sweep (is_inactive now timeout) session_id m.sessions unique
