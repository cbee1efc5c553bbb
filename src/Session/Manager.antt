-- ===== src/Session/Manager.antt =====
-- seigr_toolset_transmissions/session/session_manager.py, class SessionManager. Sessions are shared
-- objects: a change of one is an assignment to its key. Left out: the report get_stats.
use seigr_toolset_transmissi.Common.{
  ℕ, ◌≡◌, refl, List, [], ◌∷◌, Bytes, Bool, true, false, not, ◌&&◌, ◌||◌, Option, none, some,
  Result, ok, err, ◌>>◌, raise_if, ◌==◌, if◌then◌else◌, length, arith,
}
use seigr_toolset_transmissi.Common.Dict.{
  Dict, get, put, remove, has, values, ◌===◌, get-put, get-remove, bytes_eq, bytes_beq_iff,
}
use seigr_toolset_transmissi.Session.{
  Session, SessionError, new as new_session, rotate_key, close, is_closed,
}

pub data ManagerError : Type 0 where
  invalid_node_id already_exists attribute_error : ManagerError
  in_session : SessionError → ManagerError

pub record Manager : Type 0 where
  pub local_node_id : Bytes
  pub sessions : Dict Bytes Session

-- `__init__`
pub new : Bytes → Result ManagerError Manager
new node_id = do
  raise_if (not (length node_id == 32)) invalid_node_id
  ok (record { local_node_id = node_id; sessions = [] })

added : Bytes → Manager → Result SessionError Session → Result ManagerError (Session × Manager)
added session_id m (err e) = err (in_session e)
added session_id m (ok s) = ok (s, record m { sessions = put session_id s m.sessions })

-- `create_session`
pub create_session : Bytes → Bytes → ℕ → Manager → Result ManagerError (Session × Manager)
unfolding added
create_session session_id peer_node_id now m = do
  raise_if (has session_id m.sessions) already_exists
  added session_id m (new_session session_id peer_node_id now)

-- `get_session`
abbrev pub get_session : Bytes → Manager → Option Session
get_session session_id m = get session_id m.sessions

-- `has_session`
pub has_session : Bytes → Manager → Bool
has_session session_id m = has session_id m.sessions

-- `close_session`
pub close_session : Bytes → Manager → Manager
close_session session_id m = elim (get session_id m.sessions) [
  | none ↦ m
  | some s ↦ record m { sessions = put session_id (close s) m.sessions }
]

close_each : Dict Bytes Session → Dict Bytes Session
close_each [] = []
close_each ((sid, s) ∷ sessions) = (sid, if is_closed s then s else close s) ∷ close_each sessions

-- `close_all_sessions`
pub close_all_sessions : Manager → Manager
unfolding close_each
close_all_sessions m = record m { sessions = close_each m.sessions }

active_among : List Session → List Session
active_among [] = []
active_among (s ∷ sessions) =
    let rest = active_among sessions in if s.is_active then s ∷ rest else rest

-- `get_active_sessions`
pub get_active_sessions : Manager → List Session
unfolding active_among
get_active_sessions m = active_among (values m.sessions)

-- `get_session_count`
pub get_session_count : Manager → ℕ
get_session_count m = length m.sessions

closed_ids : Dict Bytes Session → List Bytes
closed_ids [] = []
closed_ids ((sid, s) ∷ sessions) =
    let rest = closed_ids sessions in if is_closed s then sid ∷ rest else rest

delete_each : List Bytes → Dict Bytes Session → Dict Bytes Session
delete_each [] sessions = sessions
delete_each (sid ∷ ids) sessions = delete_each ids (remove sid sessions)

-- `cleanup_closed_sessions`
pub cleanup_closed_sessions : Manager → ℕ × Manager
unfolding closed_ids delete_each
cleanup_closed_sessions m = (
  length (closed_ids m.sessions),
  record m { sessions = delete_each (closed_ids m.sessions) m.sessions },
)

-- `rotate_all_keys`, with the functions of the crypto context and a nonce for each session
module _ (rotate_session_key derive_session_key : Bytes → Bytes → Bytes)
    (nonce : Bytes → Bytes) where
  rotate_active : Dict Bytes Session → Dict Bytes Session
  rotate_active [] = []
  rotate_active ((sid, s) ∷ sessions) =
      (
        sid,
        if s.is_active then rotate_key rotate_session_key derive_session_key (nonce sid) s else s,
      )
      ∷ rotate_active sessions

  pub rotate_all_active : Manager → Manager
  unfolding rotate_active
  rotate_all_active m = record m { sessions = rotate_active m.sessions }

-- `cleanup_expired` reads an attribute that sessions do not have.
pub cleanup_expired : Manager → Result ManagerError (ℕ × Manager)
cleanup_expired m = elim m.sessions [ [] ↦ ok (0, m) | _ ∷ _ ↦ err attribute_error ]

find_peer : Bytes → List Session → Option Session
find_peer peer_node_id [] = none
find_peer peer_node_id (s ∷ sessions) =
    let rest = find_peer peer_node_id sessions in
    if (s.peer_node_id === peer_node_id) && s.is_active then some s else rest

-- `find_session_by_peer`
pub find_session_by_peer : Bytes → Manager → Option Session
unfolding find_peer
find_session_by_peer peer_node_id m = find_peer peer_node_id (values m.sessions)

is_listed : Bytes → List Bytes → Bool
is_listed j [] = false
is_listed j (k ∷ ks) = (k === j) || is_listed j ks

get-delete_each :
    (ids : List Bytes) (j : Bytes) (d : Dict Bytes Session)
    → get j (delete_each ids d) ≡ (if is_listed j ids then none else get j d)
unfolding delete_each is_listed
get-delete_each [] j d = refl
get-delete_each (k ∷ ks) j d = ground (arith, get-delete_each ks j (remove k d), get-remove k j d)

closed-IsListed :
    (d : Dict Bytes Session) (j : Bytes) (s : Session)
    → get j d ≡ some s
    → s.is_active ≡ false
    → is_listed j (closed_ids d) ≡ true
unfolding is_listed closed_ids get
closed-IsListed [] j s h c = cc h
closed-IsListed ((k, t) ∷ d) j s h c = ground (arith, closed-IsListed d j s)

-- A session that is there, is closed by `close_session` and then cleaned up with the closed ones is
-- not found any more.
pub cleanup-close_session :
    (sid : Bytes) (s : Session) (m : Manager)
    → get_session sid m ≡ some s
    → get_session sid (cleanup_closed_sessions (close_session sid m)).1 ≡ none
unfolding cleanup_closed_sessions close_session close
cleanup-close_session sid s m h =
    let same : (sid === sid) ≡ true = (bytes_beq_iff sid sid).1 refl in
    let there : get sid (put sid (close s) m.sessions) ≡ some (close s) =
      rw (get-put sid sid (close s) m.sessions, same) refl in
    let listed = closed-IsListed (put sid (close s) m.sessions) sid (close s) there refl in
    rw (h, close_session, get-delete_each, listed) refl
