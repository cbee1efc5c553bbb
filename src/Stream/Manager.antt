-- ===== src/Stream/Manager.antt =====
-- seigr_toolset_transmissions/stream/stream_manager.py, class StreamManager. Every method that takes the
-- lock runs alone and lets it go, so the lock is not in the model; streams are shared objects, a change
-- of one is an assignment to its number.
use seigr_toolset_transmissi.Common.{
  ℕ, ◌+◌, List, [], ◌∷◌, Bytes, Bool, Option, none, some, if◌then◌else◌, length,
}
use seigr_toolset_transmissi.Common.Dict.{Dict, get, put, has, values, nat_eq}
use seigr_toolset_transmissi.Common.Sweep.{keys_where, delete_keys}
use seigr_toolset_transmissi.Stream.{Stream, new as new_stream, close, is_closed}

pub record StreamManager : Type 0 where
  pub session_id : Bytes
  pub streams : Dict ℕ Stream
  pub next_stream_id : ℕ

-- `__init__`
abbrev pub new_streams : Bytes → StreamManager
new_streams session_id = record { session_id = session_id; streams = []; next_stream_id = 1 }

abbrev pub open_stream : ℕ → ℕ → StreamManager → Stream × StreamManager
open_stream now stream_id m =
    let s = new_stream m.session_id stream_id now in
    (s, record m { streams = put stream_id s m.streams })

-- `create_stream`
unfoldable pub create_stream : ℕ → Option ℕ → StreamManager → Stream × StreamManager
create_stream now none m =
    open_stream now m.next_stream_id (record m { next_stream_id = m.next_stream_id + 2 })
create_stream now (some stream_id) m = open_stream now stream_id m

-- `get_stream`, `has_stream`, `list_streams`, `get_stream_count`, `get_next_stream_id`
abbrev pub get_stream : ℕ → StreamManager → Option Stream
get_stream stream_id m = get stream_id m.streams

abbrev pub has_stream : ℕ → StreamManager → Bool
has_stream stream_id m = has stream_id m.streams

abbrev pub list_streams : StreamManager → List Stream
list_streams m = values m.streams

abbrev pub get_stream_count : StreamManager → ℕ
get_stream_count m = length m.streams

-- `get_or_create_stream`
abbrev pub found_or_opened : ℕ → ℕ → Option Stream → StreamManager → Stream × StreamManager
found_or_opened now stream_id (some s) m = (s, m)
found_or_opened now stream_id none m = open_stream now stream_id m

unfoldable pub get_or_create_stream : ℕ → ℕ → StreamManager → Stream × StreamManager
get_or_create_stream now stream_id m = found_or_opened now stream_id (get stream_id m.streams) m

-- `close_stream`
abbrev pub close_present : ℕ → Option Stream → StreamManager → StreamManager
close_present stream_id none m = m
close_present stream_id (some s) m = record m { streams = put stream_id (close s) m.streams }

unfoldable pub close_stream : ℕ → StreamManager → StreamManager
close_stream stream_id m = close_present stream_id (get stream_id m.streams) m

-- `close_all_streams` and `close_all`: the streams that are closed are let go.
unfoldable pub close_all_streams : StreamManager → StreamManager
close_all_streams m = record m { streams = [] }

abbrev pub active_of : List Stream → List Stream
active_of [] = []
active_of (s ∷ streams) = let rest = active_of streams in if is_closed s then rest else s ∷ rest

-- `get_active_streams` and `get_active_stream_count`
abbrev pub get_active_streams : StreamManager → List Stream
get_active_streams m = active_of (values m.streams)

-- `cleanup_closed_streams` and `cleanup_inactive`
unfoldable pub cleanup_closed_streams : StreamManager → ℕ × StreamManager
cleanup_closed_streams m =
    let closed_ids = keys_where is_closed m.streams in
    (length closed_ids, record m { streams = delete_keys closed_ids m.streams })
