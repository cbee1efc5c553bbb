-- ===== src/Frame/Dispatcher.antt =====
-- frame/frame.py, class FrameDispatcher. A handler is a function of the frame; what awaiting it gives
-- is the type parameter.
pub mod Laws
use seigr_toolset_transmissi.Common.{
  Bool, true, false, not, ◌≡◌, Option, none, some, List, [], Result, ok, err, ◌>>=◌, ◌>>◌, raise_if,
  if◌then◌else◌,
}
use seigr_toolset_transmissi.Common.Dict.{Dict, get, put, remove, keys, int_eq}
use seigr_toolset_transmissi.Common.Int.{ℤ}
use seigr_toolset_transmissi.Frame.{Frame, is_custom_type, is_stt_type, is_custom_frame}

-- One constructor for each `raise`.
pub data DispatchError : Type 0 where
  custom_type_range stt_type_range no_custom_handler no_stt_handler : DispatchError

abbrev pub Handler : Type 0 → Type 0
Handler R = Frame → R

pub record Dispatcher (R : Type 0) : Type 0 where
  pub custom_handlers : Dict ℤ (Handler R)
  pub stt_handlers : Dict ℤ (Handler R)

module _ {R : Type 0} where
  -- `register_custom_handler`
  unfoldable pub register_custom_handler :
      ℤ → Handler R → Dispatcher R → Result DispatchError (Dispatcher R)
  register_custom_handler frame_type handler d = do
    raise_if (not (is_custom_type frame_type)) custom_type_range
    ok (record d { custom_handlers = put frame_type handler d.custom_handlers })

  -- `_register_stt_handler`
  pub register_stt_handler : ℤ → Handler R → Dispatcher R → Result DispatchError (Dispatcher R)
  register_stt_handler frame_type handler d = do
    raise_if (not (is_stt_type frame_type)) stt_type_range
    ok (record d { stt_handlers = put frame_type handler d.stt_handlers })

  run_handler : DispatchError → Frame → Option (Handler R) → Result DispatchError R
  run_handler missing frame none = err missing
  run_handler missing frame (some handler) = ok (handler frame)

  -- `dispatch`
  pub dispatch : Dispatcher R → Frame → Result DispatchError R
  unfolding run_handler is_custom_frame
  dispatch d frame =
      if is_custom_frame frame
      then run_handler no_custom_handler frame (get frame.frame_type d.custom_handlers)
      else run_handler no_stt_handler frame (get frame.frame_type d.stt_handlers)

  -- `unregister_custom_handler`
  pub unregister_custom_handler : ℤ → Dispatcher R → Dispatcher R
  unregister_custom_handler frame_type d = record d {
    custom_handlers = remove frame_type d.custom_handlers;
  }

  -- `get_registered_types`: the 'stt' list and the 'custom' list.
  pub get_registered_types : Dispatcher R → List ℤ × List ℤ
  get_registered_types d = (keys d.stt_handlers, keys d.custom_handlers)
