-- ===== src/Frame/Examples.antt =====
-- Runs of the frame functions, and their theorems at concrete inputs.
use native.Mathlib.Decide.{dec_lt}
use seigr_toolset_transmissi.Common.{
  ℕ, ◌≡◌, refl, [], ◌∷◌, ◌++◌, Bytes, true, false, Option, none, some, ok, err,
}
use seigr_toolset_transmissi.Common.Dict.{get, put, int_eq}
use seigr_toolset_transmissi.Common.Int.{pos}
use seigr_toolset_transmissi.Common.Order.{lt_wf}
use seigr_toolset_transmissi.Frame.{Frame, FrameError, post_init}
use seigr_toolset_transmissi.Frame.Cipher.{encrypt_payload}
use seigr_toolset_transmissi.Frame.Dispatcher.{Dispatcher, register_custom_handler}
use seigr_toolset_transmissi.Frame.Dispatcher.Laws.{InRange}
use seigr_toolset_transmissi.Frame.Wire.{to_bytes, from_bytes}
use seigr_toolset_transmissi.Frame.Wire.Body.{received}
use seigr_toolset_transmissi.Frame.Wire.RoundTrip.{from_bytes-to_bytes, from_bytes-encrypted}
use seigr_toolset_transmissi.Frame.Wire.Truncation.{from_bytes_truncated}
use seigr_toolset_transmissi.Stc.{AssociatedData, Stc, IsLawful}
use seigr_toolset_transmissi.Struct.{pack_uint, be}
use seigr_toolset_transmissi.Varint.{encode_nat, encode_loop}

abbrev sample : Frame
sample = record {
  frame_type = pos 1;
  session_id = 1 ∷ 2 ∷ 3 ∷ 4 ∷ 5 ∷ 6 ∷ 7 ∷ 8 ∷ [];
  sequence = pos 5;
  stream_id = pos 1;
  payload = 9 ∷ 8 ∷ [];
  flags = pos 0;
  timestamp = pos 1000;
  crypto_metadata = none;
  is_encrypted = false;
}

abbrev sample_header : Bytes
sample_header =
    1 ∷ 0 ∷ 1 ∷ 2 ∷ 3 ∷ 4 ∷ 5 ∷ 6 ∷ 7 ∷ 8 ∷ 0 ∷ 0 ∷ 0 ∷ 0 ∷ 0 ∷ 0 ∷ 0 ∷ 5 ∷ 0 ∷ 0 ∷ 0 ∷ 0 ∷ 0 ∷ 0
    ∷ 3 ∷ 232 ∷ 0 ∷ 0 ∷ 0 ∷ 1 ∷ []

abbrev sample_bytes : Bytes
sample_bytes = 0x53 ∷ 0x54 ∷ 33 ∷ (sample_header ++ (0 ∷ 9 ∷ 8 ∷ []))

sample_valid : post_init sample ≡ ok sample
unfolding post_init
sample_valid = refl

sample_sent : to_bytes sample ≡ ok sample_bytes
unfolding to_bytes pack_uint be encode_nat encode_loop lt_wf dec_lt
sample_sent = refl

from_bytes-to_bytes_example :
    from_bytes (sample_bytes ++ (7 ∷ [])) false none ≡ ok (received sample, 36)
from_bytes-to_bytes_example =
    from_bytes-to_bytes sample sample_bytes (7 ∷ []) none sample_valid sample_sent

abbrev front : Bytes
front = 0x53 ∷ 0x54 ∷ 33 ∷ (sample_header ++ (0 ∷ 9 ∷ []))

from_bytes_truncated_example : (e : FrameError) × (from_bytes front false none ≡ err e)
from_bytes_truncated_example = from_bytes_truncated sample 8 front [] false none sample_sent

-- A cipher that puts its random choice in front of the payload.
abbrev toy_decrypt : Bytes → Bytes → AssociatedData → Option Bytes
toy_decrypt [] metadata ad = none
toy_decrypt (d ∷ payload) metadata ad = some payload

abbrev toy : Stc
toy = record {
  encrypt_frame = λ draw payload ad. some (draw ∷ payload, 1 ∷ []);
  decrypt_frame = toy_decrypt;
}

toy-IsLawful : IsLawful toy
toy-IsLawful = record {
  decrypt-encrypt = λ draw payload ad c m h. toy_inverts draw payload ad c m h;
}
  where
    toy_inverts :
        (draw : ℕ) (payload : Bytes) (ad : AssociatedData) (c m : Bytes)
        → ◌≡◌ {A = Option (Bytes × Bytes)} (some (draw ∷ payload, 1 ∷ [])) (some (c, m))
        → toy_decrypt c m ad ≡ some payload
    toy_inverts draw payload ad [] m h = cc
    toy_inverts draw payload ad (d ∷ rest) m h = cc

abbrev sealed : Frame
sealed = record sample {
  payload = 77 ∷ 9 ∷ 8 ∷ [];
  crypto_metadata = some (1 ∷ []);
  is_encrypted = true;
}

sealed_is : encrypt_payload toy 77 sample ≡ ok (77 ∷ 9 ∷ 8 ∷ [], sealed)
unfolding encrypt_payload
sealed_is = refl

abbrev sealed_bytes : Bytes
sealed_bytes = 0x53 ∷ 0x54 ∷ 35 ∷ (sample_header ++ (1 ∷ 1 ∷ 77 ∷ 9 ∷ 8 ∷ []))

sealed_sent : to_bytes sealed ≡ ok sealed_bytes
unfolding to_bytes pack_uint be encode_nat encode_loop lt_wf dec_lt
sealed_sent = refl

from_bytes-encrypted_example :
    from_bytes (sealed_bytes ++ []) true (some toy)
    ≡ ok (record sample { crypto_metadata = some (1 ∷ []) }, 38)
from_bytes-encrypted_example =
    from_bytes-encrypted toy 77 1 sample sealed (77 ∷ 9 ∷ 8 ∷ []) sealed_bytes [] [] toy-IsLawful
      sample_valid sealed_is refl sealed_sent

abbrev no_handlers : Dispatcher ℕ
no_handlers = record { custom_handlers = []; stt_handlers = [] }

no_handlers-InRange : InRange no_handlers
unfolding get
no_handlers-InRange = record { custom = λ t h p. cc; stt = λ t h p. cc }

abbrev one_handler : Dispatcher ℕ
one_handler = record { custom_handlers = (pos 200, λ f. 1) ∷ []; stt_handlers = [] }

registered : register_custom_handler (pos 200) (λ f. 1) no_handlers ≡ ok one_handler
unfolding register_custom_handler put
registered = refl
