-- ===== src/Varint/Examples.antt =====
-- Runs of the varint functions, and their theorems at concrete inputs.
use native.Mathlib.Decide.{dec_lt}
use seigr_toolset_transmissi.Common.{
  ◌+◌, ◌*◌, ◌^◌, ◌≤◌, ◌<◌, ◌≡◌, refl, [], ◌∷◌, ok, err, if◌then◌else◌, ltb, length, ◌++◌,
}
use seigr_toolset_transmissi.Common.Int.{pos}
use seigr_toolset_transmissi.Common.Order.{lt_wf}
use seigr_toolset_transmissi.Varint.{
  encode_loop, encode_nat, encode_varint, decode_loop, decode_varint, size_loop, varint_size,
  too_large,
}
use seigr_toolset_transmissi.Varint.Encode.{varint_size-encode}
use seigr_toolset_transmissi.Varint.Decode.{decode_varint_bounds}
use seigr_toolset_transmissi.Varint.RoundTrip.{decode-encode}

encode_300 : encode_nat 300 ≡ 0xAC ∷ 0x02 ∷ []
unfolding encode_nat encode_loop lt_wf dec_lt
encode_300 = refl

size_300 : varint_size (pos 300) ≡ ok 2
unfolding varint_size size_loop lt_wf dec_lt
size_300 = refl

decode_300 : decode_varint (7 ∷ 0xAC ∷ 0x02 ∷ 9 ∷ []) 1 ≡ ok (300, 2)
unfolding decode_varint decode_loop
decode_300 = refl

-- 2 ^ 64 does not fit in 64 bits, and is read back.
decode_wide : decode_varint (encode_nat (2 ^ 64)) 0 ≡ ok (2 ^ 64, 10)
unfolding decode_varint decode_loop encode_nat encode_loop lt_wf dec_lt
decode_wide = refl

decode-encode_example :
    decode_varint (7 ∷ (encode_nat 300 ++ (9 ∷ []))) 1
    ≡ (if ltb 300 (2 ^ 70) then ok (300, length (encode_nat 300)) else err too_large)
decode-encode_example = decode-encode 300 (7 ∷ []) (9 ∷ [])

varint_size-encode_example : varint_size (pos 300) ≡ ok (length (encode_nat 300))
unfolding encode_varint
varint_size-encode_example = varint_size-encode (pos 300)

decode_varint_bounds_example : (1 ≤ 2) × (2 ≤ 10) × (1 + 2 ≤ 4) × (300 < 2 ^ (7 * 2))
decode_varint_bounds_example = decode_varint_bounds (7 ∷ 0xAC ∷ 0x02 ∷ 9 ∷ []) 1 300 2 decode_300
