-- ===== src/Varint.antt =====
-- seigr_toolset_transmissions/utils/varint.py: integers as groups of seven bits, lowest group first,
-- with the top bit set on every byte but the last. A byte string is a list of numbers.
pub mod Encode
pub mod Decode
pub mod RoundTrip
mod Examples
use mathlib.Core.Logic.{dite}
use mathlib.Core.WellFounded.{Acc}
use native.Mathlib.Decide.{dec_lt}
use seigr_toolset_transmissi.Common.{
  ℕ, suc, ◌+◌, ◌*◌, ◌/◌, ◌^◌, ◌<◌, ◌≡◌, bit_and, bit_or, ltb, leb, ◌==◌, if◌then◌else◌, ◌||◌, List,
  [], ◌∷◌, Bytes, length, drop, Result, ok, err, arith,
}
use seigr_toolset_transmissi.Common.Int.{ℤ, pos, negsuc}
use seigr_toolset_transmissi.Common.Order.{lt_wf}

-- The `ValueError`s of the module, one for each `raise`.
pub data ValueError : Type 0 where
  negative insufficient incomplete too_large : ValueError

pub shift_shrinks : (v : ℕ) → 0x7F < v → v / 128 < v
shift_shrinks v h = omega arith

-- `while value >= 0x80`, with `value >>= 7` as a division; `put 0x7F` bits and the top bit each round.
unfoldable pub encode_loop : (value : ℕ) → Acc ◌<◌ value → Bytes
encode_loop value (Acc.intro _ smaller) =
    dite (dec_lt 0x7F value)
      (λ more.
        bit_or (bit_and value 0x7F) 0x80
        ∷ encode_loop (value / 128) (smaller _ (shift_shrinks value more)))
      (λ _. bit_and value 0x7F ∷ [])

-- The bytes for a non-negative value.
unfoldable pub encode_nat : ℕ → Bytes
encode_nat value = encode_loop value (lt_wf.apply value)

unfoldable pub encode_varint : ℤ → Result ValueError Bytes
encode_varint (pos value) = ok (encode_nat value)
encode_varint (negsuc n) = err negative

-- `while True`. The list is what `data[offset + bytes_read:]` has not been read.
pub decode_loop : Bytes → ℕ → ℕ → ℕ → Result ValueError (ℕ × ℕ)
decode_loop [] result shift bytes_read = err incomplete
decode_loop (byte ∷ rest) result shift bytes_read =
    let result' = bit_or result (bit_and byte 0x7F * 2 ^ shift) in
    let more = decode_loop rest result' (shift + 7) (bytes_read + 1) in
    if bit_and byte 0x80 == 0
    then ok (result', bytes_read + 1)
    else if leb 64 (shift + 7)
    then err too_large
    else more

-- The value and the number of bytes consumed.
pub decode_varint : Bytes → ℕ → Result ValueError (ℕ × ℕ)
decode_varint bytes offset =
    if leb (length bytes) offset then err insufficient else decode_loop (drop offset bytes) 0 0 0

half_shrinks : (v : ℕ) → 0 < v → v / 128 < v
half_shrinks v h = omega arith

-- `while value > 0: size += 1; value >>= 7`
size_loop : (value : ℕ) → Acc ◌<◌ value → ℕ → ℕ
size_loop value (Acc.intro _ smaller) size =
    dite (dec_lt 0 value)
      (λ more. size_loop (value / 128) (smaller _ (half_shrinks value more)) (size + 1)) (λ _. size)

pub varint_size : ℤ → Result ValueError ℕ
varint_size (pos value) = if value == 0 then ok 1 else ok (size_loop value (lt_wf.apply value) 0)
varint_size (negsuc n) = err negative
