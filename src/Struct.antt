-- ===== src/Struct.antt =====
-- Python's `struct.pack` and `struct.unpack` with the format characters that the program uses, in
-- network byte order: B, H, I, Q (unsigned), b, h, i, q (signed) and 8s.
pub mod Laws
use seigr_toolset_transmissi.Common.{
  ℕ, zero, suc, ◌+◌, ◌-◌, ◌*◌, ◌/◌, ◌%◌, ◌^◌, List, [], ◌∷◌, ◌++◌, Bytes, Result, ok, err, ltb,
  ◌==◌, if◌then◌else◌, length, take, replicate,
}
use seigr_toolset_transmissi.Common.Int.{ℤ, pos, negsuc}

-- `struct.error`
pub data StructError : Type 0 where
  struct_error : StructError

-- `width` bytes, the most significant first.
unfoldable pub be : ℕ → ℕ → Bytes
be zero v = []
be (suc width) v = be width (v / 256) ++ (v % 256 ∷ [])

unfoldable pub from_be : ℕ → Bytes → ℕ
from_be acc [] = acc
from_be acc (b ∷ bs) = from_be (acc * 256 + b) bs

unfoldable pub pack_uint : ℕ → ℤ → Result StructError Bytes
pack_uint width (pos v) = if ltb v (256 ^ width) then ok (be width v) else err struct_error
pack_uint width (negsuc n) = err struct_error

unfoldable pub unpack_uint : ℕ → Bytes → Result StructError ℤ
unpack_uint width bs = if length bs == width then ok (pos (from_be 0 bs)) else err struct_error

-- Two's complement: -(n + 1) is stored as 256 ^ width - 1 - n.
unfoldable pub pack_int : ℕ → ℤ → Result StructError Bytes
pack_int width (pos v) = if ltb v (256 ^ width / 2) then ok (be width v) else err struct_error
pack_int width (negsuc n) =
    if ltb n (256 ^ width / 2) then ok (be width (256 ^ width - 1 - n)) else err struct_error

abbrev pub signed : ℕ → ℕ → ℤ
signed width v = if ltb v (256 ^ width / 2) then pos v else negsuc (256 ^ width - 1 - v)

unfoldable pub unpack_int : ℕ → Bytes → Result StructError ℤ
unpack_int width bs =
    if length bs == width then ok (signed width (from_be 0 bs)) else err struct_error

-- `8s`: cut to the width, or filled up with zero bytes.
abbrev pub pack_bytes : ℕ → Bytes → Bytes
pack_bytes width bs = take width (bs ++ replicate width 0)
