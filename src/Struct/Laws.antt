-- ===== src/Struct/Laws.antt =====
-- What was packed is unpacked.
use native.Mathlib.Nat.{pow-suc}
use seigr_toolset_transmissi.Common.{
  ℕ, zero, suc, ◌+◌, ◌-◌, ◌*◌, ◌/◌, ◌%◌, ◌^◌, ◌<◌, ◌≡◌, refl, ◌∙◌, [], ◌∷◌, ◌++◌, Bytes, ok, length,
  length-append, take_prefix, replicate, arith, AreBytes, All-append, IsByte,
}
use seigr_toolset_transmissi.Common.Int.{ℤ, pos, negsuc}
use seigr_toolset_transmissi.Struct.{
  be, from_be, pack_uint, unpack_uint, pack_int, unpack_int, pack_bytes,
}

pub length-be : (width v : ℕ) → length (be width v) ≡ width
unfolding be
length-be zero v = refl
length-be (suc width) v =
    omega (arith, length-append (be width (v / 256)) (v % 256 ∷ []), length-be width (v / 256))

pub be-AreBytes : (width v : ℕ) → AreBytes (be width v)
unfolding be
be-AreBytes zero v = tt
be-AreBytes (suc width) v =
    All-append IsByte (be width (v / 256)) (v % 256 ∷ []) (be-AreBytes width (v / 256))
      (omega arith)

from_be-append : (acc : ℕ) (xs ys : Bytes) → from_be acc (xs ++ ys) ≡ from_be (from_be acc xs) ys
unfolding from_be
from_be-append acc [] ys = refl
from_be-append acc (x ∷ xs) ys = from_be-append (acc * 256 + x) xs ys

from_be-nil : from_be 0 [] ≡ 0
unfolding from_be
from_be-nil = refl

from_be_last : (xs : Bytes) (b : ℕ) → from_be 0 (xs ++ (b ∷ [])) ≡ from_be 0 xs * 256 + b
from_be_last xs b = from_be-append 0 xs (b ∷ []) ∙ (unfold from_be in refl)

pub from_be-be : (width v : ℕ) → v < 256 ^ width → from_be 0 (be width v) ≡ v
unfolding be
from_be-be zero v h = from_be-nil ∙ omega arith
from_be-be (suc width) v h = omega (
  arith,
  from_be_last (be width (v / 256)) (v % 256),
  from_be-be width (v / 256) (omega (arith, pow-suc 256 width)),
)

pub unpack_uint-be : (width v : ℕ) → v < 256 ^ width → unpack_uint width (be width v) ≡ ok (pos v)
unfolding unpack_uint
unpack_uint-be width v h = ground (arith, length-be width v, from_be-be width v h)

-- `unpack` returns the integer that `pack` stored, for every unsigned format.
pub unpack_uint-pack :
    (width : ℕ) (z : ℤ) (bs : Bytes)
    → pack_uint width z ≡ ok bs
    → (unpack_uint width bs ≡ ok z) × (length bs ≡ width)
unfolding pack_uint
unpack_uint-pack width (pos v) bs h = ground (arith, unpack_uint-be width v, length-be width v)
unpack_uint-pack width (negsuc n) bs h = cc

-- The same for the signed formats.
pub unpack_int-pack :
    (width : ℕ) (z : ℤ) (bs : Bytes)
    → pack_int width z ≡ ok bs
    → (unpack_int width bs ≡ ok z) × (length bs ≡ width)
unfolding pack_int unpack_int
unpack_int-pack width (pos v) bs h = ground (arith, from_be-be width v, length-be width v)
unpack_int-pack width (negsuc n) bs h =
    let m : ℕ = 256 ^ width - 1 - n in ground (arith, from_be-be width m, length-be width m)

pub pack_bytes_whole : (width : ℕ) (bs : Bytes) → length bs ≡ width → pack_bytes width bs ≡ bs
pack_bytes_whole width bs h = take_prefix width bs (replicate width 0) h
