-- ===== src/Serialization/Truncation.antt =====
-- Byte strings that are cut off, in `_deserialize_value` of utils/serialization.py: a slice behind the
-- end of the data is shorter, and nothing compares it with the length that was read.
use seigr_toolset_transmissi.Common.{
  ℕ, suc, ◌+◌, ◌≤◌, ◌≡◌, [], ◌∷◌, ◌++◌, Bytes, ok, >>=-eq-ok, length, take, take_all, length-take,
  arith,
}
use seigr_toolset_transmissi.Common.Int.{pos}
use seigr_toolset_transmissi.Struct.{pack_uint}
use seigr_toolset_transmissi.Struct.Laws.{unpack_uint-pack}
use seigr_toolset_transmissi.Serialization.{bytes, bytes_tag}
use seigr_toolset_transmissi.Serialization.Encode.{counted, serialize, serialize_bytes}
use seigr_toolset_transmissi.Serialization.Decode.{
  deserialize, deserialize_value, read_tagged, read_bytes,
}
use seigr_toolset_transmissi.Serialization.Leaves.{tagged-inv, read_count-pack}

take_past : (xs ys : Bytes) (m : ℕ) → take (length xs + m) (xs ++ ys) ≡ xs ++ take m ys
take_past [] ys m = let e : 0 + m ≡ m = omega arith in rw e
take_past (x ∷ xs) ys m =
    let e : suc (length xs) + m ≡ suc (length xs + m) = omega arith in rw (e, take_past xs ys m)

length-take_le : (n : ℕ) (xs : Bytes) → length (take n xs) ≤ length xs
length-take_le n xs = omega (arith, length-take n xs)

-- The encoding of a byte string, cut to five bytes or more, is read with no error as a byte string
-- that is cut by as many bytes.
pub deserialize-take :
    (value bs : Bytes) (cut : ℕ)
    → serialize (bytes value) ≡ ok bs
    → deserialize (take (5 + cut) bs) ≡ ok (bytes (take cut value))
unfolding serialize serialize_bytes deserialize deserialize_value read_tagged read_bytes
deserialize-take value bs cut h =
    let (head, counts, shape) = >>=-eq-ok (counted bytes_tag (length value)) _ h in
    let (body, packed, shape') =
      tagged-inv bytes_tag (pack_uint 4 (pos (length value))) head counts in
    let whole : (bytes_tag ∷ body) ++ value ≡ bs = cc (shape, shape') in
    let size : length (bytes_tag ∷ body) ≡ 5 =
      omega (arith, (unpack_uint-pack 4 (pos (length value)) body packed).1) in
    rw (
      ← whole,
      ← size,
      take_past (bytes_tag ∷ body) value cut,
      read_count-pack (length value) body (take cut value) packed,
      take_all (length value) (take cut value) (length-take_le cut value),
    )
