-- ===== src/Serialization/Decode.antt =====
-- STTSerializer.deserialize and _deserialize_value, in utils/serialization.py. The source uses an
-- offset only to cut the data behind it: here a reader takes `data[offset:]` and returns what is left,
-- which is empty where the offset has passed the end.
use seigr_toolset_transmissi.Common.{
  ℕ, zero, suc, [], ◌∷◌, Bytes, true, false, Option, none, some, Result, ok, err, ◌>>=◌, rethrow,
  ◌==◌, if◌then◌else◌, length, take, drop,
}
use seigr_toolset_transmissi.Common.Int.{ℤ, pos_part}
use seigr_toolset_transmissi.Struct.{StructError, unpack_int, unpack_uint}
use seigr_toolset_transmissi.Serialization.{
  Text, Value, null, bool, int, float, bytes, str, list, dict, Items, nil, cons, Fields, end,
  put_field, SerialError, empty_input, unexpected_end, unknown_tag, key_not_string, struct_failure,
  unicode_failure, out_of_fuel, null_tag, false_tag, true_tag, int8_tag, int16_tag, int32_tag,
  int64_tag, float64_tag, bytes_tag, string_tag, list_tag, dict_tag,
}
use seigr_toolset_transmissi.Serialization.Utf8.{decode}

abbrev pub Reader : Type 0 → Type 0
Reader A = Bytes → Result SerialError (A × Bytes)

-- `struct.unpack(format, data[offset:offset+width])[0]`
abbrev pub unpacked : ℕ → Result StructError ℤ → Bytes → Result SerialError (ℤ × Bytes)
unpacked width value rest = rethrow (λ _. struct_failure) value >>= λ z. ok (z, drop width rest)

unfoldable pub read_int : ℕ → Reader Value
read_int width rest =
    unpacked width (unpack_int width (take width rest)) rest >>= λ (z, after). ok (int z, after)

unfoldable pub read_float : Reader Value
read_float rest =
    unpacked 8 (unpack_uint 8 (take 8 rest)) rest >>= λ (z, after). ok (float (pos_part z), after)

-- The four bytes of a length or count.
unfoldable pub read_count : Reader ℕ
read_count rest =
    unpacked 4 (unpack_uint 4 (take 4 rest)) rest >>= λ (z, after). ok (pos_part z, after)

unfoldable pub read_bytes : Reader Value
read_bytes rest =
    read_count rest >>= λ (length, after). ok (bytes (take length after), drop length after)

abbrev pub decoded : Option Text → Result SerialError Value
decoded none = err unicode_failure
decoded (some s) = ok (str s)

unfoldable pub read_string : Reader Value
read_string rest = read_count rest >>= λ (length, after).
    decoded (decode (take length after)) >>= λ s. ok (s, drop length after)

unfoldable pub read_items : Reader Value → ℕ → Reader Items
read_items read zero rest = ok (nil, rest)
read_items read (suc count) rest = read rest >>= λ (item, after).
    read_items read count after >>= λ (items, last). ok (cons item items, last)

abbrev pub as_key : Value → Result SerialError Text
as_key (str k) = ok k
as_key _ = err key_not_string

unfoldable pub read_fields : Reader Value → ℕ → Fields → Reader Fields
read_fields read zero result rest = ok (result, rest)
read_fields read (suc count) result rest = read rest >>= λ (key, after). as_key key >>= λ k.
    read after >>= λ (value, last). read_fields read count (put_field k value result) last

-- What stands behind a type tag; `read` is the recursive call.
unfoldable pub read_tagged : Reader Value → ℕ → Reader Value
read_tagged read tag rest =
    if tag == null_tag
    then ok (null, rest)
    else if tag == false_tag
    then ok (bool false, rest)
    else if tag == true_tag
    then ok (bool true, rest)
    else if tag == int8_tag
    then read_int 1 rest
    else if tag == int16_tag
    then read_int 2 rest
    else if tag == int32_tag
    then read_int 4 rest
    else if tag == int64_tag
    then read_int 8 rest
    else if tag == float64_tag
    then read_float rest
    else if tag == bytes_tag
    then read_bytes rest
    else if tag == string_tag
    then read_string rest
    else if tag == list_tag
    then (read_count rest >>= λ (count, after).
        read_items read count after >>= λ (items, last). ok (list items, last))
    else if tag == dict_tag
    then (read_count rest >>= λ (count, after).
        read_fields read count end after >>= λ (fields, last). ok (dict fields, last))
    else err unknown_tag

-- `_deserialize_value`. The fuel bounds the depth of nesting.
unfoldable pub deserialize_value : ℕ → Reader Value
deserialize_value zero rest = err out_of_fuel
deserialize_value (suc fuel) [] = err unexpected_end
deserialize_value (suc fuel) (tag ∷ rest) = read_tagged (deserialize_value fuel) tag rest

-- `deserialize`
unfoldable pub deserialize : Bytes → Result SerialError Value
deserialize [] = err empty_input
deserialize (b ∷ bs) = deserialize_value (suc (length (b ∷ bs))) (b ∷ bs) >>= λ (value, _). ok value
