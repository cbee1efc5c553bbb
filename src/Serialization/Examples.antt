-- ===== src/Serialization/Examples.antt =====
-- Values on the wire, and the theorems at concrete inputs.
use seigr_toolset_transmissi.Common.{
  ◌≡◌, ◌≢◌, refl, [], ◌∷◌, ◌++◌, Bytes, some, ok, err, take, ◌+◌, arith,
}
use seigr_toolset_transmissi.Common.Int.{negsuc}
use seigr_toolset_transmissi.Struct.{pack_int, pack_uint, be}
use seigr_toolset_transmissi.Serialization.{
  Text, Value, null, int, bytes, list, dict, nil, cons, end, field, codes, out_of_fuel,
}
use seigr_toolset_transmissi.Serialization.Utf8.{encode, decode, decode-encode}
use seigr_toolset_transmissi.Serialization.Encode.{
  serialize, serialize_int, serialize_bytes, serialize_string, join_entries, sort_entries,
  insert_entry,
}
use seigr_toolset_transmissi.Serialization.Decode.{deserialize}
use seigr_toolset_transmissi.Serialization.Normal.{normal}
use seigr_toolset_transmissi.Serialization.RoundTrip.{deserialize-serialize}
use seigr_toolset_transmissi.Serialization.Total.{serialize_total}
use seigr_toolset_transmissi.Serialization.Fuel.{deserialize_ends}
use seigr_toolset_transmissi.Serialization.Truncation.{deserialize-take}

-- {"b": [None, -1], "a": b"\x07"}
abbrev sample : Value
sample = dict (
    field (codes "b") (list (cons null (cons (int (negsuc 0)) nil)))
      (field (codes "a") (bytes (7 ∷ [])) end))

abbrev sample_bytes : Bytes
sample_bytes =
    0x41 ∷ 0 ∷ 0 ∷ 0 ∷ 2 ∷ 0x31 ∷ 0 ∷ 0 ∷ 0 ∷ 1 ∷ 97 ∷ 0x30 ∷ 0 ∷ 0 ∷ 0 ∷ 1 ∷ 7 ∷ 0x31 ∷ 0 ∷ 0 ∷ 0
    ∷ 1 ∷ 98 ∷ 0x40 ∷ 0 ∷ 0 ∷ 0 ∷ 2 ∷ 0x00 ∷ 0x10 ∷ 255 ∷ []

sample_sorted : serialize sample ≡ ok sample_bytes
unfolding serialize serialize_int serialize_bytes serialize_string join_entries sort_entries
    insert_entry encode pack_int pack_uint be
sample_sorted = refl

deserialize-serialize_example : deserialize (sample_bytes ++ (9 ∷ [])) ≡ ok (normal sample)
deserialize-serialize_example = deserialize-serialize sample sample_bytes (9 ∷ []) sample_sorted

deserialize_ends_example : deserialize (0x40 ∷ 0 ∷ 0 ∷ 0 ∷ 9 ∷ 0x40 ∷ []) ≢ err out_of_fuel
deserialize_ends_example = deserialize_ends (0x40 ∷ 0 ∷ 0 ∷ 0 ∷ 9 ∷ 0x40 ∷ [])

abbrev three_bytes : Bytes
three_bytes = 0x30 ∷ 0 ∷ 0 ∷ 0 ∷ 3 ∷ 1 ∷ 2 ∷ 3 ∷ []

three_written : serialize (bytes (1 ∷ 2 ∷ 3 ∷ [])) ≡ ok three_bytes
unfolding serialize serialize_bytes pack_uint be
three_written = refl

deserialize-take_example : deserialize (take (5 + 1) three_bytes) ≡ ok (bytes (1 ∷ []))
deserialize-take_example = deserialize-take (1 ∷ 2 ∷ 3 ∷ []) three_bytes 1 three_written

serialize_total_example : (bs : Bytes) × (serialize sample ≡ ok bs)
unfolding encode
serialize_total_example = serialize_total sample (
  omega arith,
  (
    (98 ∷ [], refl, omega arith),
    (omega arith, (tt, (refl, tt))),
    ((97 ∷ [], refl, omega arith), omega arith, tt),
  ),
)

-- U+E9, U+20AC and U+1F600: two, three and four bytes.
abbrev wide : Text
wide = 0xE9 ∷ 0x20AC ∷ 0x1F600 ∷ []

abbrev wide_bytes : Bytes
wide_bytes = 0xC3 ∷ 0xA9 ∷ 0xE2 ∷ 0x82 ∷ 0xAC ∷ 0xF0 ∷ 0x9F ∷ 0x98 ∷ 0x80 ∷ []

decode-encode_example : decode wide_bytes ≡ some wide
unfolding encode
decode-encode_example = decode-encode wide wide_bytes refl
