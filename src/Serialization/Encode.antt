-- ===== src/Serialization/Encode.antt =====
-- STTSerializer.serialize and its helpers, in utils/serialization.py.
use seigr_toolset_transmissi.Common.{
  ℕ, suc, List, [], ◌∷◌, ◌++◌, Bytes, Bool, true, false, Option, none, some, Result, ok, err, ◌>>=◌,
  rethrow, ltb, if◌then◌else◌, length,
}
use seigr_toolset_transmissi.Common.Int.{ℤ, pos, negsuc}
use seigr_toolset_transmissi.Struct.{StructError, pack_int, pack_uint}
use seigr_toolset_transmissi.Serialization.{
  Text, Value, null, bool, int, float, bytes, str, list, dict, Items, nil, cons, Fields, end, field,
  SerialError, struct_failure, unicode_failure, null_tag, false_tag, true_tag, int8_tag, int16_tag,
  int32_tag, int64_tag, float64_tag, bytes_tag, string_tag, list_tag, dict_tag,
}
use seigr_toolset_transmissi.Serialization.Utf8.{encode}

-- `bytes([tag]) + struct.pack(...)`
abbrev pub tagged : ℕ → Result StructError Bytes → Result SerialError Bytes
tagged tag packed = rethrow (λ _. struct_failure) packed >>= λ bs. ok (tag ∷ bs)

-- -half <= value < half
abbrev pub fits : ℕ → ℤ → Bool
fits half (pos n) = ltb n half
fits half (negsuc n) = ltb n half

-- `_serialize_int`
unfoldable pub serialize_int : ℤ → Result SerialError Bytes
serialize_int value =
    if fits 128 value
    then tagged int8_tag (pack_int 1 value)
    else if fits 32768 value
    then tagged int16_tag (pack_int 2 value)
    else if fits 2147483648 value
    then tagged int32_tag (pack_int 4 value)
    else tagged int64_tag (pack_int 8 value)

-- `bytes([tag]) + struct.pack("!I", length)`
abbrev pub counted : ℕ → ℕ → Result SerialError Bytes
counted tag length = tagged tag (pack_uint 4 (pos length))

-- `_serialize_bytes`
unfoldable pub serialize_bytes : Bytes → Result SerialError Bytes
serialize_bytes value = counted bytes_tag (length value) >>= λ head. ok (head ++ value)

abbrev pub utf8 : Option Bytes → Result SerialError Bytes
utf8 none = err unicode_failure
utf8 (some bs) = ok bs

-- `_serialize_string`
unfoldable pub serialize_string : Text → Result SerialError Bytes
serialize_string value = do
  utf8_bytes ← utf8 (encode value)
  head ← counted string_tag (length utf8_bytes)
  ok (head ++ utf8_bytes)

-- `_serialize_float`
unfoldable pub serialize_float : ℕ → Result SerialError Bytes
serialize_float value = tagged float64_tag (pack_uint 8 (pos value))

-- The order of Python's strings, by code points.
abbrev pub text_ltb : Text → Text → Bool
text_ltb [] [] = false
text_ltb [] (b ∷ bs) = true
text_ltb (a ∷ as') [] = false
text_ltb (a ∷ as') (b ∷ bs) =
    let rest = text_ltb as' bs in if ltb a b then true else if ltb b a then false else rest

module _ {ℓ} {A : Type ℓ} where
  unfoldable pub insert_entry : Text → A → List (Text × A) → List (Text × A)
  insert_entry k a [] = (k, a) ∷ []
  insert_entry k a ((j, b) ∷ es) =
      let later = (j, b) ∷ insert_entry k a es in
      if text_ltb k j then (k, a) ∷ (j, b) ∷ es else later

  -- `sorted(value.keys())`, with what belongs to each key.
  unfoldable pub sort_entries : List (Text × A) → List (Text × A)
  sort_entries [] = []
  sort_entries ((k, a) ∷ es) = insert_entry k a (sort_entries es)

abbrev pub count_items : Items → ℕ
count_items nil = 0
count_items (cons v vs) = suc (count_items vs)

abbrev pub count_fields : Fields → ℕ
count_fields end = 0
count_fields (field k v fs) = suc (count_fields fs)

-- The loop of `_serialize_dict` over the sorted keys; the bytes of each value are computed already, or
-- the exception that its turn in the loop raises.
unfoldable pub join_entries : List (Text × Result SerialError Bytes) → Result SerialError Bytes
join_entries [] = ok []
join_entries ((k, value) ∷ es) = do
  key_bytes ← serialize_string k
  value_bytes ← value
  rest ← join_entries es
  ok (key_bytes ++ (value_bytes ++ rest))

unfoldable mutual
  -- `serialize`, with `_serialize_list` and `_serialize_dict`
  pub serialize : Value → Result SerialError Bytes
  serialize null = ok (null_tag ∷ [])
  serialize (bool b) = ok ((if b then true_tag else false_tag) ∷ [])
  serialize (int z) = serialize_int z
  serialize (float x) = serialize_float x
  serialize (bytes bs) = serialize_bytes bs
  serialize (str s) = serialize_string s
  serialize (list vs) = do
    head ← counted list_tag (count_items vs)
    body ← serialize_items vs
    ok (head ++ body)
  serialize (dict fs) = do
    head ← counted dict_tag (count_fields fs)
    body ← join_entries (sort_entries (serialize_fields fs))
    ok (head ++ body)

  pub serialize_items : Items → Result SerialError Bytes
  serialize_items nil = ok []
  serialize_items (cons v vs) = do item ← serialize v; rest ← serialize_items vs; ok (item ++ rest)

  pub serialize_fields : Fields → List (Text × Result SerialError Bytes)
  serialize_fields end = []
  serialize_fields (field k v fs) = (k, serialize v) ∷ serialize_fields fs
