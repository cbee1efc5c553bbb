-- ===== src/Serialization/Total.antt =====
-- Which values `serialize` of utils/serialization.py accepts.
use seigr_toolset_transmissi.Common.{
  ℕ, ◌<◌, ◌≡◌, refl, [], ◌∷◌, ◌++◌, Bytes, List, true, some, Bool-cases, inl, inr, Result, ok, ◌^◌,
  ◌/◌, ◌-◌, lt→ltb, if◌then◌else◌, length,
}
use seigr_toolset_transmissi.Common.Int.{ℤ, pos, negsuc}
use seigr_toolset_transmissi.Struct.{be, pack_int, pack_uint}
use seigr_toolset_transmissi.Serialization.{
  Text, Value, null, bool, int, float, bytes, str, list, dict, Items, nil, cons, Fields, end, field,
  SerialError, null_tag, false_tag, true_tag, int8_tag, int16_tag, int32_tag, int64_tag,
  float64_tag, bytes_tag, string_tag, list_tag, dict_tag,
}
use seigr_toolset_transmissi.Serialization.Utf8.{encode}
use seigr_toolset_transmissi.Serialization.Encode.{
  fits, counted, text_ltb, insert_entry, sort_entries, count_items, count_fields, join_entries,
  serialize, serialize_items, serialize_fields, serialize_int, serialize_float, serialize_bytes,
  serialize_string,
}

-- A length that fits its four bytes.
abbrev pub IsSize : ℕ → Type 0
IsSize n = n < 4294967296

abbrev pub IsSmallText : Text → Type 0
IsSmallText s = (bs : Bytes) × (encode s ≡ some bs) × IsSize (length bs)

abbrev mutual
  -- Integers of 64 bits with a sign, floats of 64 bits, strings that UTF-8 can encode, and lengths and
  -- counts of 32 bits.
  pub IsSmall : Value → Type 0
  IsSmall null = Unit
  IsSmall (bool b) = Unit
  IsSmall (int z) = fits 9223372036854775808 z ≡ true
  IsSmall (float x) = x < 18446744073709551616
  IsSmall (bytes b) = IsSize (length b)
  IsSmall (str s) = IsSmallText s
  IsSmall (list vs) = IsSize (count_items vs) × AreSmall vs
  IsSmall (dict fs) = IsSize (count_fields fs) × HaveSmall fs

  pub AreSmall : Items → Type 0
  AreSmall nil = Unit
  AreSmall (cons v vs) = IsSmall v × AreSmall vs

  pub HaveSmall : Fields → Type 0
  HaveSmall end = Unit
  HaveSmall (field k v fs) = IsSmallText k × IsSmall v × HaveSmall fs

-- The call returns bytes.
abbrev Returns : Result SerialError Bytes → Type 0
Returns r = (bs : Bytes) × (r ≡ ok bs)

pack_uint_total : (width n : ℕ) → n < 256 ^ width → (bs : Bytes) × (pack_uint width (pos n) ≡ ok bs)
unfolding pack_uint
pack_uint_total width n h = (be width n, rw (lt→ltb _ _ h))

counted_total : (tag n : ℕ) → IsSize n → Returns (counted tag n)
counted_total tag n h = let (bs, e) = pack_uint_total 4 n h in (tag ∷ bs, rw e)

pack_int_total :
    (width : ℕ) (z : ℤ)
    → fits (256 ^ width / 2) z ≡ true
    → (bs : Bytes) × (pack_int width z ≡ ok bs)
unfolding pack_int
pack_int_total width (pos n) h = (be width n, rw h)
pack_int_total width (negsuc n) h = (be width (256 ^ width - 1 - n), rw h)

serialize_int_total : (z : ℤ) → fits 9223372036854775808 z ≡ true → Returns (serialize_int z)
unfolding serialize_int
serialize_int_total z h = elim (Bool-cases (fits 128 z)) [
  | inl a ↦ let (bs, e) = pack_int_total 1 z a in (int8_tag ∷ bs, rw (a, e))
  | inr a ↦ elim (Bool-cases (fits 32768 z)) [
    | inl b ↦ let (bs, e) = pack_int_total 2 z b in (int16_tag ∷ bs, rw (a, b, e))
    | inr b ↦ elim (Bool-cases (fits 2147483648 z)) [
      | inl c ↦ let (bs, e) = pack_int_total 4 z c in (int32_tag ∷ bs, rw (a, b, c, e))
      | inr c ↦ let (bs, e) = pack_int_total 8 z h in (int64_tag ∷ bs, rw (a, b, c, e))
    ]
  ]
]

serialize_string_total : (s : Text) → IsSmallText s → Returns (serialize_string s)
unfolding serialize_string
serialize_string_total s (text, e, size) =
    let (head, e') = counted_total string_tag (length text) size in (head ++ text, rw (e, e'))

-- The entries of a dictionary, each with a key and a value that `serialize` accepts.
abbrev Accepted : List (Text × Result SerialError Bytes) → Type 0
Accepted [] = Unit
Accepted ((k, r) ∷ es) = IsSmallText k × Returns r × Accepted es

insert_entry-Accepted :
    (k : Text) (r : Result SerialError Bytes) (es : List (Text × Result SerialError Bytes))
    → IsSmallText k
    → Returns r
    → Accepted es
    → Accepted (insert_entry k r es)
unfolding insert_entry
insert_entry-Accepted k r [] hk hr h = (hk, hr, tt)
insert_entry-Accepted k r ((j, q) ∷ es) hk hr h = elim (Bool-cases (text_ltb k j)) [
  | inl lt ↦ rw lt (hk, hr, (h.0, h.1, h.2))
  | inr ge ↦ rw ge (h.0, h.1, insert_entry-Accepted k r es hk hr h.2)
]

sort_entries-Accepted :
    (es : List (Text × Result SerialError Bytes)) → Accepted es → Accepted (sort_entries es)
unfolding sort_entries
sort_entries-Accepted [] h = tt
sort_entries-Accepted ((k, r) ∷ es) h =
    insert_entry-Accepted k r (sort_entries es) h.0 h.1 (sort_entries-Accepted es h.2)

join_entries_total :
    (es : List (Text × Result SerialError Bytes)) → Accepted es → Returns (join_entries es)
unfolding join_entries
join_entries_total [] h = ([], refl)
join_entries_total ((k, r) ∷ es) h =
    let (key, e0) = serialize_string_total k h.0 in
    let (value, e1) = h.1 in
    let (rest, e2) = join_entries_total es h.2 in (key ++ (value ++ rest), rw (e0, e1, e2))

mutual
  unfolding serialize serialize_float serialize_bytes

  value_total : (v : Value) → IsSmall v → Returns (serialize v)
  value_total null h = (null_tag ∷ [], refl)
  value_total (bool b) h = ((if b then true_tag else false_tag) ∷ [], refl)
  value_total (int z) h = serialize_int_total z h
  value_total (float x) h = let (bs, e) = pack_uint_total 8 x h in (float64_tag ∷ bs, rw e)
  value_total (bytes b) h =
      let (head, e) = counted_total bytes_tag (length b) h in (head ++ b, rw e)
  value_total (str s) h = serialize_string_total s h
  value_total (list vs) h =
      let (head, e) = counted_total list_tag (count_items vs) h.0 in
      let (body, e') = items_total vs h.1 in (head ++ body, rw (e, e'))
  value_total (dict fs) h =
      let (head, e) = counted_total dict_tag (count_fields fs) h.0 in
      let (body, e') =
        join_entries_total (sort_entries (serialize_fields fs))
          (sort_entries-Accepted (serialize_fields fs) (fields_total fs h.1)) in
      (head ++ body, rw (e, e'))

  items_total : (vs : Items) → AreSmall vs → Returns (serialize_items vs)
  items_total nil h = ([], refl)
  items_total (cons v vs) h =
      let (item, e) = value_total v h.0 in
      let (rest, e') = items_total vs h.1 in (item ++ rest, rw (e, e'))

  fields_total : (fs : Fields) → HaveSmall fs → Accepted (serialize_fields fs)
  fields_total end h = tt
  fields_total (field k v fs) h = (h.0, value_total v h.1, fields_total fs h.2)

-- A value whose numbers, strings, lengths and counts fit their formats is serialized.
pub serialize_total : (v : Value) → IsSmall v → (bs : Bytes) × (serialize v ≡ ok bs)
serialize_total v h = value_total v h
