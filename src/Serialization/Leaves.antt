-- ===== src/Serialization/Leaves.antt =====
-- Reading back what has no values inside: numbers, lengths, byte strings and strings.
use seigr_toolset_transmissi.Common.{
  ℕ, zero, suc, ◌-◌, ◌≤◌, ◌<◌, ◌≡◌, refl, ap, ◌∙◌, ◌∷◌, ◌++◌, append_assoc, Bytes, Option, none,
  some, Bool-cases, inl, inr, Result, ok, err, >>=-eq-ok, length, take_prefix, drop_prefix, arith,
}
use seigr_toolset_transmissi.Common.Int.{ℤ, pos}
use seigr_toolset_transmissi.Struct.{StructError, pack_int, pack_uint}
use seigr_toolset_transmissi.Struct.Laws.{unpack_int-pack, unpack_uint-pack}
use seigr_toolset_transmissi.Serialization.{
  Text, Value, int, float, bytes, str, SerialError, int8_tag, int16_tag, int32_tag, int64_tag,
  bytes_tag, string_tag, float64_tag,
}
use seigr_toolset_transmissi.Serialization.Utf8.{encode, decode-encode}
use seigr_toolset_transmissi.Serialization.Encode.{
  tagged, fits, counted, utf8, serialize_int, serialize_float, serialize_bytes, serialize_string,
}
use seigr_toolset_transmissi.Serialization.Decode.{
  read_int, read_float, read_count, read_bytes, read_string, read_tagged, deserialize_value,
}

-- The bytes `bs` read as the value `v`, whatever follows them, with their number as fuel.
abbrev pub Reads : Value → Bytes → Type 0
Reads v bs =
    (fuel : ℕ) (rest : Bytes)
    → length bs ≤ fuel
    → deserialize_value fuel (bs ++ rest) ≡ ok (v, rest)

pub deserialize_value-tag :
    (fuel tag : ℕ) (rest : Bytes)
    → 0 < fuel
    → deserialize_value fuel (tag ∷ rest) ≡ read_tagged (deserialize_value (fuel - 1)) tag rest
unfolding deserialize_value
deserialize_value-tag zero tag rest h = absurd (omega arith)
deserialize_value-tag (suc fuel) tag rest h = rw (let e : suc fuel - 1 ≡ fuel = omega arith in e)

pub tagged-inv :
    (tag : ℕ) (packed : Result StructError Bytes) (bs : Bytes)
    → tagged tag packed ≡ ok bs
    → (body : Bytes) × (packed ≡ ok body) × (bs ≡ tag ∷ body)
tagged-inv tag (ok body) bs h = (body, refl, cc h)
tagged-inv tag (err e) bs h = cc h

read_int-pack :
    (width : ℕ) (z : ℤ) (body rest : Bytes)
    → pack_int width z ≡ ok body
    → read_int width (body ++ rest) ≡ ok (int z, rest)
unfolding read_int
read_int-pack width z body rest h =
    let back = unpack_int-pack width z body h in
    rw (take_prefix width body rest back.1, drop_prefix width body rest back.1, back.0)

pub read_float-pack :
    (x : ℕ) (body rest : Bytes)
    → pack_uint 8 (pos x) ≡ ok body
    → read_float (body ++ rest) ≡ ok (float x, rest)
unfolding read_float
read_float-pack x body rest h =
    let back = unpack_uint-pack 8 (pos x) body h in
    rw (take_prefix 8 body rest back.1, drop_prefix 8 body rest back.1, back.0)

pub read_count-pack :
    (n : ℕ) (body rest : Bytes)
    → pack_uint 4 (pos n) ≡ ok body
    → read_count (body ++ rest) ≡ ok (n, rest)
unfolding read_count
read_count-pack n body rest h =
    let back = unpack_uint-pack 4 (pos n) body h in
    rw (take_prefix 4 body rest back.1, drop_prefix 4 body rest back.1, back.0)

-- One of the four widths.
int-Reads :
    (tag width : ℕ) (z : ℤ) (bs : Bytes)
    → ((read : Bytes → Result SerialError (Value × Bytes)) (rest : Bytes)
        → read_tagged read tag rest ≡ read_int width rest)
    → tagged tag (pack_int width z) ≡ ok bs
    → Reads (int z) bs
int-Reads tag width z bs step h fuel rest enough =
    let (body, packed, shape) = tagged-inv tag (pack_int width z) bs h in
    rw shape (
      deserialize_value-tag fuel tag (body ++ rest) (let l = ap length shape in omega arith)
      ∙ step (deserialize_value (fuel - 1)) (body ++ rest)
      ∙ read_int-pack width z body rest packed)

pub serialize_int-Reads : (z : ℤ) (bs : Bytes) → serialize_int z ≡ ok bs → Reads (int z) bs
unfolding serialize_int read_tagged
serialize_int-Reads z bs h = elim (Bool-cases (fits 128 z)) [
  | inl a ↦ int-Reads int8_tag 1 z bs (λ read rest. refl) (rw (a, serialize_int) at h)
  | inr a ↦ elim (Bool-cases (fits 32768 z)) [
    | inl b ↦ int-Reads int16_tag 2 z bs (λ read rest. refl) (rw (a, b, serialize_int) at h)
    | inr b ↦ elim (Bool-cases (fits 2147483648 z)) [
      | inl c ↦ int-Reads int32_tag 4 z bs (λ read rest. refl) (rw (a, b, c, serialize_int) at h)
      | inr c ↦ int-Reads int64_tag 8 z bs (λ read rest. refl) (rw (a, b, c, serialize_int) at h)
    ]
  ]
]

pub serialize_float-Reads : (x : ℕ) (bs : Bytes) → serialize_float x ≡ ok bs → Reads (float x) bs
unfolding serialize_float read_tagged
serialize_float-Reads x bs h fuel rest enough =
    let (body, packed, shape) = tagged-inv float64_tag (pack_uint 8 (pos x)) bs h in
    rw shape (
      deserialize_value-tag fuel float64_tag (body ++ rest) (let l = ap length shape in omega arith)
      ∙ read_float-pack x body rest packed)

pub serialize_bytes-Reads :
    (value bs : Bytes) → serialize_bytes value ≡ ok bs → Reads (bytes value) bs
unfolding serialize_bytes read_tagged read_bytes
serialize_bytes-Reads value bs h fuel rest enough =
    let (head, counts, shape) = >>=-eq-ok (counted bytes_tag (length value)) _ h in
    let (body, packed, shape') =
      tagged-inv bytes_tag (pack_uint 4 (pos (length value))) head counts in
    let whole : bytes_tag ∷ (body ++ value) ≡ bs = cc (shape, shape') in
    rw (← whole, append_assoc body value rest)
      (deserialize_value-tag fuel bytes_tag (body ++ (value ++ rest))
          (let l = ap length whole in omega arith)
        ∙ rw (
          read_count-pack (length value) body (value ++ rest) packed,
          take_prefix (length value) value rest refl,
          drop_prefix (length value) value rest refl,
        ))

utf8-inv : (encoded : Option Bytes) (text : Bytes) → utf8 encoded ≡ ok text → encoded ≡ some text
utf8-inv none text h = cc h
utf8-inv (some bs) text h = cc h

pub serialize_string-Reads :
    (value : Text) (bs : Bytes) → serialize_string value ≡ ok bs → Reads (str value) bs
unfolding serialize_string read_tagged read_string
serialize_string-Reads value bs h fuel rest enough =
    let (text, encoded, h1) = >>=-eq-ok (utf8 (encode value)) _ h in
    let (head, counts, shape) = >>=-eq-ok (counted string_tag (length text)) _ h1 in
    let (body, packed, shape') =
      tagged-inv string_tag (pack_uint 4 (pos (length text))) head counts in
    let whole : string_tag ∷ (body ++ text) ≡ bs = cc (shape, shape') in
    let back = decode-encode value text (utf8-inv (encode value) text encoded) in
    rw (← whole, append_assoc body text rest)
      (deserialize_value-tag fuel string_tag (body ++ (text ++ rest))
          (let l = ap length whole in omega arith)
        ∙ rw (
          read_count-pack (length text) body (text ++ rest) packed,
          take_prefix (length text) text rest refl,
          drop_prefix (length text) text rest refl,
          back,
        ))
