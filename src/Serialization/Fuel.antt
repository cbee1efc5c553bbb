-- ===== src/Serialization/Fuel.antt =====
-- The fuel of `deserialize_value` is enough: reading goes no deeper than there are bytes.
use seigr_toolset_transmissi.Common.{
  ℕ, zero, suc, ◌≤◌, ◌<◌, ◌≡◌, ◌≢◌, refl, ap, [], ◌∷◌, Bytes, Bool, true, false, Option, none, some,
  Result, ok, err, ◌>>=◌, ◌==◌, if◌then◌else◌, length, length-drop, take, drop, arith,
}
use seigr_toolset_transmissi.Common.Int.{ℤ}
use seigr_toolset_transmissi.Struct.{StructError, unpack_int, unpack_uint}
use seigr_toolset_transmissi.Serialization.{
  Text, Value, bool, null, str, Fields, end, put_field, SerialError, unknown_tag, out_of_fuel,
  null_tag, false_tag, true_tag, int8_tag, int16_tag, int32_tag, int64_tag, float64_tag, bytes_tag,
  string_tag, list_tag, dict_tag,
}
use seigr_toolset_transmissi.Serialization.Utf8.{decode}
use seigr_toolset_transmissi.Serialization.Decode.{
  Reader, unpacked, read_int, read_float, read_count, read_bytes, read_string, read_items,
  read_fields, as_key, decoded, read_tagged, deserialize_value, deserialize,
}

abbrev ran_out : SerialError → Bool
ran_out out_of_fuel = true
ran_out _ = false

-- A result that is no lack of fuel and leaves at most `n` bytes.
data Leaves {A : Type 0} (n : ℕ) : Result SerialError (A × Bytes) → Type 0 where
  leaves : (a : A) (after : Bytes) → length after ≤ n → Leaves n (ok (a, after))
  raises : (e : SerialError) → ran_out e ≡ false → Leaves n (err e)

module _ {A B : Type 0} where
  -- A reader behind another one.
  Leaves-bind :
      (n : ℕ) {r : Result SerialError (A × Bytes)}
      (next : A × Bytes → Result SerialError (B × Bytes))
      → Leaves n r
      → ((a : A) (after : Bytes) → length after ≤ n → Leaves n (next (a, after)))
      → Leaves n (r >>= next)
  Leaves-bind n next (leaves a after h) k = k a after h
  Leaves-bind n next (raises e h) k = raises e h

Leaves-unpacked :
    (width : ℕ) (value : Result StructError ℤ) (rest : Bytes)
    → Leaves (length rest) (unpacked width value rest)
Leaves-unpacked width (ok z) rest = leaves _ _ (omega (arith, length-drop width rest))
Leaves-unpacked width (err e) rest = raises _ refl

Leaves-weaken :
    {A : Type 0} (n m : ℕ) {r : Result SerialError (A × Bytes)} → n ≤ m → Leaves n r → Leaves m r
Leaves-weaken n m le (leaves a after h) = leaves a after (omega arith)
Leaves-weaken n m le (raises e h) = raises e h

read_int-Leaves : (width : ℕ) (rest : Bytes) → Leaves (length rest) (read_int width rest)
unfolding read_int
read_int-Leaves width rest =
    Leaves-bind (length rest) _ (Leaves-unpacked width (unpack_int width (take width rest)) rest)
      (λ z after h. leaves _ _ h)

read_float-Leaves : (rest : Bytes) → Leaves (length rest) (read_float rest)
unfolding read_float
read_float-Leaves rest =
    Leaves-bind (length rest) _ (Leaves-unpacked 8 (unpack_uint 8 (take 8 rest)) rest)
      (λ z after h. leaves _ _ h)

read_count-Leaves : (rest : Bytes) → Leaves (length rest) (read_count rest)
unfolding read_count
read_count-Leaves rest =
    Leaves-bind (length rest) _ (Leaves-unpacked 4 (unpack_uint 4 (take 4 rest)) rest)
      (λ z after h. leaves _ _ h)

read_bytes-Leaves : (rest : Bytes) → Leaves (length rest) (read_bytes rest)
unfolding read_bytes
read_bytes-Leaves rest =
    Leaves-bind (length rest) _ (read_count-Leaves rest)
      (λ n after h. leaves _ _ (omega (arith, length-drop n after)))

decoded-Leaves :
    (text : Option Text) (n m : ℕ) (after : Bytes)
    → length after ≤ n
    → Leaves n (decoded text >>= λ s. ok (s, drop m after))
decoded-Leaves none n m after h = raises _ refl
decoded-Leaves (some s) n m after h = leaves _ _ (omega (arith, length-drop m after))

read_string-Leaves : (rest : Bytes) → Leaves (length rest) (read_string rest)
unfolding read_string
read_string-Leaves rest =
    Leaves-bind (length rest) _ (read_count-Leaves rest)
      (λ n after h. decoded-Leaves (decode (take n after)) (length rest) n after h)

if-Leaves :
    {A : Type 0} (n : ℕ) (b : Bool) {x y : Result SerialError (A × Bytes)}
    → Leaves n x
    → Leaves n y
    → Leaves n (if b then x else y)
if-Leaves n true h k = h
if-Leaves n false h k = k

as_key-Leaves :
    {A : Type 0} (n : ℕ) (key : Value) (next : Text → Result SerialError (A × Bytes))
    → ((k : Text) → Leaves n (next k))
    → Leaves n (as_key key >>= next)
as_key-Leaves n (str k) next h = h k
as_key-Leaves n null next h = raises _ refl
as_key-Leaves n (Value.bool b) next h = raises _ refl
as_key-Leaves n (Value.int z) next h = raises _ refl
as_key-Leaves n (Value.float x) next h = raises _ refl
as_key-Leaves n (Value.bytes b) next h = raises _ refl
as_key-Leaves n (Value.list vs) next h = raises _ refl
as_key-Leaves n (Value.dict fs) next h = raises _ refl

module _ (fuel : ℕ) (read : Reader Value)
    (inner : (rest : Bytes) → length rest < fuel → Leaves (length rest) (read rest)) where
  inner_within : (n : ℕ) (rest : Bytes) → length rest ≤ n → n < fuel → Leaves n (read rest)
  inner_within n rest le lt = Leaves-weaken (length rest) n le (inner rest (omega arith))

  read_items-Leaves :
      (count n : ℕ) (rest : Bytes)
      → length rest ≤ n
      → n < fuel
      → Leaves n (read_items read count rest)
  unfolding read_items
  read_items-Leaves zero n rest le lt = leaves _ _ le
  read_items-Leaves (suc count) n rest le lt =
      Leaves-bind n _ (inner_within n rest le lt) (λ item after h.
        Leaves-bind n _ (read_items-Leaves count n after h lt) (λ items last h'. leaves _ _ h'))

  read_fields-Leaves :
      (count n : ℕ) (result : Fields) (rest : Bytes)
      → length rest ≤ n
      → n < fuel
      → Leaves n (read_fields read count result rest)
  unfolding read_fields
  read_fields-Leaves zero n result rest le lt = leaves _ _ le
  read_fields-Leaves (suc count) n result rest le lt =
      Leaves-bind n _ (inner_within n rest le lt) (λ key after h. as_key-Leaves n key _ (λ k.
        Leaves-bind n _ (inner_within n after h lt)
          (λ value last h'. read_fields-Leaves count n (put_field k value result) last h' lt)))

  read_tagged-Leaves :
      (tag : ℕ) (rest : Bytes)
      → length rest < fuel
      → Leaves (length rest) (read_tagged read tag rest)
  unfolding read_tagged
  read_tagged-Leaves tag rest lt =
      let n = length rest in
      let items : Leaves n (
          read_count rest >>= λ (count, after).
          read_items read count after >>= λ (items, last). ok (Value.list items, last)) =
        Leaves-bind n _ (read_count-Leaves rest) (λ count after h.
          Leaves-bind n _ (read_items-Leaves count n after h lt)
            (λ items last h'. leaves _ _ h')) in
      let fields : Leaves n (
          read_count rest >>= λ (count, after).
          read_fields read count end after >>= λ (fields, last). ok (Value.dict fields, last)) =
        Leaves-bind n _ (read_count-Leaves rest) (λ count after h.
          Leaves-bind n _ (read_fields-Leaves count n end after h lt)
            (λ fields last h'. leaves _ _ h')) in
      let here : n ≤ n = omega arith in
      if-Leaves n (tag == null_tag) (leaves null rest here) (
        if-Leaves n (tag == false_tag) (leaves (bool false) rest here) (
          if-Leaves n (tag == true_tag) (leaves (bool true) rest here) (
            if-Leaves n (tag == int8_tag) (read_int-Leaves 1 rest) (
              if-Leaves n (tag == int16_tag) (read_int-Leaves 2 rest) (
                if-Leaves n (tag == int32_tag) (read_int-Leaves 4 rest) (
                  if-Leaves n (tag == int64_tag) (read_int-Leaves 8 rest) (
                    if-Leaves n (tag == float64_tag) (read_float-Leaves rest) (
                      if-Leaves n (tag == bytes_tag) (read_bytes-Leaves rest) (
                        if-Leaves n (tag == string_tag) (read_string-Leaves rest) (
                          if-Leaves n (tag == list_tag) items (
                            if-Leaves n (tag == dict_tag) fields
                              (raises unknown_tag refl))))))))))))

deserialize_value-Leaves :
    (fuel : ℕ) (rest : Bytes)
    → length rest < fuel
    → Leaves (length rest) (deserialize_value fuel rest)
unfolding deserialize_value
deserialize_value-Leaves zero rest lt = absurd (omega arith)
deserialize_value-Leaves (suc fuel) [] lt = raises _ refl
deserialize_value-Leaves (suc fuel) (tag ∷ rest) lt =
    Leaves-weaken (length rest) (suc (length rest)) (omega arith) (
      read_tagged-Leaves fuel (deserialize_value fuel) (deserialize_value-Leaves fuel) tag rest
        (omega arith))

value-ends :
    (n : ℕ) {r : Result SerialError (Value × Bytes)}
    → Leaves n r
    → (r >>= λ (value, _). ok value) ≢ err out_of_fuel
value-ends n (leaves v after l) h = cc h
value-ends n (raises e l) h = let same : e ≡ out_of_fuel = cc h in cc (l, ap ran_out same)

-- On every input `deserialize` returns a value or raises: it does not run out of fuel.
pub deserialize_ends : (bs : Bytes) → deserialize bs ≢ err out_of_fuel
unfolding deserialize
deserialize_ends [] h = cc h
deserialize_ends (b ∷ bs) h =
    let whole = b ∷ bs in
    value-ends (length whole) (deserialize_value-Leaves (suc (length whole)) whole (omega arith)) h
