-- ===== src/Serialization/RoundTrip.antt =====
-- deserialize after serialize, in utils/serialization.py.
use seigr_toolset_transmissi.Common.{
  ℕ, suc, ◌+◌, ◌-◌, ◌≤◌, ◌≡◌, refl, ap, ◌∙◌, List, [], ◌∷◌, ◌++◌, append_assoc, Bytes, true, false,
  Bool-cases, inl, inr, Result, ok, >>=-eq-ok, length, length-append, arith,
}
use seigr_toolset_transmissi.Common.Int.{pos}
use seigr_toolset_transmissi.Struct.{pack_uint}
use seigr_toolset_transmissi.Serialization.{
  Text, Value, null, bool, int, float, bytes, str, list, dict, Items, nil, cons, Fields, end, field,
  put_field, SerialError, null_tag, false_tag, true_tag, list_tag, dict_tag,
}
use seigr_toolset_transmissi.Serialization.Encode.{
  counted, text_ltb, insert_entry, sort_entries, count_items, count_fields, join_entries, serialize,
  serialize_items, serialize_fields, serialize_string,
}
use seigr_toolset_transmissi.Serialization.Decode.{
  read_items, read_fields, read_tagged, deserialize_value, deserialize,
}
use seigr_toolset_transmissi.Serialization.Normal.{normal, normal_items, normal_fields, collect}
use seigr_toolset_transmissi.Serialization.Leaves.{
  Reads, deserialize_value-tag, tagged-inv, read_count-pack, serialize_int-Reads,
  serialize_float-Reads, serialize_bytes-Reads, serialize_string-Reads,
}

-- Entries on their way into the bytes, beside what they are to be read as.
abbrev Related : List (Text × Result SerialError Bytes) → List (Text × Value) → Type 0
Related [] [] = Unit
Related [] (n ∷ ns) = ⊥
Related (e ∷ es) [] = ⊥
Related ((k, r) ∷ es) ((j, v) ∷ ns) =
    (k ≡ j) × ((bs : Bytes) → r ≡ ok bs → Reads v bs) × Related es ns

insert_entry-Related :
    (k : Text) (r : Result SerialError Bytes) (v : Value)
    (es : List (Text × Result SerialError Bytes)) (ns : List (Text × Value))
    → ((bs : Bytes) → r ≡ ok bs → Reads v bs)
    → Related es ns
    → Related (insert_entry k r es) (insert_entry k v ns)
unfolding insert_entry
insert_entry-Related k r v [] [] one many = (refl, one, tt)
insert_entry-Related k r v [] (n ∷ ns) one many = absurd many
insert_entry-Related k r v (e ∷ es) [] one many = absurd many
insert_entry-Related k r v ((i, q) ∷ es) ((j, w) ∷ ns) one many =
    rw (← many.0) (elim (Bool-cases (text_ltb k i)) [
      | inl lt ↦ rw lt (refl, one, (refl, many.1, many.2))
      | inr ge ↦ rw ge (refl, many.1, insert_entry-Related k r v es ns one many.2)
    ])

sort_entries-Related :
    (es : List (Text × Result SerialError Bytes)) (ns : List (Text × Value))
    → Related es ns
    → Related (sort_entries es) (sort_entries ns)
unfolding sort_entries
sort_entries-Related [] [] h = tt
sort_entries-Related [] (n ∷ ns) h = absurd h
sort_entries-Related (e ∷ es) [] h = absurd h
sort_entries-Related ((k, r) ∷ es) ((j, v) ∷ ns) h = rw (← h.0) (
    insert_entry-Related k r v (sort_entries es) (sort_entries ns) h.1
      (sort_entries-Related es ns h.2))

module _ {ℓ} {A : Type ℓ} where
  length-insert_entry :
      (k : Text) (a : A) (es : List (Text × A)) → length (insert_entry k a es) ≡ suc (length es)
  unfolding insert_entry
  length-insert_entry k a [] = refl
  length-insert_entry k a ((j, b) ∷ es) = ground (arith, length-insert_entry k a es)

  length-sort_entries : (es : List (Text × A)) → length (sort_entries es) ≡ length es
  unfolding sort_entries
  length-sort_entries [] = refl
  length-sort_entries ((k, a) ∷ es) =
      omega (arith, length-insert_entry k a (sort_entries es), length-sort_entries es)

length-serialize_fields : (fs : Fields) → length (serialize_fields fs) ≡ count_fields fs
unfolding serialize_fields
length-serialize_fields end = refl
length-serialize_fields (field k v fs) = omega (arith, length-serialize_fields fs)

-- The loop over the entries of a dictionary.
join_entries-Related :
    (es : List (Text × Result SerialError Bytes)) (ns : List (Text × Value)) (bs : Bytes)
    → Related es ns
    → join_entries es ≡ ok bs
    → (fuel : ℕ) (result : Fields) (rest : Bytes) → length bs ≤ fuel
    → read_fields (deserialize_value fuel) (length es) result (bs ++ rest)
      ≡ ok (collect result ns, rest)
unfolding join_entries read_fields collect
join_entries-Related [] [] bs rel h fuel result rest enough = let e : bs ≡ [] = cc h in rw e refl
join_entries-Related [] (n ∷ ns) bs rel h fuel result rest enough = absurd rel
join_entries-Related (e ∷ es) [] bs rel h fuel result rest enough = absurd rel
join_entries-Related ((k, r) ∷ es) ((j, v) ∷ ns) bs rel h fuel result rest enough =
    let (key, hk, h1) = >>=-eq-ok (serialize_string k) _ h in
    let (value, hv, h2) = >>=-eq-ok r _ h1 in
    let (later, hl, h3) = >>=-eq-ok (join_entries es) _ h2 in
    let whole : key ++ (value ++ later) ≡ bs = cc h3 in
    let size : length key + (length value + length later) ≡ length bs =
      omega
        (arith, ap length whole, length-append key (value ++ later), length-append value later) in
    rw
      (
        ← whole,
        append_assoc key (value ++ later) rest,
        append_assoc value later rest,
        serialize_string-Reads k key hk fuel (value ++ (later ++ rest)) (omega arith),
        rel.1 value hv fuel (later ++ rest) (omega arith),
        ← rel.0,
      )
      (join_entries-Related es ns later rel.2 hl fuel (put_field k v result) rest (omega arith))

mutual
  unfolding serialize normal read_items read_tagged

  serialize-Reads : (v : Value) (bs : Bytes) → serialize v ≡ ok bs → Reads (normal v) bs
  serialize-Reads null bs h fuel rest enough =
      let e : null_tag ∷ [] ≡ bs = cc h in
      rw (← e) (deserialize_value-tag fuel null_tag rest (let l = ap length e in omega arith))
  serialize-Reads (bool true) bs h fuel rest enough =
      let e : true_tag ∷ [] ≡ bs = cc h in
      rw (← e) (deserialize_value-tag fuel true_tag rest (let l = ap length e in omega arith))
  serialize-Reads (bool false) bs h fuel rest enough =
      let e : false_tag ∷ [] ≡ bs = cc h in
      rw (← e) (deserialize_value-tag fuel false_tag rest (let l = ap length e in omega arith))
  serialize-Reads (int z) bs h fuel rest enough = serialize_int-Reads z bs h fuel rest enough
  serialize-Reads (float x) bs h fuel rest enough = serialize_float-Reads x bs h fuel rest enough
  serialize-Reads (bytes b) bs h fuel rest enough = serialize_bytes-Reads b bs h fuel rest enough
  serialize-Reads (str s) bs h fuel rest enough = serialize_string-Reads s bs h fuel rest enough
  serialize-Reads (list vs) bs h fuel rest enough =
      let (head, hh, h1) = >>=-eq-ok (counted list_tag (count_items vs)) _ h in
      let (body, hb, h2) = >>=-eq-ok (serialize_items vs) _ h1 in
      let (size, packed, shape) =
        tagged-inv list_tag (pack_uint 4 (pos (count_items vs))) head hh in
      let whole : list_tag ∷ (size ++ body) ≡ bs = cc (h2, shape) in
      let l = ap length whole in
      rw (← whole, append_assoc size body rest)
        (deserialize_value-tag fuel list_tag (size ++ (body ++ rest)) (omega arith)
          ∙ rw (
            read_count-pack (count_items vs) size (body ++ rest) packed,
            serialize_items-Reads vs body hb (fuel - 1) rest
                (omega (arith, length-append size body)),
          ))
  serialize-Reads (dict fs) bs h fuel rest enough =
      let (head, hh, h1) = >>=-eq-ok (counted dict_tag (count_fields fs)) _ h in
      let (body, hb, h2) = >>=-eq-ok (join_entries (sort_entries (serialize_fields fs))) _ h1 in
      let (size, packed, shape) =
        tagged-inv dict_tag (pack_uint 4 (pos (count_fields fs))) head hh in
      let whole : dict_tag ∷ (size ++ body) ≡ bs = cc (h2, shape) in
      let l = ap length whole in
      let sorted =
        sort_entries-Related (serialize_fields fs) (normal_fields fs) (fields-Related fs) in
      let count : length (sort_entries (serialize_fields fs)) ≡ count_fields fs =
        length-sort_entries (serialize_fields fs) ∙ length-serialize_fields fs in
      let entries =
        join_entries-Related (sort_entries (serialize_fields fs)) (sort_entries (normal_fields fs))
          body sorted hb (fuel - 1) end rest (omega (arith, length-append size body)) in
      rw (← whole, append_assoc size body rest)
        (deserialize_value-tag fuel dict_tag (size ++ (body ++ rest)) (omega arith)
          ∙ rw (read_count-pack (count_fields fs) size (body ++ rest) packed, ← count, entries))

  serialize_items-Reads :
      (vs : Items) (bs : Bytes)
      → serialize_items vs ≡ ok bs
      → (fuel : ℕ) (rest : Bytes) → length bs ≤ fuel
      → read_items (deserialize_value fuel) (count_items vs) (bs ++ rest)
        ≡ ok (normal_items vs, rest)
  serialize_items-Reads nil bs h fuel rest enough = let e : bs ≡ [] = cc h in rw e refl
  serialize_items-Reads (cons v vs) bs h fuel rest enough =
      let (item, hi, h1) = >>=-eq-ok (serialize v) _ h in
      let (later, hl, h2) = >>=-eq-ok (serialize_items vs) _ h1 in
      let whole : item ++ later ≡ bs = cc h2 in
      let size : length item + length later ≡ length bs =
        omega (arith, ap length whole, length-append item later) in
      rw (
        ← whole,
        append_assoc item later rest,
        serialize-Reads v item hi fuel (later ++ rest) (omega arith),
        serialize_items-Reads vs later hl fuel rest (omega arith),
      )

  fields-Related : (fs : Fields) → Related (serialize_fields fs) (normal_fields fs)
  fields-Related end = tt
  fields-Related (field k v fs) = (refl, (λ bs h. serialize-Reads v bs h), fields-Related fs)

nothing_read : (v : Value) (rest : Bytes) → deserialize_value 1 [] ≡ ok (v, rest) → ⊥
unfolding deserialize_value
nothing_read v rest h = cc h

deserialize_whole :
    (whole : Bytes) (v : Value) (rest : Bytes)
    → deserialize_value (suc (length whole)) whole ≡ ok (v, rest)
    → deserialize whole ≡ ok v
unfolding deserialize
deserialize_whole [] v rest h = absurd (nothing_read v rest h)
deserialize_whole (b ∷ bs) v rest h = rw (h, deserialize) refl

-- Bytes that `serialize` wrote are read back, whatever follows them, as the value with each of its
-- dictionaries in the order of its keys.
pub deserialize-serialize :
    (v : Value) (bs rest : Bytes) → serialize v ≡ ok bs → deserialize (bs ++ rest) ≡ ok (normal v)
deserialize-serialize v bs rest h =
    deserialize_whole (bs ++ rest) (normal v) rest (
      serialize-Reads v bs h (suc (length (bs ++ rest))) rest
        (omega (arith, length-append bs rest)))
