-- ===== src/Websocket/Lengths.antt =====
-- The length of a payload, as _send_ws_frame writes it and _receive_ws_frame reads it,
-- transport/websocket.py.
use seigr_toolset_transmissi.Common.{
  ℕ, ◌+◌, ◌<◌, ◌≡◌, refl, ◌∙◌, [], ◌∷◌, ◌++◌, Bytes, true, false, Bool-cases, inl, inr, Result, ok,
  err, ◌>>=◌, >>=-eq-ok, ltb, leb, if◌then◌else◌, length, length-append, take_prefix, drop_prefix,
  bit_or, arith,
}
use seigr_toolset_transmissi.Common.Int.{pos}
use seigr_toolset_transmissi.Struct.{StructError, pack_uint}
use seigr_toolset_transmissi.Struct.Laws.{unpack_uint-pack}
use seigr_toolset_transmissi.Websocket.Send.{packed, length_bytes}
use seigr_toolset_transmissi.Websocket.Receive.{readexactly, read_length, extended_length}

pub readexactly-prefix :
    (n : ℕ) (xs rest : Bytes) → length xs ≡ n → readexactly n (xs ++ rest) ≡ ok (xs, rest)
unfolding readexactly
readexactly-prefix n xs rest h =
    rw (take_prefix n xs rest h, drop_prefix n xs rest h) (ground (arith, length-append xs rest))

read_length-pack :
    (width n : ℕ) (bs rest : Bytes)
    → pack_uint width (pos n) ≡ ok bs
    → read_length width (bs ++ rest) ≡ ok (n, rest)
read_length-pack width n bs rest h =
    let back = unpack_uint-pack width (pos n) bs h in
    rw (readexactly-prefix width bs rest back.1, back.0) refl

packed-inv : (r : Result StructError Bytes) (bs : Bytes) → packed r ≡ ok bs → r ≡ ok bs
packed-inv (ok a) bs h = cc h
packed-inv (err e) bs h = cc h

-- The length as it was sent: a second byte below the mask's bit, and what extends it.
pub record Sized (bit n : ℕ) (size : Bytes) : Type 0 where
  pub second : ℕ
  pub extension : Bytes
  pub below : second < 128
  pub written : size ≡ bit_or bit second ∷ extension
  pub wide : length extension ≡ (if leb 126 n then 2 else 0) + (if leb 65536 n then 6 else 0)
  pub read : (rest : Bytes) → extended_length second (extension ++ rest) ≡ ok (n, rest)

length_bytes-medium :
    (bit n : ℕ) (size : Bytes)
    → ltb n 126 ≡ false
    → ltb n 65536 ≡ true
    → (packed (pack_uint 2 (pos n)) >>= λ bs. ok (bit_or bit 126 ∷ bs)) ≡ ok size
    → Sized bit n size
unfolding extended_length
length_bytes-medium bit n size large medium h =
    let (bs, e, out) = >>=-eq-ok (packed (pack_uint 2 (pos n))) _ h in
    let sent = packed-inv (pack_uint 2 (pos n)) bs e in
    record {
      second = 126;
      extension = bs;
      below = omega arith;
      written = cc out;
      wide = (unpack_uint-pack 2 (pos n) bs sent).1 ∙ ground (arith, large, medium);
      read = λ rest. read_length-pack 2 n bs rest sent;
    }

length_bytes-huge :
    (bit n : ℕ) (size : Bytes)
    → ltb n 65536 ≡ false
    → (packed (pack_uint 8 (pos n)) >>= λ bs. ok (bit_or bit 127 ∷ bs)) ≡ ok size
    → Sized bit n size
unfolding extended_length
length_bytes-huge bit n size huge h =
    let (bs, e, out) = >>=-eq-ok (packed (pack_uint 8 (pos n))) _ h in
    let sent = packed-inv (pack_uint 8 (pos n)) bs e in
    record {
      second = 127;
      extension = bs;
      below = omega arith;
      written = cc out;
      wide = (unpack_uint-pack 8 (pos n) bs sent).1 ∙ ground (arith, huge);
      read = λ rest. read_length-pack 8 n bs rest sent;
    }

length_bytes-small :
    (bit n : ℕ) (size : Bytes) → ltb n 126 ≡ true → (bit_or bit n ∷ []) ≡ size → Sized bit n size
unfolding extended_length
length_bytes-small bit n size small h = record {
  second = n;
  extension = [];
  below = ground (arith, small);
  written = cc h;
  wide = ground (arith, small);
  read = λ rest. ground (arith, small);
}

pub length_bytes-Sized :
    (bit n : ℕ) (size : Bytes) → length_bytes bit n ≡ ok size → Sized bit n size
unfolding length_bytes
length_bytes-Sized bit n size h = elim (Bool-cases (ltb n 126)) [
  | inl small ↦ length_bytes-small bit n size small (cc (rw small at h))
  | inr large ↦ elim (Bool-cases (ltb n 65536)) [
    | inl medium ↦ length_bytes-medium bit n size large medium (rw (large, medium) at h)
    | inr huge ↦ length_bytes-huge bit n size huge (rw (large, huge) at h)
  ]
]
