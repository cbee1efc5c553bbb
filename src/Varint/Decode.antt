-- ===== src/Varint/Decode.antt =====
-- `decode_varint` on any input, well formed or not.
use mathlib.Core.Logic.{◌⊎◌, inl, inr}
use seigr_toolset_transmissi.Common.{
  ℕ, ◌+◌, ◌*◌, ◌%◌, ◌^◌, ◌≤◌, ◌<◌, ◌≡◌, refl, ap, bit_and, bit_or, Bytes, [], ◌∷◌, ◌++◌, length,
  length-append, length-drop, drop_prefix, drop, Result, ok, err, arith, leb, if◌then◌else◌,
  append-nil,
}
use seigr_toolset_transmissi.Common.Bits.{low_bits, bit_or_disjoint}
use seigr_toolset_transmissi.Varint.{
  ValueError, insufficient, incomplete, too_large, encode_nat, decode_loop, decode_varint,
}
use seigr_toolset_transmissi.Varint.RoundTrip.{group_fits, encode_nat_nonempty, decode-encode}

-- After `j` bytes the shift is 7 * j, and it never passes 63.
decode_loop_takes :
    (bs : Bytes) (acc shift j v n : ℕ)
    → shift ≡ 7 * j
    → j ≤ 9
    → acc < 2 ^ shift
    → decode_loop bs acc shift j ≡ ok (v, n)
    → (j < n) × (n ≤ 10) × (n ≤ j + length bs) × (v < 2 ^ (7 * n))
unfolding decode_loop
decode_loop_takes [] acc shift j v n hs hj ha e = cc
decode_loop_takes (b ∷ bs) acc shift j v n hs hj ha e = ground (
  arith,
  low_bits b,
  bit_or_disjoint shift acc (b % 128) ha,
  group_fits (b % 128) acc shift (omega arith) ha,
  seven_times,
  decode_loop_takes bs (bit_or acc (bit_and b 0x7F * 2 ^ shift)) (shift + 7) (j + 1) v n,
)
  where
    seven_times : 2 ^ (7 * (j + 1)) ≡ 2 ^ (shift + 7)
    seven_times = ap (λ (t : ℕ). 2 ^ t) (omega arith)

-- A successful `decode_varint` consumes one to ten bytes, all inside the data, and its value has at
-- most seven bits for each of them.
pub decode_varint_bounds :
    (bytes : Bytes) (offset v n : ℕ)
    → decode_varint bytes offset ≡ ok (v, n)
    → (1 ≤ n) × (n ≤ 10) × (offset + n ≤ length bytes) × (v < 2 ^ (7 * n))
unfolding decode_varint
decode_varint_bounds bytes offset v n e =
    ground (arith, decode_loop_takes (drop offset bytes) 0 0 0 v n, length-drop offset bytes)

decode_loop-append_ok :
    (bs more : Bytes) (acc shift j v n : ℕ)
    → decode_loop bs acc shift j ≡ ok (v, n)
    → decode_loop (bs ++ more) acc shift j ≡ ok (v, n)
unfolding decode_loop
decode_loop-append_ok [] more acc shift j v n e = cc
decode_loop-append_ok (b ∷ bs) more acc shift j v n e = ground (
  arith,
  decode_loop-append_ok bs more (bit_or acc (bit_and b 0x7F * 2 ^ shift)) (shift + 7) (j + 1) v n,
)

decode_loop-append_too_large :
    (bs more : Bytes) (acc shift j : ℕ)
    → decode_loop bs acc shift j ≡ err too_large
    → decode_loop (bs ++ more) acc shift j ≡ err too_large
unfolding decode_loop
decode_loop-append_too_large [] more acc shift j e = cc
decode_loop-append_too_large (b ∷ bs) more acc shift j e = ground (
  arith,
  decode_loop-append_too_large bs more (bit_or acc (bit_and b 0x7F * 2 ^ shift)) (shift + 7)
      (j + 1),
)

-- The loop raises nothing but these two.
decode_loop_cases :
    (bs : Bytes) (acc shift j : ℕ)
    → ((p : ℕ × ℕ) × (decode_loop bs acc shift j ≡ ok p))
      ⊎ ((decode_loop bs acc shift j ≡ err incomplete)
          ⊎ (decode_loop bs acc shift j ≡ err too_large))
unfolding decode_loop
decode_loop_cases [] acc shift j = inr (inl refl)
decode_loop_cases (b ∷ bs) acc shift j =
    ground
      (arith, decode_loop_cases bs (bit_or acc (bit_and b 0x7F * 2 ^ shift)) (shift + 7) (j + 1))

-- What decodes the whole encoding of `value`, read by the loop.
decode_loop-whole :
    (value : ℕ)
    → value < 2 ^ 70
    → decode_loop (encode_nat value) 0 0 0 ≡ ok (value, length (encode_nat value))
unfolding decode_varint
decode_loop-whole value fits =
    let whole = decode-encode value [] [] in
    ground (arith, rw append-nil at whole, encode_nat_nonempty value)

-- A proper prefix of what `encode_varint` wrote for a value of at most 70 bits never decodes: the
-- empty prefix lacks data, and any other is incomplete.
pub decode_varint-prefix :
    (value x : ℕ) (front back : Bytes)
    → value < 2 ^ 70
    → encode_nat value ≡ front ++ (x ∷ back)
    → decode_varint front 0 ≡ (if leb (length front) 0 then err insufficient else err incomplete)
unfolding decode_varint
decode_varint-prefix value x [] back fits e = refl
decode_varint-prefix value x (y ∷ ys) back fits e = elim (decode_loop_cases (y ∷ ys) 0 0 0) [
  | inl ((v, n), r) ↦ absurd (
      omega (
        arith,
        decode_loop_takes (y ∷ ys) 0 0 0 v n refl (omega arith) (omega arith) r,
        length-append (y ∷ ys) (x ∷ back),
        ap (λ (bs : Bytes). length bs) e,
        same_length v n (rw e at (decode_loop-whole value fits))
            (decode_loop-append_ok (y ∷ ys) (x ∷ back) 0 0 0 v n r),
      ))
  | inr (inl r) ↦ ground (arith, r)
  | inr (inr r) ↦ cc (
    rw e at (decode_loop-whole value fits),
    decode_loop-append_too_large (y ∷ ys) (x ∷ back) 0 0 0 r,
  )
]
  where
    same_length :
        (v n : ℕ) {r : Result ValueError (ℕ × ℕ)} {m : ℕ}
        → r ≡ ok (value, m)
        → r ≡ ok (v, n)
        → m ≡ n
    same_length v n p q = cc

-- What stands in front of the offset does not matter.
pub decode_varint_offset :
    (front bytes : Bytes) → decode_varint (front ++ bytes) (length front) ≡ decode_varint bytes 0
unfolding decode_varint
decode_varint_offset front bytes =
    rw (drop_prefix (length front) front bytes refl) (ground (arith, length-append front bytes))
