-- ===== src/Varint/RoundTrip.antt =====
-- `decode_varint` reads back what `encode_varint` wrote, exactly up to 70 bits.
use native.Mathlib.Decide.{dec_lt}
use native.Mathlib.Nat.{div-add-mod, pow-suc}
use native.Mathlib.Numerals.{towards_suc}
use seigr_toolset_transmissi.Common.{
  ℕ, zero, suc, ◌+◌, ◌*◌, ◌/◌, ◌%◌, ◌^◌, ◌<◌, ◌≡◌, refl, sym, ap, ◌∙◌, Bytes, ◌∷◌, ◌++◌, length,
  length-append, drop_prefix, ok, err, arith, ltb, leb, if◌then◌else◌,
}
use seigr_toolset_transmissi.Common.Bits.{low_bits, top_bit, bit_or_disjoint}
use seigr_toolset_transmissi.Varint.{too_large, encode_nat, decode_loop, decode_varint}
use seigr_toolset_transmissi.Varint.Encode.{encode_induction, encode_nat_last, encode_nat_more}

-- One round of the loop on a last byte, and on a byte with the top bit set over the group `g`.
last_byte :
    (w acc shift n : ℕ) (rest : Bytes)
    → w < 128
    → acc < 2 ^ shift
    → decode_loop (w ∷ rest) acc shift n ≡ ok (acc + w * 2 ^ shift, n + 1)
unfolding decode_loop
last_byte w acc shift n rest hw ha =
    ground (arith, low_bits w, top_bit w (omega arith), bit_or_disjoint shift acc w ha)

inner_byte :
    (g acc shift n : ℕ) (rest : Bytes)
    → g < 128
    → acc < 2 ^ shift
    → decode_loop ((g + 128) ∷ rest) acc shift n ≡ (
        if leb 64 (shift + 7)
        then err too_large
        else decode_loop rest (acc + g * 2 ^ shift) (shift + 7) (n + 1))
unfolding decode_loop
inner_byte g acc shift n rest hg ha =
    ground
      (arith, low_bits (g + 128), top_bit (g + 128) (omega arith), bit_or_disjoint shift acc g ha)

seven_more : (s : ℕ) → 2 ^ (s + 7) ≡ 128 * 2 ^ s
seven_more s = simp towards_suc (omega arith)

-- A value from bit `s` on is its low seven bits there and the others seven bits further up.
take_group : (w s : ℕ) → w * 2 ^ s ≡ w % 128 * 2 ^ s + w / 128 * 2 ^ (s + 7)
take_group w s =
    let parts : w * 2 ^ s ≡ (128 * (w / 128) + w % 128) * 2 ^ s =
      ap (λ (t : ℕ). t * 2 ^ s) (sym (div-add-mod w 128)) in
    parts ∙ omega (arith, ap (λ (t : ℕ). w / 128 * t) (seven_more s))

pub group_fits : (g acc s : ℕ) → g < 128 → acc < 2 ^ s → acc + g * 2 ^ s < 2 ^ (s + 7)
group_fits g acc s hg ha = rw seven_more (grind arith)

encode_nat_small : (k w : ℕ) → w < 128 → w < 128 ^ suc k
encode_nat_small zero w h = omega arith
encode_nat_small (suc k) w h = omega (arith, encode_nat_small k w h, pow-suc 128 (suc k))

-- With `k + 1` rounds left before the shift reaches 70, exactly the values of as many groups are read.
decode_loop-encode :
    (k w acc shift n : ℕ) (rest : Bytes)
    → shift + 7 * suc k ≡ 70
    → acc < 2 ^ shift
    → decode_loop (encode_nat w ++ rest) acc shift n ≡ (
        if ltb w (128 ^ suc k)
        then ok (acc + w * 2 ^ shift, n + length (encode_nat w))
        else err too_large)
decode_loop-encode zero w acc shift n rest hs ha = elim (dec_lt 127 w) [
  | yes more ↦ rw (encode_nat_more w more) (
      ground
        (arith, inner_byte (w % 128) acc shift n (encode_nat (w / 128) ++ rest) (omega arith) ha))
  | no last ↦
      rw (encode_nat_last w (omega arith))
        (ground (arith, last_byte w acc shift n rest (omega arith) ha))
]
decode_loop-encode (suc k) w acc shift n rest hs ha = elim (dec_lt 127 w) [
  | yes more ↦ rw (encode_nat_more w more) (
      ground (
        arith,
        inner_byte (w % 128) acc shift n (encode_nat (w / 128) ++ rest) (omega arith) ha,
        decode_loop-encode k (w / 128) (acc + w % 128 * 2 ^ shift) (shift + 7) (n + 1) rest
            (omega arith) (group_fits (w % 128) acc shift (omega arith) ha),
        take_group w shift,
        pow-suc 128 (suc k),
      ))
  | no last ↦
      rw (encode_nat_last w (omega arith))
        (ground (arith, last_byte w acc shift n rest (omega arith) ha, encode_nat_small (suc k) w))
]

pub encode_nat_nonempty : (v : ℕ) → 0 < length (encode_nat v)
encode_nat_nonempty =
    encode_induction (λ v bs. 0 < length bs) (λ v h. omega arith) (λ v bs h k. omega arith)

-- Wherever the bytes of `encode_varint value` stand, `decode_varint` at that offset returns the value
-- and their number if the value has at most 70 bits, and otherwise it raises.
pub decode-encode :
    (value : ℕ) (front rest : Bytes)
    → decode_varint (front ++ (encode_nat value ++ rest)) (length front)
      ≡ (if ltb value (2 ^ 70) then ok (value, length (encode_nat value)) else err too_large)
unfolding decode_varint
decode-encode value front rest =
    rw (drop_prefix (length front) front (encode_nat value ++ rest) refl, decode_varint)
      (ground (
        arith,
        decode_loop-encode 9 value 0 0 0 rest,
        length-append front (encode_nat value ++ rest),
        length-append (encode_nat value) rest,
        encode_nat_nonempty value,
      ))
