-- ===== src/Varint/Encode.antt =====
-- What `encode_varint` writes, in plain arithmetic.
use mathlib.Core.WellFounded
use mathlib.Core.WellFounded.{Acc}
use native.Mathlib.Decide.{dec_lt}
use seigr_toolset_transmissi.Common.{
  ℕ, ◌+◌, ◌/◌, ◌%◌, ◌<◌, ◌≡◌, refl, Bytes, [], ◌∷◌, length, AreBytes, ok, ◌>>=◌, arith,
}
use seigr_toolset_transmissi.Common.Bits.{low_bits, set_top_bit}
use seigr_toolset_transmissi.Common.Int.{ℤ, pos, negsuc}
use seigr_toolset_transmissi.Common.Order.{lt_wf}
use seigr_toolset_transmissi.Varint.{
  shift_shrinks, half_shrinks, encode_loop, encode_varint, encode_nat, size_loop, varint_size,
}

-- The loop does not look at its proof of termination.
encode_loop_irrelevant : (v : ℕ) (w x : Acc ◌<◌ v) → encode_loop v w ≡ encode_loop v x
unfolding encode_loop
encode_loop_irrelevant v (Acc.intro _ s) (Acc.intro _ t) = grind (
  arith,
  λ (p : 127 < v).
      encode_loop_irrelevant (v / 128) (s _ (shift_shrinks v p)) (t _ (shift_shrinks v p)),
)

encode_loop_last : (v : ℕ) (w : Acc ◌<◌ v) → v < 128 → encode_loop v w ≡ v ∷ []
unfolding encode_loop
encode_loop_last v (Acc.intro _ s) h = ground (arith, low_bits v)

encode_loop_more :
    (v : ℕ) (w : Acc ◌<◌ v) (x : Acc ◌<◌ (v / 128))
    → 127 < v
    → encode_loop v w ≡ (v % 128 + 128) ∷ encode_loop (v / 128) x
unfolding encode_loop
encode_loop_more v (Acc.intro _ s) x h = grind (
  arith,
  low_bits v,
  set_top_bit (v % 128) (omega arith),
  λ (p : Acc ◌<◌ (v / 128)). encode_loop_irrelevant (v / 128) p x,
)

pub encode_nat_last : (v : ℕ) → v < 128 → encode_nat v ≡ v ∷ []
unfolding encode_nat
encode_nat_last v h = encode_loop_last v (lt_wf.apply v) h

pub encode_nat_more : (v : ℕ) → 127 < v → encode_nat v ≡ (v % 128 + 128) ∷ encode_nat (v / 128)
unfolding encode_nat
encode_nat_more v h = encode_loop_more v (lt_wf.apply v) (lt_wf.apply (v / 128)) h

-- Induction along the loop: a property of the bytes of `v` from that of `v / 128`.
module _ {κ} (P : ℕ → Bytes → Type κ) where
  pub encode_induction :
      ((v : ℕ) → v < 128 → P v (v ∷ []))
      → ((v : ℕ) (bs : Bytes) → 127 < v → P (v / 128) bs → P v ((v % 128 + 128) ∷ bs))
      → (v : ℕ) → P v (encode_nat v)
  encode_induction last more v = WellFounded.induction lt_wf {C = λ k. P k (encode_nat k)} v λ k ih.
      elim (dec_lt 127 k) [
        | yes h ↦ rw (encode_nat_more k h) (more k _ h (ih (k / 128) (omega arith)))
        | no h ↦ rw (encode_nat_last k (omega arith)) (last k (omega arith))
      ]

-- Every byte that is written is a byte.
pub encode_nat-AreBytes : (v : ℕ) → AreBytes (encode_nat v)
encode_nat-AreBytes =
    encode_induction (λ v bs. AreBytes bs) (λ v h. omega arith) (λ v bs h k. (omega arith, k))

size_loop_zero : (v size : ℕ) (w : Acc ◌<◌ v) → v ≡ 0 → size_loop v w size ≡ size
unfolding size_loop
size_loop_zero v size (Acc.intro _ s) h = ground arith

size_loop-encode :
    (v size : ℕ) (w : Acc ◌<◌ v) → 0 < v → size_loop v w size ≡ size + length (encode_nat v)
unfolding size_loop
size_loop-encode v size (Acc.intro _ s) h = elim (dec_lt 127 v) [
  | yes more ↦ grind (
    arith,
    encode_nat_more v more,
    λ (p : 0 < v). size_loop-encode (v / 128) (size + 1) (s _ (half_shrinks v p)) (omega arith),
  )
  | no last ↦ grind (
    arith,
    encode_nat_last v (omega arith),
    λ (p : 0 < v). size_loop_zero (v / 128) (size + 1) (s _ (half_shrinks v p)) (omega arith),
  )
]

-- `varint_size` is the number of bytes that `encode_varint` writes, on every integer, and they raise
-- alike.
pub varint_size-encode :
    (value : ℤ) → varint_size value ≡ (encode_varint value >>= λ bs. ok (length bs))
unfolding varint_size encode_varint
varint_size-encode (pos v) = ground (arith, encode_nat_last v, size_loop-encode v 0 (lt_wf.apply v))
varint_size-encode (negsuc n) = refl
