-- ===== src/Common/Bits.antt =====
-- Bit operations as arithmetic: masks of one bit and of low bits, and `|` of disjoint parts.
use Prim.Native.Nat.{
  min, bit_and-bitwise, ℕ, zero, suc, ◌+◌, ◌*◌, ◌/◌, ◌%◌, ◌^◌, ◌-◌, ◌≤◌, ◌<◌, max, bit_and, bit_or,
  digits, bit_or-bitwise, bit_xor, bit_xor-bitwise, differ,
}
use mathlib.Core.Path.{◌≡◌, refl, ap}
use native.Mathlib.Omega.{arith}
use native.Mathlib.Nat.{pow-suc}

-- The operations are digit recursions with a fuel, which does not matter once it is large enough.
module _ (base : ℕ → ℕ) (op : ℕ → ℕ → ℕ) where
  one_more : (fuel x y : ℕ) → x ≤ fuel → digits base op (suc fuel) x y ≡ digits base op fuel x y
  one_more zero zero y le = refl
  one_more (suc fuel) zero y le = refl
  one_more zero (suc x) y le = absurd (omega arith)
  one_more (suc fuel) (suc x) y le = omega (arith, one_more fuel (suc x / 2) (y / 2) (omega arith))

  any_more :
      (extra fuel x y : ℕ) → fuel ≡ extra + x → digits base op fuel x y ≡ digits base op x x y
  any_more zero fuel x y e = rw (let same : fuel ≡ x = omega arith in same) refl
  any_more (suc extra) fuel x y e =
      let more = any_more extra (extra + x) x y refl in
      let shift : fuel ≡ suc (extra + x) = omega arith in
      rw shift (omega (arith, one_more (extra + x) x y (omega arith), more))

  -- The lowest digit beside those of the halves.
  halve_digits :
      (x y : ℕ)
      → digits base op (suc x) (suc x) y
        ≡ op (suc x % 2) (y % 2) + 2 * digits base op (suc x / 2) (suc x / 2) (y / 2)
  halve_digits x y =
      let half = suc x / 2 in omega (arith, any_more (x - half) x half (y / 2) (omega arith))

pub zero-bit_or : (y : ℕ) → bit_or 0 y ≡ y
zero-bit_or y = bit_or-bitwise 0 y

zero-bit_and : (y : ℕ) → bit_and 0 y ≡ 0
zero-bit_and y = bit_and-bitwise 0 y

pub bit_or_halves : (x y : ℕ) → bit_or x y ≡ max (x % 2) (y % 2) + 2 * bit_or (x / 2) (y / 2)
bit_or_halves zero y = omega (arith, zero-bit_or (y / 2), zero-bit_or y)
bit_or_halves (suc x) y = omega (
  arith,
  halve_digits (λ c. c) max x y,
  bit_or-bitwise (suc x / 2) (y / 2),
  bit_or-bitwise (suc x) y,
)

bit_and_halves : (x y : ℕ) → bit_and x y ≡ min (x % 2) (y % 2) + 2 * bit_and (x / 2) (y / 2)
bit_and_halves zero y = omega (arith, zero-bit_and (y / 2), zero-bit_and y)
bit_and_halves (suc x) y = omega (
  arith,
  halve_digits (λ _. 0) min x y,
  bit_and-bitwise (suc x / 2) (y / 2),
  bit_and-bitwise (suc x) y,
)

power_up : (s : ℕ) → 2 ^ suc s ≡ 2 * 2 ^ s
power_up s = omega (arith, pow-suc 2 s)

-- `low | (high << s)` is a sum where `low` lies below bit s.
pub bit_or_disjoint :
    (s low high : ℕ) → low < 2 ^ s → bit_or low (high * 2 ^ s) ≡ low + high * 2 ^ s
bit_or_disjoint zero zero high h = omega (arith, zero-bit_or (high * 1))
bit_or_disjoint zero (suc low) high h = absurd (omega arith)
bit_or_disjoint (suc s) low high h =
    let e : high * 2 ^ suc s ≡ 2 * (high * 2 ^ s) =
      omega (arith, ap (λ (t : ℕ). high * t) (power_up s)) in
    let half : (2 * (high * 2 ^ s)) / 2 ≡ high * 2 ^ s = omega arith in
    rw (e, bit_or_halves, half)
      (omega (arith, bit_or_disjoint s (low / 2) high (omega (arith, power_up s))))

pub set_top_bit : (b : ℕ) → b < 128 → bit_or b 0x80 ≡ b + 128
set_top_bit b h = bit_or_disjoint 7 b 1 h

bit_or-double : (m b : ℕ) → bit_or (2 * m) b ≡ b % 2 + 2 * bit_or m (b / 2)
bit_or-double m b =
    let half : 2 * m / 2 ≡ m = omega arith in
    let even : 2 * m % 2 ≡ 0 = omega arith in rw (bit_or_halves (2 * m) b, half, even) (omega arith)

-- The bit set in front, as the code writes it.
pub top_bit_or : (b : ℕ) → b < 128 → bit_or 0x80 b ≡ b + 128
top_bit_or b h = omega (
  arith,
  bit_or-double 64 b,
  bit_or-double 32 (b / 2),
  bit_or-double 16 (b / 2 / 2),
  bit_or-double 8 (b / 2 / 2 / 2),
  bit_or-double 4 (b / 2 / 2 / 2 / 2),
  bit_or-double 2 (b / 2 / 2 / 2 / 2 / 2),
  bit_or-double 1 (b / 2 / 2 / 2 / 2 / 2 / 2),
  bit_or_halves 1 (b / 2 / 2 / 2 / 2 / 2 / 2 / 2),
  zero-bit_or (b / 2 / 2 / 2 / 2 / 2 / 2 / 2 / 2),
)

bit_and-zero : (fuel x : ℕ) → x ≤ fuel → bit_and x 0 ≡ 0
bit_and-zero fuel zero le = zero-bit_and 0
bit_and-zero zero (suc x) le = absurd (omega arith)
bit_and-zero (suc fuel) (suc x) le =
    omega (arith, bit_and_halves (suc x) 0, bit_and-zero fuel (suc x / 2) (omega arith))

bit_and-1 : (x : ℕ) → bit_and x 1 ≡ x % 2
bit_and-1 x = omega (arith, bit_and-zero (x / 2) (x / 2) (omega arith), bit_and_halves x 1)

-- A mask of the seven low bits.
pub low_bits : (x : ℕ) → bit_and x 0x7F ≡ x % 128
low_bits x = omega (
  arith,
  bit_and_halves x 127,
  bit_and_halves (x / 2) 63,
  bit_and_halves (x / 2 / 2) 31,
  bit_and_halves (x / 2 / 2 / 2) 15,
  bit_and_halves (x / 2 / 2 / 2 / 2) 7,
  bit_and_halves (x / 2 / 2 / 2 / 2 / 2) 3,
  bit_and-1 (x / 2 / 2 / 2 / 2 / 2 / 2),
)

-- A mask of one bit, moved down to the lowest.
bit_and-double : (x m : ℕ) → bit_and x (2 * m) ≡ 2 * bit_and (x / 2) m
bit_and-double x m =
    let half : 2 * m / 2 ≡ m = omega arith in
    let even : 2 * m % 2 ≡ 0 = omega arith in
    rw (bit_and_halves x (2 * m), half, even) (omega arith)

pub top_bit : (b : ℕ) → b < 256 → bit_and b 0x80 ≡ b / 128 * 128
top_bit b h = omega (
  arith,
  bit_and-double b 64,
  bit_and-double (b / 2) 32,
  bit_and-double (b / 2 / 2) 16,
  bit_and-double (b / 2 / 2 / 2) 8,
  bit_and-double (b / 2 / 2 / 2 / 2) 4,
  bit_and-double (b / 2 / 2 / 2 / 2 / 2) 2,
  bit_and-double (b / 2 / 2 / 2 / 2 / 2 / 2) 1,
  bit_and-1 (b / 2 / 2 / 2 / 2 / 2 / 2 / 2),
)

pub zero-bit_xor : (y : ℕ) → bit_xor 0 y ≡ y
zero-bit_xor y = bit_xor-bitwise 0 y

bit_xor_halves : (x y : ℕ) → bit_xor x y ≡ differ (x % 2) (y % 2) + 2 * bit_xor (x / 2) (y / 2)
bit_xor_halves zero y = omega (arith, zero-bit_xor (y / 2), zero-bit_xor y)
bit_xor_halves (suc x) y = omega (
  arith,
  halve_digits (λ c. c) differ x y,
  bit_xor-bitwise (suc x / 2) (y / 2),
  bit_xor-bitwise (suc x) y,
)

differ_comm : (a b : ℕ) → differ a b ≡ differ b a
differ_comm zero zero = refl
differ_comm zero (suc b) = refl
differ_comm (suc a) zero = refl
differ_comm (suc a) (suc b) = differ_comm a b

-- On two digits.
differ_digits : (a b : ℕ) → a < 2 → b < 2 → (differ a b < 2) × (differ (differ a b) b ≡ a)
differ_digits zero zero p q = omega arith
differ_digits zero (suc zero) p q = omega arith
differ_digits (suc zero) zero p q = omega arith
differ_digits (suc zero) (suc zero) p q = omega arith
differ_digits (suc (suc a)) b p q = absurd (omega arith)
differ_digits a (suc (suc b)) p q = absurd (omega arith)

xor_comm_below : (n x y : ℕ) → x ≤ n → y ≤ n → bit_xor x y ≡ bit_xor y x
xor_comm_below zero x y p q =
    let x0 : x ≡ 0 = omega arith in let y0 : y ≡ 0 = omega arith in rw (x0, y0)
xor_comm_below (suc n) x y p q = omega (
  arith,
  bit_xor_halves x y,
  bit_xor_halves y x,
  differ_comm (x % 2) (y % 2),
  xor_comm_below n (x / 2) (y / 2) (omega arith) (omega arith),
)

pub bit_xor_comm : (x y : ℕ) → bit_xor x y ≡ bit_xor y x
bit_xor_comm x y = xor_comm_below (x + y) x y (omega arith) (omega arith)

xor_twice_below : (n x y : ℕ) → x ≤ n → y ≤ n → bit_xor (bit_xor x y) y ≡ x
xor_twice_below zero x y p q =
    let x0 : x ≡ 0 = omega arith in
    let y0 : y ≡ 0 = omega arith in rw (x0, y0, zero-bit_xor 0, zero-bit_xor 0)
xor_twice_below (suc n) x y p q =
    let low = differ_digits (x % 2) (y % 2) (omega arith) (omega arith) in
    let digit : bit_xor x y % 2 ≡ differ (x % 2) (y % 2) = omega (arith, bit_xor_halves x y) in
    let upper : bit_xor x y / 2 ≡ bit_xor (x / 2) (y / 2) = omega (arith, bit_xor_halves x y) in
    let rest = xor_twice_below n (x / 2) (y / 2) (omega arith) (omega arith) in
    rw (bit_xor_halves (bit_xor x y) y, digit, upper, low.1, rest) (omega arith)

-- A mask applied twice.
pub bit_xor_twice : (x y : ℕ) → bit_xor (bit_xor x y) y ≡ x
bit_xor_twice x y = xor_twice_below (x + y) x y (omega arith) (omega arith)
