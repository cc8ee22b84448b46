-- ===== src/Base/Bits.antt =====
-- `buffer[i] << 8 | buffer[i + 1]` as a sum: the code joins two bytes in no other way.
use Prim.Native.Nat.{
  ℕ, zero, suc, ◌+◌, ◌*◌, ◌/◌, ◌%◌, ◌≤◌, ◌<◌, max, bit_or, digits, bit_or-bitwise,
}
use mathlib.Core.Path.{◌≡◌, refl, ap}
use native.Mathlib.Omega.{arith}

abbrev or_digits : ℕ → ℕ → ℕ → ℕ
or_digits = digits (λ b. b) max

-- Any fuel from the first number on gives the same.
or_digits_enough : (f g a b : ℕ) → a ≤ f → a ≤ g → or_digits f a b ≡ or_digits g a b
or_digits_enough zero zero zero b p q = refl
or_digits_enough zero (suc g) zero b p q = refl
or_digits_enough (suc f) zero zero b p q = refl
or_digits_enough (suc f) (suc g) zero b p q = refl
or_digits_enough zero g (suc a) b p q = absurd (omega arith)
or_digits_enough (suc f) zero (suc a) b p q = absurd (omega arith)
or_digits_enough (suc f) (suc g) (suc a) b p q =
    ap (λ (t : ℕ). t * 2 + max (suc a % 2) (b % 2))
      (or_digits_enough f g (suc a / 2) (b / 2) (omega arith) (omega arith))

zero_or : (b : ℕ) → bit_or 0 b ≡ b
zero_or b = bit_or-bitwise 0 b

or_halves : (x y : ℕ) → bit_or x y ≡ bit_or (x / 2) (y / 2) * 2 + max (x % 2) (y % 2)
or_halves zero y = omega (arith, zero_or y, zero_or (y / 2))
or_halves (suc x) y = omega (
  arith,
  bit_or-bitwise (suc x) y,
  bit_or-bitwise (suc x / 2) (y / 2),
  or_digits_enough x (suc x / 2) (suc x / 2) (y / 2) (omega arith) (omega arith),
)

or_zero_fuel : (f a : ℕ) → a ≤ f → bit_or a 0 ≡ a
or_zero_fuel f zero h = refl
or_zero_fuel zero (suc a) h = absurd (omega arith)
or_zero_fuel (suc f) (suc a) h =
    omega (arith, or_halves (suc a) 0, or_zero_fuel f (suc a / 2) (omega arith))

-- `a << k`, and the numbers of `k` bits.
abbrev shifted : ℕ → ℕ → ℕ
shifted zero a = a
shifted (suc k) a = shifted k a * 2

abbrev limit : ℕ → ℕ
limit zero = 1
limit (suc k) = limit k * 2

-- One bit more of the low part at a time.
join_bits : (k a b : ℕ) → b < limit k → bit_or (shifted k a) b ≡ shifted k a + b
join_bits zero a b h =
    let none_set : b ≡ 0 = omega arith in rw none_set (omega (arith, or_zero_fuel a a))
join_bits (suc k) a b h =
    let half : shifted k a * 2 / 2 ≡ shifted k a = omega arith in
    omega (
      arith,
      or_halves (shifted k a * 2) b,
      ap (λ (t : ℕ). bit_or t (b / 2)) half,
      join_bits k a (b / 2) (omega arith),
    )

-- A byte beside another.
pub join_bytes : (a b : ℕ) → b < 256 → bit_or (a * 256) b ≡ a * 256 + b
join_bytes a b h = let high : a * 256 ≡ shifted 8 a = omega arith in rw high (join_bits 8 a b h)

-- Four bits beside others.
pub join_nibble : (a b : ℕ) → b < 16 → bit_or (a * 16) b ≡ a * 16 + b
join_nibble a b h = let high : a * 16 ≡ shifted 4 a = omega arith in rw high (join_bits 4 a b h)
