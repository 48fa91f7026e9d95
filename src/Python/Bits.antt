-- ===== src/Python/Bits.antt =====
-- The source's bit operation with a fixed mask: `x | 1` sets the lowest bit.
use Prim.Native.Nat.{bit_or, max, digits, bit_or-bitwise}
use pyads_agile.Prelude.{ℕ, zero, suc, ◌+◌, ◌*◌, ◌/◌, ◌≤◌, ◌≡◌, refl, arith}

abbrev or_digits : ℕ → ℕ → ℕ → ℕ
or_digits n a b = digits (λ b. b) max n a b

-- or with no bits, digit by digit
or_digits-zero : (n a : ℕ) → a ≤ n → or_digits n a 0 ≡ a
or_digits-zero zero zero h = refl
or_digits-zero zero (suc a) h = absurd (omega arith)
or_digits-zero (suc n) zero h = refl
or_digits-zero (suc n) (suc a) h = omega (arith, or_digits-zero n (suc a / 2) (omega arith))

pub bit_or-one : (a : ℕ) → bit_or a 1 ≡ a / 2 * 2 + 1
bit_or-one zero = refl
bit_or-one (suc a) =
    omega (arith, bit_or-bitwise (suc a) 1, or_digits-zero a (suc a / 2) (omega arith))
