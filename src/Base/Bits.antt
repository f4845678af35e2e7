-- ===== src/Base/Bits.antt =====
-- Bit operations of the C++ code as arithmetic: `|` of fields that do not overlap is a sum, and
-- `^` on seven-bit values stays seven-bit and undoes itself.
use Prim.Native.Nat.{
  ℕ, zero, suc, ◌+◌, ◌*◌, ◌/◌, ◌%◌, ◌^◌, ◌≤◌, ◌<◌, max, bit_or, bit_xor, digits, bit_or-bitwise,
}
use mathlib.Core.Path.{◌≡◌, refl, ap}
use mathlib.Core.Bool.{Bool, true, ◌&&◌}
use native.Mathlib.Nat.{pow-suc}
use native.Mathlib.Omega.{arith}
use drum_firmware.Base.Tests.{◌==◌, ltb, ==→eq, ltb→lt}

-- Every value below a bound, by evaluation.
unfoldable pub all_below : ℕ → (ℕ → Bool) → Bool
all_below zero p = true
all_below (suc n) p = p n && all_below n p

pub all_below_at : (n : ℕ) (p : ℕ → Bool) (x : ℕ) → all_below n p ≡ true → x < n → p x ≡ true
unfolding all_below
all_below_at zero p x h lt = absurd (omega arith)
all_below_at (suc n) p x h lt = ground (arith, all_below_at n p x)

or_digits : ℕ → ℕ → ℕ → ℕ
or_digits n a b = digits (λ y. y) max n a b

or_digits_enough : (n m a b : ℕ) → a ≤ n → a ≤ m → or_digits n a b ≡ or_digits m a b
unfolding or_digits
or_digits_enough zero zero a b p q = refl
or_digits_enough zero (suc m) zero b p q = refl
or_digits_enough zero (suc m) (suc a) b p q = absurd (omega arith)
or_digits_enough (suc n) zero zero b p q = refl
or_digits_enough (suc n) zero (suc a) b p q = absurd (omega arith)
or_digits_enough (suc n) (suc m) zero b p q = refl
or_digits_enough (suc n) (suc m) (suc a) b p q =
    omega (arith, or_digits_enough n m (suc a / 2) (b / 2) (omega arith) (omega arith))

-- The lowest digit of `|`.
bit_or_low : (a b : ℕ) → bit_or a b ≡ bit_or (a / 2) (b / 2) * 2 + max (a % 2) (b % 2)
unfolding or_digits
bit_or_low zero b = omega (arith, bit_or-bitwise 0 b, bit_or-bitwise 0 (b / 2))
bit_or_low (suc a) b = omega (
  arith,
  bit_or-bitwise (suc a) b,
  bit_or-bitwise (suc a / 2) (b / 2),
  or_digits_enough a (suc a / 2) (suc a / 2) (b / 2) (omega arith) (omega arith),
)

bit_or-zero_below : (n a : ℕ) → a ≤ n → bit_or a 0 ≡ a
bit_or-zero_below n zero h = refl
bit_or-zero_below zero (suc a) h = absurd (omega arith)
bit_or-zero_below (suc n) (suc a) h =
    omega (arith, bit_or_low (suc a) 0, bit_or-zero_below n (suc a / 2) (omega arith))

pub bit_or-zero : (a : ℕ) → bit_or a 0 ≡ a
bit_or-zero a = bit_or-zero_below a a (omega arith)

-- `(q << k) | r` is a sum where `r` has at most `k` bits.
pub bit_or-shifted : (k q r : ℕ) → r < 2 ^ k → bit_or (q * 2 ^ k) r ≡ q * 2 ^ k + r
bit_or-shifted zero q r h = ground (arith, bit_or-zero q)
bit_or-shifted (suc k) q r h = ground (
  arith,
  bit_or_low (q * 2 ^ suc k) r,
  ap (λ (t : ℕ). q * t) (pow-suc 2 k),
  bit_or-shifted k q (r / 2),
)

or_high_bit_table : all_below 128 (λ x. bit_or x 128 == x + 128) ≡ true
unfolding all_below
or_high_bit_table = refl

-- Setting bit 7 of a seven-bit value.
pub bit_or_high_bit : (x : ℕ) → x < 128 → bit_or x 128 ≡ x + 128
bit_or_high_bit x h = ==→eq _ _ (all_below_at 128 _ x or_high_bit_table h)

xor_bound_table : all_below 128 (λ a. all_below 128 (λ b. ltb (bit_xor a b) 128)) ≡ true
unfolding all_below
xor_bound_table = refl

xor_undo_table : all_below 128 (λ a. all_below 128 (λ b. bit_xor (bit_xor a b) b == a)) ≡ true
unfolding all_below
xor_undo_table = refl

pub bit_xor-lt : (a b : ℕ) → a < 128 → b < 128 → bit_xor a b < 128
bit_xor-lt a b h k = ltb→lt _ _ (all_below_at 128 _ b (all_below_at 128 _ a xor_bound_table h) k)

pub bit_xor_undo : (a b : ℕ) → a < 128 → b < 128 → bit_xor (bit_xor a b) b ≡ a
bit_xor_undo a b h k = ==→eq _ _ (all_below_at 128 _ b (all_below_at 128 _ a xor_undo_table h) k)

xor_cancel_table : all_below 128 (λ a. all_below 128 (λ b. bit_xor a (bit_xor a b) == b)) ≡ true
unfolding all_below
xor_cancel_table = refl

pub bit_xor_cancel : (a b : ℕ) → a < 128 → b < 128 → bit_xor a (bit_xor a b) ≡ b
bit_xor_cancel a b h k =
    ==→eq _ _ (all_below_at 128 _ b (all_below_at 128 _ a xor_cancel_table h) k)
