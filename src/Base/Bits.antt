-- ===== src/Base/Bits.antt =====
-- Laws of `&`, `|` and `^` at the masks that the program uses.
use Prim.Native.Nat.{ℕ, zero, suc, ◌+◌, ◌-◌, ◌*◌, ◌/◌, ◌%◌, ◌^◌, ◌≤◌, ◌<◌, min, max, digits}
use Prim.Native.Nat.{bit_and, bit_or, bit_xor, bitwise, differ}
use Prim.Native.Nat.{bit_and-bitwise, bit_or-bitwise, bit_xor-bitwise}
use mathlib.Core.Path.{◌≡◌, refl, ap}
use mathlib.Core.Bool.{Bool, true, ◌&&◌}
use native.Mathlib.Omega.{arith}
use native.Mathlib.Nat.{pow-suc, one-le-pow}
use kaf_go.Base.Tests.{◌==◌, ==_iff}

-- Checking every value of a byte by evaluation.
holds_below : ℕ → (ℕ → Bool) → Bool
holds_below zero p = true
holds_below (suc n) p = p n && holds_below n p

holds_below_at : (n : ℕ) (p : ℕ → Bool) (x : ℕ) → holds_below n p ≡ true → x < n → p x ≡ true
unfolding holds_below
holds_below_at zero p x h lt = absurd (omega arith)
holds_below_at (suc n) p x h lt = ground (arith, holds_below_at n p x)

low_seven_table : holds_below 256 (λ b. bit_and b 0x7f == b % 128) ≡ true
unfolding holds_below
low_seven_table = refl

top_bit_table : holds_below 256 (λ b. bit_or b 0x80 == b % 128 + 128) ≡ true
unfolding holds_below
top_bit_table = refl

pub low_seven : (b : ℕ) → b < 256 → bit_and b 0x7f ≡ b % 128
low_seven b h = (==_iff _ _).0 (holds_below_at 256 _ b low_seven_table h)

pub top_bit : (b : ℕ) → b < 256 → bit_or b 0x80 ≡ b % 128 + 128
top_bit b h = (==_iff _ _).0 (holds_below_at 256 _ b top_bit_table h)

-- One digit of any of the three operations: the digit count that `bitwise` carries is enough.
module _ (z : ℕ → ℕ) (f : ℕ → ℕ → ℕ) where
  enough_digits : (n m a b : ℕ) → a ≤ n → a ≤ m → digits z f n a b ≡ digits z f m a b
  enough_digits zero zero a b p q = refl
  enough_digits zero (suc m) zero b p q = refl
  enough_digits zero (suc m) (suc a) b p q = absurd (omega arith)
  enough_digits (suc n) zero zero b p q = refl
  enough_digits (suc n) zero (suc a) b p q = absurd (omega arith)
  enough_digits (suc n) (suc m) zero b p q = refl
  enough_digits (suc n) (suc m) (suc a) b p q =
      omega (arith, enough_digits n m (suc a / 2) (b / 2) (omega arith) (omega arith))

  lowest_digit :
      (a b : ℕ)
      → bitwise z f (suc a) b ≡ bitwise z f (suc a / 2) (b / 2) * 2 + f (suc a % 2) (b % 2)
  lowest_digit a b =
      omega (arith, enough_digits a (suc a / 2) (suc a / 2) (b / 2) (omega arith) (omega arith))

or_digit : (a b : ℕ) → bit_or a b ≡ bit_or (a / 2) (b / 2) * 2 + max (a % 2) (b % 2)
or_digit zero b = simp bit_or-bitwise (omega arith)
or_digit (suc a) b = simp bit_or-bitwise (lowest_digit (λ y. y) max a b)

and_digit : (a b : ℕ) → bit_and a b ≡ bit_and (a / 2) (b / 2) * 2 + min (a % 2) (b % 2)
and_digit zero b = simp bit_and-bitwise (omega arith)
and_digit (suc a) b = simp bit_and-bitwise (lowest_digit (λ y. 0) min a b)

differ-zero : (a : ℕ) → differ a 0 ≡ a
differ-zero zero = refl
differ-zero (suc a) = refl

differ-self_one : (b : ℕ) → b < 2 → differ b 1 ≡ 1 - b
differ-self_one zero h = refl
differ-self_one (suc zero) h = refl
differ-self_one (suc (suc b)) h = absurd (omega arith)

xor_digit : (a b : ℕ) → bit_xor a b ≡ bit_xor (a / 2) (b / 2) * 2 + differ (a % 2) (b % 2)
xor_digit zero b = simp bit_xor-bitwise (omega arith)
xor_digit (suc a) b = simp bit_xor-bitwise (lowest_digit (λ y. y) differ a b)

-- `a ^ 0` for a below `2 ^ k`.
xor_zero_below : (k a : ℕ) → a < 2 ^ k → bit_xor a 0 ≡ a
xor_zero_below zero a h = let e : a ≡ 0 = omega arith in rw e
xor_zero_below (suc k) a h = omega (
  arith,
  xor_digit a 0,
  differ-zero (a % 2),
  pow-suc 2 k,
  xor_zero_below k (a / 2) (omega (arith, pow-suc 2 k)),
)

-- `a ^ (2 ^ k - 1)` for a below `2 ^ k` turns every digit round.
xor_ones : (k a : ℕ) → a < 2 ^ k → bit_xor a (2 ^ k - 1) ≡ 2 ^ k - 1 - a
xor_ones zero a h = let e : a ≡ 0 = omega arith in rw e
xor_ones (suc k) a h = ground (
  arith,
  xor_digit a (2 ^ suc k - 1),
  pow-suc 2 k,
  one-le-pow k 2,
  differ-self_one (a % 2),
  xor_ones k (a / 2),
)

pub xor_zero : (a : ℕ) → a < 2 ^ 64 → bit_xor a 0 ≡ a
xor_zero a h = xor_zero_below 64 a h

pub xor_all : (a : ℕ) → a < 2 ^ 64 → bit_xor a (2 ^ 64 - 1) ≡ 2 ^ 64 - 1 - a
xor_all a h = xor_ones 64 a h

and_zero_below : (n a : ℕ) → a ≤ n → bit_and a 0 ≡ 0
and_zero_below n zero h = refl
and_zero_below zero (suc a) h = absurd (omega arith)
and_zero_below (suc n) (suc a) h =
    omega (arith, and_digit (suc a) 0, and_zero_below n (suc a / 2) (omega arith))

pub and_one : (a : ℕ) → bit_and a 1 ≡ a % 2
and_one a = omega (arith, and_digit a 1, and_zero_below (a / 2) (a / 2) (omega arith))

double_mul : (q k : ℕ) → q * 2 ^ suc k ≡ 2 * (q * 2 ^ k)
double_mul q k = omega (arith, ap (λ (t : ℕ). q * t) (pow-suc 2 k))

-- `low | high` is a sum when `low` lies below the lowest digit of `high`.
pub or_disjoint : (k low q : ℕ) → low < 2 ^ k → bit_or low (q * 2 ^ k) ≡ low + q * 2 ^ k
or_disjoint zero low q h =
    let e : low ≡ 0 = omega arith in rw e (omega (arith, bit_or-bitwise 0 (q * 1)))
or_disjoint (suc k) low q h =
    ground
      (arith, or_digit low (q * 2 ^ suc k), double_mul q k, pow-suc 2 k, or_disjoint k (low / 2) q)
