-- ===== src/Base/Bits.antt =====
-- Laws of `&` and `|` at variables, from the digit recursion that the native operations stand for.
use Prim.Native.Nat.{
  ℕ, zero, suc, ◌+◌, ◌*◌, ◌/◌, ◌%◌, ◌^◌, ◌≤◌, ◌<◌, min, max, bit_and, bit_or, digits,
  bit_and-bitwise, bit_or-bitwise,
}
use mathlib.Core.Path.{◌≡◌, refl, ap}
use native.Mathlib.Nat.{pow-suc, le_refl}
use native.Mathlib.Omega.{arith}

-- The recursion does not depend on its fuel.
module _ (z : ℕ → ℕ) (f : ℕ → ℕ → ℕ) where
  digits-fuel : (n m a b : ℕ) → a ≤ n → a ≤ m → digits z f n a b ≡ digits z f m a b
  digits-fuel zero zero a b p q = refl
  digits-fuel zero (suc m) zero b p q = refl
  digits-fuel zero (suc m) (suc a) b p q = absurd (omega arith)
  digits-fuel (suc n) zero zero b p q = refl
  digits-fuel (suc n) zero (suc a) b p q = absurd (omega arith)
  digits-fuel (suc n) (suc m) zero b p q = refl
  digits-fuel (suc n) (suc m) (suc a) b p q =
      rw (digits-fuel n m (suc a / 2) (b / 2) (omega arith) (omega arith))

  digits-suc :
      (a b : ℕ)
      → digits z f (suc a) (suc a) b
        ≡ digits z f (suc a / 2) (suc a / 2) (b / 2) * 2 + f (suc a % 2) (b % 2)
  digits-suc a b =
      omega (arith, digits-fuel a (suc a / 2) (suc a / 2) (b / 2) (omega arith) (le_refl _))

-- the lowest binary digit
or_digit : (a b : ℕ) → bit_or a b ≡ bit_or (a / 2) (b / 2) * 2 + max (a % 2) (b % 2)
or_digit zero b = simp bit_or-bitwise (omega arith)
or_digit (suc a) b = simp bit_or-bitwise (digits-suc (λ y. y) max a b)

and_digit : (a b : ℕ) → bit_and a b ≡ bit_and (a / 2) (b / 2) * 2 + min (a % 2) (b % 2)
and_digit zero b = simp bit_and-bitwise (omega arith)
and_digit (suc a) b = simp bit_and-bitwise (digits-suc (λ y. 0) min a b)

pub zero-bit_or : (b : ℕ) → bit_or 0 b ≡ b
zero-bit_or b = bit_or-bitwise 0 b

pub zero-bit_and : (b : ℕ) → bit_and 0 b ≡ 0
zero-bit_and b = bit_and-bitwise 0 b

mul-two-pow-suc : (b k : ℕ) → b * 2 ^ suc k ≡ 2 * (b * 2 ^ k)
mul-two-pow-suc b k = omega (arith, ap (λ (t : ℕ). b * t) (pow-suc 2 k))

-- A field of `k` bits below another is joined to it by a sum.
pub bit_or-shifted : (k a b : ℕ) → a < 2 ^ k → bit_or a (b * 2 ^ k) ≡ a + b * 2 ^ k
bit_or-shifted zero zero b h = rw zero-bit_or (omega arith)
bit_or-shifted zero (suc a) b h = absurd (omega arith)
bit_or-shifted (suc k) a b h = ground (
  arith,
  or_digit a (b * 2 ^ suc k),
  mul-two-pow-suc b k,
  bit_or-shifted k (a / 2) b (omega (arith, pow-suc 2 k)),
)

bit_and-zero : (n a : ℕ) → a ≤ n → bit_and a 0 ≡ 0
bit_and-zero n zero h = refl
bit_and-zero zero (suc a) h = absurd (omega arith)
bit_and-zero (suc n) (suc a) h =
    omega (arith, and_digit (suc a) 0, bit_and-zero n (suc a / 2) (omega arith))

-- A one in the mask keeps the digit.
bit_and-odd : (a k : ℕ) → bit_and a (2 * k + 1) ≡ bit_and (a / 2) k * 2 + a % 2
bit_and-odd a k =
    let half : (2 * k + 1) / 2 ≡ k = omega arith in rw (and_digit a (2 * k + 1), half) (omega arith)

-- A mask of eight ones is a remainder.
pub bit_and-low_byte : (a : ℕ) → bit_and a 255 ≡ a % 256
bit_and-low_byte a = omega (
  arith,
  bit_and-odd a 127,
  bit_and-odd (a / 2) 63,
  bit_and-odd (a / 2 / 2) 31,
  bit_and-odd (a / 2 / 2 / 2) 15,
  bit_and-odd (a / 2 / 2 / 2 / 2) 7,
  bit_and-odd (a / 2 / 2 / 2 / 2 / 2) 3,
  bit_and-odd (a / 2 / 2 / 2 / 2 / 2 / 2) 1,
  bit_and-odd (a / 2 / 2 / 2 / 2 / 2 / 2 / 2) 0,
  bit_and-zero a (a / 2 / 2 / 2 / 2 / 2 / 2 / 2 / 2) (omega arith),
)
