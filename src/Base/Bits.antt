-- ===== src/Base/Bits.antt =====
-- `&`, `|` and `^` of Rust as arithmetic: low masks, disjoint fields, and cancellation of `^`.
use Prim.Native.Nat.{
  ℕ, zero, suc, ◌+◌, ◌*◌, ◌/◌, ◌%◌, ◌^◌, ◌≤◌, ◌<◌, min, max, bit_and, bit_or, bit_xor, digits,
  bitwise, bit_and-bitwise, bit_or-bitwise, bit_xor-bitwise, differ,
}
use mathlib.Core.Path.{◌≡◌, refl, ap}
use native.Mathlib.Nat.{pow-suc, one-le-pow, le_refl}
use mathlib.Core.Bool.{Bool, true, ◌&&◌}
use native.Mathlib.Omega.{arith}
use chromecast_sink.Base.Tests.{◌==◌, ==→eq}

-- The recursion on binary digits does not depend on its fuel.
more_fuel :
    (z : ℕ → ℕ) (f : ℕ → ℕ → ℕ) (n m a b : ℕ) → a ≤ n → a ≤ m → digits z f n a b ≡ digits z f m a b
more_fuel z f zero zero a b p q = refl
more_fuel z f (suc n) zero zero b p q = refl
more_fuel z f (suc n) zero (suc a) b p q = absurd (omega arith)
more_fuel z f zero (suc m) zero b p q = refl
more_fuel z f zero (suc m) (suc a) b p q = absurd (omega arith)
more_fuel z f (suc n) (suc m) zero b p q = refl
more_fuel z f (suc n) (suc m) (suc a) b p q =
    ap (λ (t : ℕ). t * 2 + f (suc a % 2) (b % 2))
      (more_fuel z f n m (suc a / 2) (b / 2) (omega arith) (omega arith))

lowest_digit :
    (z : ℕ → ℕ) (f : ℕ → ℕ → ℕ) (a b : ℕ)
    → bitwise z f (suc a) b ≡ bitwise z f (suc a / 2) (b / 2) * 2 + f (suc a % 2) (b % 2)
lowest_digit z f a b =
    ap (λ (t : ℕ). t * 2 + f (suc a % 2) (b % 2))
      (more_fuel z f a (suc a / 2) (suc a / 2) (b / 2) (omega arith) (omega arith))

pub bit_and-digit : (a b : ℕ) → bit_and a b ≡ bit_and (a / 2) (b / 2) * 2 + min (a % 2) (b % 2)
bit_and-digit zero b = simp bit_and-bitwise (omega arith)
bit_and-digit (suc a) b = simp bit_and-bitwise (lowest_digit (λ y. 0) min a b)

pub bit_or-digit : (a b : ℕ) → bit_or a b ≡ bit_or (a / 2) (b / 2) * 2 + max (a % 2) (b % 2)
bit_or-digit zero b = simp bit_or-bitwise (omega arith)
bit_or-digit (suc a) b = simp bit_or-bitwise (lowest_digit (λ y. y) max a b)

differ_bits : (a b : ℕ) → a < 2 → b < 2 → differ a b ≡ (a + b) % 2
differ_bits zero zero p q = refl
differ_bits zero (suc zero) p q = refl
differ_bits (suc zero) zero p q = refl
differ_bits (suc zero) (suc zero) p q = refl
differ_bits zero (suc (suc b)) p q = absurd (omega arith)
differ_bits (suc zero) (suc (suc b)) p q = absurd (omega arith)
differ_bits (suc (suc a)) b p q = absurd (omega arith)

pub bit_xor-digit : (a b : ℕ) → bit_xor a b ≡ bit_xor (a / 2) (b / 2) * 2 + (a + b) % 2
bit_xor-digit zero b = simp bit_xor-bitwise (omega arith)
bit_xor-digit (suc a) b = simp bit_xor-bitwise (
    omega (
      arith,
      lowest_digit (λ y. y) differ a b,
      differ_bits (suc a % 2) (b % 2) (omega arith) (omega arith),
    ))

bit_and-nothing : (n a : ℕ) → a ≤ n → bit_and a 0 ≡ 0
bit_and-nothing n zero h = simp bit_and-bitwise
bit_and-nothing zero (suc a) h = absurd (omega arith)
bit_and-nothing (suc n) (suc a) h =
    omega (arith, bit_and-digit (suc a) 0, bit_and-nothing n (suc a / 2) (omega arith))

double : (q k : ℕ) → q * 2 ^ suc k ≡ 2 * (q * 2 ^ k)
double q k = omega (arith, ap (λ (t : ℕ). q * t) (pow-suc 2 k))

mask-fields : (k q r m : ℕ) → m + 1 ≡ 2 ^ k → r ≤ m → bit_and (q * 2 ^ k + r) m ≡ r
mask-fields zero q r m e h =
    let z : m ≡ 0 = omega arith in rw z (omega (arith, bit_and-nothing _ (q * 1 + r) (le_refl _)))
mask-fields (suc k) q r m e h = ground (
  arith,
  bit_and-digit (q * 2 ^ suc k + r) m,
  double q k,
  pow-suc 2 k,
  mask-fields k q (r / 2) (m / 2) (omega (arith, pow-suc 2 k)),
)

-- `x & (2^k - 1)` keeps the `k` low bits.
pub bit_and-mask : (k x m : ℕ) → m + 1 ≡ 2 ^ k → bit_and x m ≡ x % 2 ^ k
bit_and-mask k x m e = ground (arith, mask-fields k (x / 2 ^ k) (x % 2 ^ k) m, one-le-pow k 2)

-- `low | (q << k)` is a sum where `low` fits `k` bits.
pub bit_or-shifted : (k q r : ℕ) → r < 2 ^ k → bit_or r (q * 2 ^ k) ≡ r + q * 2 ^ k
bit_or-shifted zero q r h = let z : r ≡ 0 = omega arith in rw z (simp bit_or-bitwise (omega arith))
bit_or-shifted (suc k) q r h = ground (
  arith,
  bit_or-digit r (q * 2 ^ suc k),
  double q k,
  pow-suc 2 k,
  bit_or-shifted k q (r / 2) (omega (arith, pow-suc 2 k)),
)

xor-cancels : (n a b m : ℕ) → a ≤ n → b ≤ n → bit_xor a m ≡ bit_xor b m → a ≡ b
xor-cancels zero a b m p q e = omega arith
xor-cancels (suc n) a b m p q e = omega (
  arith,
  bit_xor-digit a m,
  bit_xor-digit b m,
  xor-cancels n (a / 2) (b / 2) (m / 2) (omega arith) (omega arith)
      (omega (arith, bit_xor-digit a m, bit_xor-digit b m)),
)

-- `^` by a fixed mask is one to one.
pub bit_xor-injective : (a b m : ℕ) → bit_xor a m ≡ bit_xor b m → a ≡ b
bit_xor-injective a b m e = xor-cancels (a + b) a b m (omega arith) (omega arith) e

-- A law over few values, checked at each.
holds_below : ℕ → (ℕ → Bool) → Bool
holds_below zero p = true
holds_below (suc n) p = p n && holds_below n p

holds_below→ : (n : ℕ) (p : ℕ → Bool) → holds_below n p ≡ true → (x : ℕ) → x < n → p x ≡ true
unfolding holds_below
holds_below→ zero p h x lt = absurd (omega arith)
holds_below→ (suc n) p h x lt = ground (arith, holds_below→ n p (ground arith) x)

-- The top bit of a byte.
pub bit_and-top : (b : ℕ) → b < 256 → bit_and b 0x80 ≡ b / 128 * 128
unfolding holds_below
bit_and-top b h = ==→eq _ _ (holds_below→ 256 (λ x. bit_and x 0x80 == x / 128 * 128) refl b h)

-- `|` stays within the width of its arguments.
pub bit_or-lt : (k a b : ℕ) → a < 2 ^ k → b < 2 ^ k → bit_or a b < 2 ^ k
bit_or-lt zero a b p q =
    let z : a ≡ 0 = omega arith in let o : b ≡ 0 = omega arith in rw (z, o) (omega arith)
bit_or-lt (suc k) a b p q = omega (
  arith,
  bit_or-digit a b,
  pow-suc 2 k,
  bit_or-lt k (a / 2) (b / 2) (omega (arith, pow-suc 2 k)) (omega (arith, pow-suc 2 k)),
)

or_comm_within : (n a b : ℕ) → a ≤ n → b ≤ n → bit_or a b ≡ bit_or b a
or_comm_within zero a b p q =
    let z : a ≡ 0 = omega arith in let o : b ≡ 0 = omega arith in rw (z, o)
or_comm_within (suc n) a b p q = omega (
  arith,
  bit_or-digit a b,
  bit_or-digit b a,
  or_comm_within n (a / 2) (b / 2) (omega arith) (omega arith),
)

pub bit_or_comm : (a b : ℕ) → bit_or a b ≡ bit_or b a
bit_or_comm a b = or_comm_within (a + b) a b (omega arith) (omega arith)

-- `^` stays within the width of its arguments.
pub bit_xor-lt : (k a b : ℕ) → a < 2 ^ k → b < 2 ^ k → bit_xor a b < 2 ^ k
bit_xor-lt zero a b p q =
    let z : a ≡ 0 = omega arith in let o : b ≡ 0 = omega arith in rw (z, o) (omega arith)
bit_xor-lt (suc k) a b p q = omega (
  arith,
  bit_xor-digit a b,
  pow-suc 2 k,
  bit_xor-lt k (a / 2) (b / 2) (omega (arith, pow-suc 2 k)) (omega (arith, pow-suc 2 k)),
)
