-- ===== src/Ring/Index.antt =====
-- Indices that wrap at 2^64 and are masked to a power of two: arithmetic modulo the ring's size.
use native.Mathlib.Nat.{mod-add-mod, mod-mod_of_dvd, pow-suc, mul-le-mul_right, div-add-mod'}
use native.Mathlib.Decide.{dec_le}
use chromecast_sink.Base.{
  ℕ, zero, suc, ◌+◌, ◌-◌, ◌*◌, ◌/◌, ◌%◌, ◌^◌, ◌≤◌, ◌<◌, ◌≡◌, ◌≢◌, ap, ◌∙◌, bit_and, u64, arith,
  true, ◌==◌, Bool-cases, inl, inr,
}
use chromecast_sink.Base.Bits.{bit_and-mask}
use chromecast_sink.Ring.{is_power_of_two, power_of_two_loop}

pub pow_add : (m n : ℕ) → 2 ^ (m + n) ≡ 2 ^ m * 2 ^ n
pow_add zero n = let e : 0 + n ≡ n = omega arith in rw e (omega arith)
pow_add (suc m) n =
    let e : suc m + n ≡ suc (m + n) = omega arith in
    rw e (
      omega (
        arith,
        pow-suc 2 (m + n),
        pow-suc 2 m,
        pow_add m n,
        ap (λ (t : ℕ). t * 2 ^ n) (pow-suc 2 m),
      ))

-- Reducing modulo 2^64 first does not change a lower power of two.
u64-mod : (k x : ℕ) → k ≤ 64 → u64 x % 2 ^ k ≡ x % 2 ^ k
u64-mod k x h =
    mod-mod_of_dvd (2 ^ k) {b = 2 ^ 64} x
      ∣ (2 ^ (64 - k), ap (λ (t : ℕ). 2 ^ t) whole ∙ pow_add k (64 - k)) ∣₁
  where
    whole : 64 ≡ k + (64 - k)
    whole = omega arith

-- The slot of a sample is its absolute index modulo the size, at whatever wrap of the counters.
pub slot-eq-mod :
    (k x i mask : ℕ) → k ≤ 64 → mask + 1 ≡ 2 ^ k → bit_and (u64 (u64 x + i)) mask ≡ (x + i) % 2 ^ k
slot-eq-mod k x i mask h m =
    bit_and-mask k (u64 (u64 x + i)) mask m
    ∙ ap (λ (t : ℕ). t % 2 ^ k) (mod-add-mod x (2 ^ 64) i)
    ∙ u64-mod k (x + i) h

between : (p q n d : ℕ) → p * n ≡ q * n + d → 0 < d → n ≤ d
between p q n d e h = elim (dec_le p q) [
  | yes below ↦ absurd (omega (arith, e, h, mul-le-mul_right n below))
  | no above ↦ omega (arith, e, mul-le-mul_right {m = suc q} {n = p} n (omega arith))
]

-- Fewer than `n` apart, two indices have different slots.
pub mod-ne : (n a b : ℕ) → a < b → b < a + n → a % n ≢ b % n
mod-ne n a b h k e =
    let apart =
      between (b / n) (a / n) n (b - a) (omega (arith, div-add-mod' a n, div-add-mod' b n))
        (omega arith) in
    omega arith

halving : (fuel n : ℕ) → power_of_two_loop fuel n ≡ true → (k : ℕ) × (n ≡ 2 ^ k)
unfolding power_of_two_loop
halving zero n h = cc
halving (suc fuel) n h = elim (Bool-cases (n == 1)) [
  | inl one ↦ (0, ground arith)
  | inr other ↦
      let (k, e) = halving fuel (n / 2) (ground arith) in (suc k, ground (arith, pow-suc 2 k))
]

pub is_power_of_two-pow : (n : ℕ) → is_power_of_two n ≡ true → (k : ℕ) × (n ≡ 2 ^ k)
unfolding is_power_of_two
is_power_of_two-pow n h = halving 64 n h
