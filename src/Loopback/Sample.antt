-- ===== src/Loopback/Sample.antt =====
-- The samples of src/virtual_sink_windows.rs: which 16-bit number a 32-bit float becomes.
use native.Mathlib.Nat.{pow-suc, one-le-pow, div-add-mod', mod-lt}
use mathlib.Core.Path.{ap₂}
use chromecast_sink.Base.{
  ℕ, Bool, true, false, if◌then◌else◌, leb, zero, suc, ◌+◌, ◌-◌, ◌*◌, ◌/◌, ◌%◌, ◌^◌, ◌≤◌, ◌<◌, ◌≡◌,
  ap, ◌∙◌, arith,
}
use chromecast_sink.Loopback.{round, sample, of_parts, saturate, magnitude}

halves : (shift : ℕ) → 0 < shift → 2 ^ shift ≡ 2 ^ (shift - 1) + 2 ^ (shift - 1)
halves zero h = absurd (omega arith)
halves (suc k) h = let e : suc k - 1 ≡ k = omega arith in rw e (omega (arith, pow-suc 2 k))

-- The integer is as near to `mantissa / 2 ^ shift` as any, and the greater of two that are as near.
abbrev pub IsNearest : ℕ → ℕ → ℕ → Type 0
IsNearest n mantissa shift =
    (2 * (n * 2 ^ shift) ≤ 2 * mantissa + 2 ^ shift)
    × (2 * mantissa < 2 * (n * 2 ^ shift) + 2 ^ shift)

round-IsNearest : (mantissa shift : ℕ) → 0 < shift → IsNearest (round mantissa shift) mantissa shift
unfolding round
round-IsNearest mantissa shift h =
    let whole = div-add-mod' (mantissa + 2 ^ (shift - 1)) (2 ^ shift) in
    let less =
      mod-lt (mantissa + 2 ^ (shift - 1)) {m = 2 ^ shift} (one-le-pow shift 2 (omega arith)) in
    (omega (arith, whole, halves shift h), omega (arith, whole, less, halves shift h))

-- The bits of a float, by its sign, exponent and fraction.
abbrev pub float_bits : Bool → ℕ → ℕ → ℕ
float_bits negative exponent fraction =
    (if negative then 2_147_483_648 else 0) + exponent * 8_388_608 + fraction

of_parts_eq :
    {negative : Bool} {exponent fraction : ℕ} (bits : ℕ)
    → leb 2_147_483_648 bits ≡ negative
    → bits / 8_388_608 % 256 ≡ exponent
    → bits % 8_388_608 ≡ fraction
    → sample bits ≡ of_parts negative exponent fraction
unfolding sample
of_parts_eq {exponent = exponent} {fraction = fraction} bits s e f =
    ap₂ (of_parts (leb 2_147_483_648 bits)) e f ∙ ap (λ (b : Bool). of_parts b exponent fraction) s

-- A sample of ordinary size is scaled by 2^15 and rounded to the nearest integer, a half away from
-- zero, and what is out of the range of 16 bits becomes the end of the range. The float is
-- normal, and less than 2^8 in magnitude.
pub sample-IsNearest :
    (negative : Bool) (exponent fraction : ℕ)
    → 0 < exponent
    → exponent < 135
    → fraction < 8_388_608
    → (n : ℕ) × (sample (float_bits negative exponent fraction) ≡ saturate negative n)
      × IsNearest n (8_388_608 + fraction) (135 - exponent)
unfolding of_parts magnitude
sample-IsNearest negative exponent fraction low high frac = (
  round (8_388_608 + fraction) (135 - exponent),
  by_sign negative,
  round-IsNearest (8_388_608 + fraction) (135 - exponent) (omega arith),
)
  where
    by_sign :
        (b : Bool)
        → sample (float_bits b exponent fraction)
          ≡ saturate b (round (8_388_608 + fraction) (135 - exponent))
    by_sign true =
        of_parts_eq {negative = true} {exponent = exponent} {fraction = fraction}
          (float_bits true exponent fraction) (ground arith) (omega arith) (omega arith)
        ∙ ground arith
    by_sign false =
        of_parts_eq {negative = false} {exponent = exponent} {fraction = fraction}
          (float_bits false exponent fraction) (ground arith) (omega arith) (omega arith)
        ∙ ground arith
