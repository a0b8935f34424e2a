-- ===== src/Rtp/Packet/Nonce.antt =====
-- The AES-CTR nonces of src/cast_rtp.rs: no block of key stream serves two frames.
use native.Mathlib.Nat.{pow-suc, mul-add-div_right, div-eq_of_lt}
use chromecast_sink.Base.{
  ℕ, zero, suc, ◌+◌, ◌*◌, ◌/◌, ◌%◌, ◌^◌, ◌≤◌, ◌<◌, ◌≡◌, ◌≢◌, ◌⊎◌, inl, inr, refl, ap, ◌∙◌, sym,
  bit_xor, be32, be32-IsByte, from_be32-be32, IsByte, All, All-take, All-drop, List, [], ◌∷◌, ◌++◌,
  length, length-append, length-drop, take, drop, replicate, arith,
}
use chromecast_sink.Base.Bits.{bit_xor-injective, bit_xor-lt}
use chromecast_sink.Rtp.Packet.{Config, xor_zip, nonce}

-- The number that bytes stand for, the first byte highest.
abbrev pub be_value : List ℕ → ℕ
be_value [] = 0
be_value (b ∷ bs) = b * 256 ^ length bs + be_value bs

pow_add : (m n : ℕ) → 256 ^ (m + n) ≡ 256 ^ m * 256 ^ n
pow_add zero n = let e : 0 + n ≡ n = omega arith in rw e (omega arith)
pow_add (suc m) n =
    let e : suc m + n ≡ suc (m + n) = omega arith in
    rw e (
      omega (
        arith,
        pow-suc 256 (m + n),
        pow-suc 256 m,
        pow_add m n,
        ap (λ (t : ℕ). t * 256 ^ n) (pow-suc 256 m),
      ))

same_quotient : (x y p a b : ℕ) → a < p → b < p → x * p + a ≡ y * p + b → x ≡ y
same_quotient x y p a b ha hb e = omega (
  arith,
  ap (λ (t : ℕ). t / p) e,
  mul-add-div_right {m = p} (omega arith) x a,
  mul-add-div_right {m = p} (omega arith) y b,
  div-eq_of_lt ha,
  div-eq_of_lt hb,
)

be_value-append : (a b : List ℕ) → be_value (a ++ b) ≡ be_value a * 256 ^ length b + be_value b
be_value-append [] b = omega arith
be_value-append (x ∷ a) b = omega (
  arith,
  be_value-append a b,
  ap (λ (t : ℕ). x * 256 ^ t) (length-append a b),
  ap (λ (t : ℕ). x * t) (pow_add (length a) (length b)),
)

be_value-lt : (a : List ℕ) → All IsByte a → be_value a < 256 ^ length a
be_value-lt [] h = omega arith
be_value-lt (x ∷ a) (hx, ha) = grind (arith, be_value-lt a ha, pow-suc 256 (length a))

be_value-injective :
    (a b : List ℕ)
    → All IsByte a
    → All IsByte b
    → length a ≡ length b
    → be_value a ≡ be_value b
    → a ≡ b
be_value-injective [] [] ha hb l e = refl
be_value-injective [] (y ∷ b) ha hb l e = absurd (omega arith)
be_value-injective (x ∷ a) [] ha hb l e = absurd (omega arith)
be_value-injective (x ∷ a) (y ∷ b) (hx, ha) (hy, hb) l e = ground (
  arith,
  same_width,
  be_value-lt a ha,
  be_value-lt b hb,
  same_quotient x y (256 ^ length a) (be_value a) (be_value b),
  be_value-injective a b ha hb,
)
  where
    same_width : 256 ^ length a ≡ 256 ^ length b
    same_width = ap (λ (t : ℕ). 256 ^ t) (omega arith)

length-xor_zip : (n m : List ℕ) → length (xor_zip n m) ≡ length n
unfolding xor_zip
length-xor_zip [] m = refl
length-xor_zip (x ∷ n) [] = refl
length-xor_zip (x ∷ n) (y ∷ m) = ap suc (length-xor_zip n m)

xor_zip-IsByte : (n m : List ℕ) → All IsByte n → All IsByte m → All IsByte (xor_zip n m)
unfolding xor_zip
xor_zip-IsByte [] m hn hm = tt
xor_zip-IsByte (x ∷ n) [] hn hm = hn
xor_zip-IsByte (x ∷ n) (y ∷ m) (hx, hn) (hy, hm) =
    (bit_xor-lt 8 x y hx hy, xor_zip-IsByte n m hn hm)

xor_zip-injective : (a b m : List ℕ) → length a ≡ length b → xor_zip a m ≡ xor_zip b m → a ≡ b
unfolding xor_zip
xor_zip-injective [] [] m l e = refl
xor_zip-injective [] (y ∷ b) m l e = absurd (omega arith)
xor_zip-injective (x ∷ a) [] m l e = absurd (omega arith)
xor_zip-injective (x ∷ a) (y ∷ b) [] l e = e
xor_zip-injective (x ∷ a) (y ∷ b) (m ∷ ms) l e =
    ground (arith, bit_xor-injective x y m, xor_zip-injective a b ms)

xor_zip-append :
    (a b m : List ℕ)
    → length a ≤ length m
    → xor_zip (a ++ b) m ≡ xor_zip a (take (length a) m) ++ xor_zip b (drop (length a) m)
unfolding xor_zip
xor_zip-append [] b m h = refl
xor_zip-append (x ∷ a) b [] h = absurd (omega arith)
xor_zip-append (x ∷ a) b (y ∷ m) h = ap (λ t. bit_xor x y ∷ t) (xor_zip-append a b m (omega arith))

-- The counter block of AES-128-CTR (`Ctr128BE`): the nonce plus the block's index, modulo 2^128.
abbrev pub counter_block : Config → ℕ → ℕ → ℕ
counter_block cfg frame_id i = (be_value (nonce cfg frame_id) + i) % 2 ^ 128

-- The nonce falls into 8 bytes, the frame id and 4 bytes, each under its part of the mask.
module _ (mask : List ℕ) where
  high_part : ℕ
  high_part = be_value (xor_zip (replicate 8 0) (take 8 mask))

  frame_part : ℕ → ℕ
  frame_part f = be_value (xor_zip (be32 f) (take 4 (drop 8 mask)))

  low_part : ℕ
  low_part = be_value (xor_zip (replicate 4 0) (drop 4 (drop 8 mask)))

  xored-lt : (n m : List ℕ) → All IsByte n → All IsByte m → be_value (xor_zip n m) < 256 ^ length n
  xored-lt n m hn hm =
      rw (ap (λ (t : ℕ). 256 ^ t) (sym (length-xor_zip n m)))
        (be_value-lt (xor_zip n m) (xor_zip-IsByte n m hn hm))

  parts-lt :
      (f : ℕ)
      → All IsByte mask
      → (high_part < 2 ^ 64) × (frame_part f < 2 ^ 32) × (low_part < 2 ^ 32)
  unfolding high_part frame_part low_part
  parts-lt f h = (
    xored-lt (replicate 8 0) (take 8 mask) (omega arith) (All-take IsByte 8 mask h),
    xored-lt (be32 f) (take 4 (drop 8 mask)) (be32-IsByte f)
        (All-take IsByte 4 (drop 8 mask) (All-drop IsByte 8 mask h)),
    xored-lt (replicate 4 0) (drop 4 (drop 8 mask)) (omega arith)
        (All-drop IsByte 4 (drop 8 mask) (All-drop IsByte 8 mask h)),
  )

  parts-eq :
      (f : ℕ)
      → length mask ≡ 16
      → be_value (xor_zip (replicate 8 0 ++ (be32 f ++ replicate 4 0)) mask)
        ≡ high_part * 2 ^ 64 + frame_part f * 2 ^ 32 + low_part
  unfolding high_part frame_part low_part
  parts-eq f l =
      rw
        (
          xor_zip-append (replicate 8 0) (be32 f ++ replicate 4 0) mask (omega arith),
          be_value-append (xor_zip (replicate 8 0) (take 8 mask))
              (xor_zip (be32 f ++ replicate 4 0) (drop 8 mask)),
          length-xor_zip (be32 f ++ replicate 4 0) (drop 8 mask),
        )
        (omega (
          arith,
          ap be_value (
              xor_zip-append (be32 f) (replicate 4 0) (drop 8 mask)
                (omega (arith, length-drop 8 mask))),
          be_value-append (xor_zip (be32 f) (take 4 (drop 8 mask)))
              (xor_zip (replicate 4 0) (drop 4 (drop 8 mask))),
          ap (λ (t : ℕ). be_value (xor_zip (be32 f) (take 4 (drop 8 mask))) * 256 ^ t)
              (length-xor_zip (replicate 4 0) (drop 4 (drop 8 mask))),
        ))

  frame_part-injective :
      (f g : ℕ) → f < 2 ^ 32 → g < 2 ^ 32 → All IsByte mask → frame_part f ≡ frame_part g → f ≡ g
  unfolding frame_part
  frame_part-injective f g hf hg h e =
      let m : List ℕ = take 4 (drop 8 mask) in
      let hm = All-take IsByte 4 (drop 8 mask) (All-drop IsByte 8 mask h) in
      let same =
        be_value-injective (xor_zip (be32 f) m) (xor_zip (be32 g) m)
          (xor_zip-IsByte (be32 f) m (be32-IsByte f) hm)
          (xor_zip-IsByte (be32 g) m (be32-IsByte g) hm)
          (length-xor_zip (be32 f) m ∙ sym (length-xor_zip (be32 g) m)) e in
      ground (
        arith,
        from_be32-be32 f hf,
        from_be32-be32 g hg,
        xor_zip-injective (be32 f) (be32 g) m refl same,
      )

counter_block-injective :
    (cfg : Config) (f g i j : ℕ)
    → length cfg.aes_iv_mask ≡ 16
    → All IsByte cfg.aes_iv_mask
    → f < 2 ^ 32
    → g < 2 ^ 32
    → i < 2 ^ 32
    → j < 2 ^ 32
    → counter_block cfg f i ≡ counter_block cfg g j
    → (f ≡ g) × (i ≡ j)
unfolding nonce
counter_block-injective cfg f g i j l h hf hg hi hj e =
    (frame_part-injective mask f g hf hg h same.0, same.1)
  where
    open cfg use {aes_iv_mask as mask}

    same : (frame_part mask f ≡ frame_part mask g) × (i ≡ j)
    same = omega (arith, parts-lt mask f h, parts-lt mask g h, parts-eq mask f l, parts-eq mask g l)

-- No block of the key stream serves two frames, nor one frame twice, within 2^32 blocks (64 GiB) of a
-- frame: the counter blocks of another frame or another index differ. This holds although the counter
-- may carry into the bytes of the frame id.
pub counter_block-ne :
    (cfg : Config) (f g i j : ℕ)
    → length cfg.aes_iv_mask ≡ 16
    → All IsByte cfg.aes_iv_mask
    → f < 2 ^ 32
    → g < 2 ^ 32
    → i < 2 ^ 32
    → j < 2 ^ 32
    → (f ≢ g) ⊎ (i ≢ j)
    → counter_block cfg f i ≢ counter_block cfg g j
counter_block-ne cfg f g i j l h hf hg hi hj other e =
    let (same_frame, same_index) = counter_block-injective cfg f g i j l h hf hg hi hj e in
    elim other [ inl ne ↦ ne same_frame | inr ne ↦ ne same_index ]
