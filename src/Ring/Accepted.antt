-- ===== src/Ring/Accepted.antt =====
-- How many samples `write_s16le` of src/audio_ring.rs accepts.
use native.Mathlib.Nat.{div-mul-le_self}
use chromecast_sink.Base.{
  ℕ, ◌+◌, ◌-◌, ◌*◌, ◌/◌, ◌≤◌, ◌≡◌, ap, ◌∙◌, some, List, [], ◌∷◌, length, take, drop, length-take,
  length-drop, ltb, arith, Bool-cases, inl, inr, ltb→lt,
}
use chromecast_sink.Ring.{AudioRing, accept, samples_of}

length-samples_of : (bytes : List ℕ) → length (samples_of bytes) ≡ length bytes / 2
unfolding samples_of
length-samples_of [] = omega arith
length-samples_of (a ∷ []) = omega arith
length-samples_of (a ∷ b ∷ bytes) = omega (arith, length-samples_of bytes)

whole_frames :
    (frames channels : ℕ) (bytes : List ℕ)
    → length bytes ≡ frames * (channels * 2)
    → length (samples_of bytes) ≡ frames * channels
whole_frames frames channels bytes e = omega (arith, length-samples_of bytes, e)

split_product : (a b f : ℕ) → b ≤ a → (a - b) * f + b * f ≡ a * f
split_product a b f h =
    let parts : a ≡ a - b + b = omega arith in omega (arith, ap (λ (t : ℕ). t * f) parts)

-- The samples of whole frames.
pub accept_lem :
    (r : AudioRing) (bytes : List ℕ) (frames : ℕ) (xs : List ℕ)
    → accept r bytes ≡ some (frames, xs)
    → length xs ≡ frames * r.channels
unfolding accept
accept_lem r bytes frames xs e =
    let whole : ℕ = length bytes / (r.channels * 2) in
    let within : whole * (r.channels * 2) ≤ length bytes =
      div-mul-le_self (length bytes) (r.channels * 2) in
    elim (Bool-cases (ltb r.capacity whole)) [
      | inl many ↦
          let newest = drop ((whole - r.capacity) * (r.channels * 2)) bytes in
          ground (
            arith,
            whole_frames r.capacity r.channels (take (r.capacity * (r.channels * 2)) newest) (
                length-take (r.capacity * (r.channels * 2)) newest
                ∙ omega (
                  arith,
                  within,
                  length-drop ((whole - r.capacity) * (r.channels * 2)) bytes,
                  split_product whole r.capacity (r.channels * 2)
                      (omega (arith, ltb→lt r.capacity whole many)),
                )),
          )
      | inr few ↦ ground (
        arith,
        whole_frames whole r.channels (take (whole * (r.channels * 2)) bytes)
            (length-take (whole * (r.channels * 2)) bytes ∙ omega (arith, within)),
      )
    ]
