-- ===== src/Rtp/Feedback/Bounds.antt =====
-- What an unauthenticated peer can make `parse_nacked_frames` return.
use chromecast_sink.Base.{
  ℕ, zero, suc, ◌+◌, ◌*◌, ◌^◌, ◌≤◌, ◌<◌, ◌≡◌, u32, sub32, IsByte, All, All-take, All-drop, none,
  some, List, [], ◌∷◌, length, length-take, get_or, take, drop, Option-cases, Bool-cases, inl, inr,
  bit_and, from_be16, ◌==◌, ◌||◌, arith,
}
use chromecast_sink.Rtp.Feedback.{
  expand_le, scan_round, all_packets_lost, Scan, nacks_of, take_feedback, scan_block, payload_len,
  parse_loop, parse_nacked_frames,
}
use chromecast_sink.Rtp.Feedback.Expand.{expand_le_within}

get_or-IsByte : (bytes : List ℕ) (i : ℕ) → All IsByte bytes → get_or bytes i 0 < 256
get_or-IsByte [] i h = omega arith
get_or-IsByte (b ∷ bs) zero h = h.0
get_or-IsByte (b ∷ bs) (suc i) h = get_or-IsByte bs i h.1

-- At most 254 before the newest frame and 256 past it, modulo 2^32.
abbrev pub IsNear : ℕ → ℕ → Type 0
IsNear last_sent id = sub32 (u32 (last_sent + 256)) id < 511

module _ (last_sent : ℕ) (small : last_sent < 2 ^ 32) where
  expanded-IsNear :
      (t f : ℕ)
      → t < 256
      → f < 256
      → IsNear last_sent (expand_le (u32 (expand_le last_sent t + 256)) f)
  expanded-IsNear t f ht hf = omega (
    arith,
    expand_le_within last_sent t small ht,
    expand_le_within (u32 (expand_le last_sent t + 256)) f (omega arith) hf,
  )

  nacks_of-IsNear :
      (t : ℕ) (fields : List ℕ)
      → t < 256
      → All IsByte fields
      → All (IsNear last_sent) (nacks_of (expand_le last_sent t) fields)
  unfolding nacks_of
  nacks_of-IsNear t (f ∷ p ∷ q ∷ x ∷ fields) ht h =
      elim (Bool-cases (from_be16 p q == 0 || from_be16 p q == all_packets_lost)) [
        | inl e ↦
            rw (e, nacks_of) (expanded-IsNear t f ht h.0, nacks_of-IsNear t fields ht h.1.1.1.1)
        | inr e ↦ rw (e, nacks_of) (nacks_of-IsNear t fields ht h.1.1.1.1)
      ]
  nacks_of-IsNear t [] ht h = tt
  nacks_of-IsNear t (f ∷ []) ht h = tt
  nacks_of-IsNear t (f ∷ p ∷ []) ht h = tt
  nacks_of-IsNear t (f ∷ p ∷ q ∷ []) ht h = tt

length-nacks_of : (ck : ℕ) (fields : List ℕ) → 4 * length (nacks_of ck fields) ≤ length fields
unfolding nacks_of
length-nacks_of ck (f ∷ p ∷ q ∷ x ∷ fields) = ground (arith, length-nacks_of ck fields)
length-nacks_of ck [] = omega arith
length-nacks_of ck (f ∷ []) = omega arith
length-nacks_of ck (f ∷ p ∷ []) = omega arith
length-nacks_of ck (f ∷ p ∷ q ∷ []) = omega arith

record IsTame (last_sent : ℕ) (ids : List ℕ) : Type 0 where
  near : All (IsNear last_sent) ids
  few : length ids ≤ 255

-- What a round leaves behind its block.
pub scan_round_left :
    (ssrc last_sent : ℕ) (buf : List ℕ) (s s' : Scan) (rest : List ℕ)
    → scan_round ssrc last_sent buf s ≡ some (s', rest)
    → (rest ≡ drop (4 + payload_len buf) buf) × (4 + payload_len buf ≤ length buf)
unfolding scan_round
scan_round_left ssrc last_sent buf s s' rest e = ground arith

nothing-IsTame : (last_sent : ℕ) → IsTame last_sent []
nothing-IsTame last_sent = record { near = tt; few = omega arith }

module _ (ssrc last_sent : ℕ) (small : last_sent < 2 ^ 32) where
  take_feedback-IsTame :
      (payload : List ℕ) (s s' : Scan)
      → All IsByte payload
      → IsTame last_sent s.nacked
      → take_feedback last_sent payload s ≡ some s'
      → IsTame last_sent s'.nacked
  unfolding take_feedback
  take_feedback-IsTame payload s s' h tame e =
      let fields : List ℕ = take (get_or payload 13 0 * 4) (drop 16 payload) in
      let t : ℕ = get_or payload 12 0 in
      let fresh : IsTame last_sent (nacks_of (expand_le last_sent t) fields) = record {
        near =
            nacks_of-IsNear last_sent small t fields (get_or-IsByte payload 12 h)
              (All-take IsByte _ (drop 16 payload) (All-drop IsByte 16 payload h));
        few = omega (
          arith,
          length-nacks_of (expand_le last_sent t) fields,
          length-take (get_or payload 13 0 * 4) (drop 16 payload),
          get_or-IsByte payload 13 h,
        );
      } in
      ground arith

  scan_block-IsTame :
      (fmt pt : ℕ) (payload : List ℕ) (s s' : Scan)
      → All IsByte payload
      → IsTame last_sent s.nacked
      → scan_block ssrc last_sent fmt pt payload s ≡ some s'
      → IsTame last_sent s'.nacked
  unfolding scan_block
  scan_block-IsTame fmt pt payload s s' h tame e =
      ground (arith, take_feedback-IsTame payload s s' h tame)

  scan_round-IsTame :
      (buf : List ℕ) (s s' : Scan) (rest : List ℕ)
      → All IsByte buf
      → IsTame last_sent s.nacked
      → scan_round ssrc last_sent buf s ≡ some (s', rest)
      → IsTame last_sent s'.nacked
  unfolding scan_round
  scan_round-IsTame buf s s' rest h tame e =
      let payload : List ℕ = take (payload_len buf) (drop 4 buf) in
      let fmt : ℕ = bit_and (get_or buf 0 0) 0x1f in
      let bytes = All-take IsByte (payload_len buf) (drop 4 buf) (All-drop IsByte 4 buf h) in
      ground (arith, scan_block-IsTame fmt (get_or buf 1 0) payload s s' bytes tame)

  scan_round_rest :
      (buf : List ℕ) (s s' : Scan) (rest : List ℕ)
      → All IsByte buf
      → scan_round ssrc last_sent buf s ≡ some (s', rest)
      → All IsByte rest
  unfolding scan_round
  scan_round_rest buf s s' rest h e =
      rw (scan_round_left ssrc last_sent buf s s' rest e).0
        (All-drop IsByte (4 + payload_len buf) buf h)

  parse_loop-IsTame :
      (fuel : ℕ) (buf : List ℕ) (s : Scan)
      → All IsByte buf
      → IsTame last_sent s.nacked
      → IsTame last_sent (parse_loop fuel ssrc last_sent buf s)
  unfolding parse_loop
  parse_loop-IsTame zero [] s h tame = tame
  parse_loop-IsTame zero (b ∷ bs) s h tame = nothing-IsTame last_sent
  parse_loop-IsTame (suc fuel) [] s h tame = tame
  parse_loop-IsTame (suc fuel) (b ∷ bs) s h tame =
      elim (Option-cases (scan_round ssrc last_sent (b ∷ bs) s)) [
        | inl e ↦ rw (e, parse_loop) (nothing-IsTame last_sent)
        | inr ((s', rest), e) ↦
            rw (e, parse_loop)
              (parse_loop-IsTame fuel rest s' (scan_round_rest (b ∷ bs) s s' rest h e)
                (scan_round-IsTame (b ∷ bs) s s' rest h tame e))
      ]

-- Whatever bytes arrive, at most 255 frames are named, each within 254 ids before the newest sent
-- frame and 256 ids past it.
pub parse_nacked_frames_bounded :
    (buf : List ℕ) (ssrc last_sent : ℕ)
    → All IsByte buf
    → last_sent < 2 ^ 32
    → All (IsNear last_sent) (parse_nacked_frames buf ssrc last_sent)
      × (length (parse_nacked_frames buf ssrc last_sent) ≤ 255)
unfolding parse_nacked_frames
parse_nacked_frames_bounded buf ssrc last_sent h small =
    let tame =
      parse_loop-IsTame ssrc last_sent small (length buf) buf
        (record { checkpoint = none; nacked = [] }) h (record { near = tt; few = omega arith }) in
    (tame.near, tame.few)
