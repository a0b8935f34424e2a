-- ===== src/Ring/Writes.antt =====
-- What writes and reads do to the counters and leave alone.
use mathlib.Core.List.{foldl}
use chromecast_sink.Base.{
  ℕ, zero, suc, ◌+◌, ◌*◌, ◌/◌, u64, length, if◌then◌else◌, ◌≡◌, refl, ap, ◌∙◌, List, [], ◌∷◌,
  Option-cases, inl, inr, arith,
}
use chromecast_sink.Ring.{
  AudioRing, accept, reserve, store_at, store_all, publish, write_s16le, load_all, read_frames,
  advance_read,
}

-- The parts of a ring that its consumer owns or that never change.
abbrev pub Fixed : Type 0
Fixed = ℕ × ℕ × ℕ × ℕ

abbrev pub fixed : AudioRing → Fixed
fixed r = (r.read, r.channels, r.capacity, r.sample_mask)

store_all-fixed :
    (r : AudioRing) (base i : ℕ) (xs : List ℕ) → fixed (store_all r base i xs) ≡ fixed r
unfolding store_all store_at
store_all-fixed r base i [] = refl
store_all-fixed r base i (x ∷ xs) = store_all-fixed (store_at r base i x) base (i + 1) xs

pub write_s16le-fixed : (r : AudioRing) (bytes : List ℕ) → fixed (write_s16le r bytes) ≡ fixed r
unfolding write_s16le publish reserve
write_s16le-fixed r bytes = elim (Option-cases (accept r bytes)) [
  | inl e ↦ rw (e, write_s16le)
  | inr ((frames, xs), e) ↦ rw (e, write_s16le) (store_all-fixed _ _ 0 xs)
]

pub writes-fixed :
    (r : AudioRing) (chunks : List (List ℕ)) → fixed (foldl write_s16le r chunks) ≡ fixed r
writes-fixed r [] = refl
writes-fixed r (c ∷ cs) = writes-fixed (write_s16le r c) cs ∙ write_s16le-fixed r c

pub length-load_all : (r : AudioRing) (base i n : ℕ) → length (load_all r base i n) ≡ n
unfolding load_all
length-load_all r base i zero = refl
length-load_all r base i (suc n) = ap suc (length-load_all r base (i + 1) n)

-- What a read does besides the samples.
pub read_frames_lem :
    (r : AudioRing) (out : List ℕ)
    → let (r', taken, out') = read_frames r out in
      (length out' ≡ length out)
      × (r'.channels ≡ r.channels)
      × (r'.read ≡ (if taken then u64 (r.read + length out / r.channels) else r.read))
unfolding read_frames advance_read
read_frames_lem r out = ground (arith, length-load_all r (u64 (r.read * r.channels)) 0 (length out))
