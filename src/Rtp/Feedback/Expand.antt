-- ===== src/Rtp/Feedback/Expand.antt =====
-- `expand_le`: the frame id that stands behind its low eight bits.
use chromecast_sink.Base.{ℕ, ◌%◌, ◌^◌, ◌≤◌, ◌<◌, ◌≡◌, sub32, arith}
use chromecast_sink.Rtp.Feedback.{expand_le}

-- For a byte at most `max` the result is at most `max`, ends in that byte, and no other such id is
-- greater.
pub expand_le_greatest :
    (max t id : ℕ)
    → max < 2 ^ 32
    → t ≤ max
    → t < 256
    → id ≤ max
    → id % 256 ≡ t
    → (expand_le max t ≤ max) × (expand_le max t % 256 ≡ t) × (id ≤ expand_le max t)
unfolding expand_le
expand_le_greatest max t id hm ht h hid e = omega arith

-- An id among the 256 up to `max`, around the wrap too, is recovered from its low eight bits.
pub expand_le-low :
    (max back : ℕ)
    → max < 2 ^ 32
    → back < 256
    → expand_le max (sub32 max back % 256) ≡ sub32 max back
unfolding expand_le
expand_le-low max back hm hb = omega arith

-- Whatever the byte, the result is one of the 256 ids up to `max`, modulo 2^32.
pub expand_le_within :
    (max t : ℕ)
    → max < 2 ^ 32
    → t < 256
    → (expand_le max t < 2 ^ 32) × (sub32 max (expand_le max t) < 256)
unfolding expand_le
expand_le_within max t hm ht = omega arith

pub expand_le_self : (id : ℕ) → id < 2 ^ 32 → expand_le id (id % 256) ≡ id
unfolding expand_le
expand_le_self id h = omega arith
