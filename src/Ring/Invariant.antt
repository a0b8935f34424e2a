-- ===== src/Ring/Invariant.antt =====
-- What holds between the two threads of src/audio_ring.rs at every access.
pub mod Produce
pub mod Consume
use chromecast_sink.Base.{
  ℕ, Bool, ◌+◌, ◌-◌, ◌*◌, ◌%◌, ◌^◌, ◌≤◌, ◌<◌, ◌≡◌, u64, List, [], ◌∷◌, length, get_or, drop, slice,
}
use chromecast_sink.Ring.{AudioRing}
use chromecast_sink.Ring.Steps.{
  Producer, outside, storing, Consumer, waiting, copying, System, first_sample,
}

-- `2 ^ k` samples in all.
pub record IsShaped (k : ℕ) (r : AudioRing) : Type 0 where
  pub small : k ≤ 64
  pub some_channels : 0 < r.channels
  pub size : r.capacity * r.channels ≡ 2 ^ k
  pub mask : r.sample_mask + 1 ≡ 2 ^ k
  pub sized : length r.buf ≡ 2 ^ k

-- The counters and the flag are no part of the shape.
pub counters-IsShaped :
    (k : ℕ) (r : AudioRing) (reserved write read : ℕ) (closed : Bool)
    → IsShaped k r
    → IsShaped k (record r { reserved = reserved; write = write; read = read; closed = closed })
counters-IsShaped k r reserved write read closed shaped = record {
  small = shaped.small;
  some_channels = shaped.some_channels;
  size = shaped.size;
  mask = shaped.mask;
  sized = shaped.sized;
}

-- How many samples of the log are stored.
abbrev pub stored : List ℕ → Producer → ℕ
stored log outside = length log
stored log (storing end base i rest) = length log - length rest

abbrev pub IsProducing : AudioRing → List ℕ → Producer → Type 0
IsProducing r log outside = r.write ≡ r.reserved
IsProducing r log (storing end base i rest) =
    (end ≡ r.reserved)
    × (base ≡ u64 (r.write * r.channels))
    × (r.write * r.channels + i + length rest ≡ length log)
    × (drop (r.write * r.channels + i) log ≡ rest)

-- Of the first `n` samples the last `2 ^ k` stand in their slots.
abbrev pub IsHeld : ℕ → AudioRing → List ℕ → ℕ → Type 0
IsHeld k r log n = (j : ℕ) → j < n → n ≤ j + 2 ^ k → get_or r.buf (j % 2 ^ k) 0 ≡ get_or log j 0

-- The copy is right unless the producer has lapped it.
abbrev pub IsConsuming : AudioRing → List ℕ → Consumer → Type 0
IsConsuming r log waiting = Unit
IsConsuming r log (copying want out) =
    (need : ℕ) × (want ≡ need * r.channels)
    × (r.read + need ≤ r.write)
    × (length out ≤ want)
    × (r.reserved ≤ r.read + r.capacity → out ≡ slice (first_sample r) (length out) log)

-- Every delivery is a slice of the log, and begins where the one before ended or later.
abbrev pub IsTold : List ℕ → ℕ → List (ℕ × List ℕ) → Type 0
IsTold log bound [] = Unit
IsTold log bound ((p, out) ∷ ds) =
    (p + length out ≤ bound) × (out ≡ slice p (length out) log) × IsTold log p ds

pub record Inv (k : ℕ) (s : System) : Type 0 where
  pub shaped : IsShaped k s.ring
  pub read_first : s.ring.read ≤ s.ring.write
  pub write_next : s.ring.write ≤ s.ring.reserved
  pub logged : length s.log ≡ s.ring.reserved * s.ring.channels
  pub producing : IsProducing s.ring s.log s.producer
  pub held : IsHeld k s.ring s.log (stored s.log s.producer)
  pub consuming : IsConsuming s.ring s.log s.consumer
  pub told : IsTold s.log (first_sample s.ring) s.delivered
