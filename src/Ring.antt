-- ===== src/Ring.antt =====
-- src/audio_ring.rs: the lock-free sample ring between the audio thread and the encoder.
-- A sample is its 16-bit pattern; a `usize` has 64 bits.
pub mod Index
pub mod Steps
pub mod Accepted
pub mod Invariant
pub mod Untorn
pub mod Calls
pub mod Sequence
pub mod Fifo
pub mod Writes
pub mod Available
mod Tests
use chromecast_sink.Base.{
  ℕ, zero, suc, ◌+◌, ◌-◌, ◌*◌, ◌/◌, ◌%◌, min, bit_and, u64, sub64, Bool, true, false, not, ◌&&◌,
  Option, none, some, List, [], ◌∷◌, length, get_or, set, take, drop, replicate, ltb, ◌==◌,
  if◌then◌else◌,
}

pub record AudioRing : Type 0 where
  pub buf : List ℕ
  pub capacity : ℕ
  pub channels : ℕ
  pub sample_mask : ℕ
  pub reserved : ℕ
  pub write : ℕ
  pub read : ℕ
  pub closed : Bool

-- `usize::is_power_of_two`, by halving.
unfoldable pub power_of_two_loop : ℕ → ℕ → Bool
power_of_two_loop zero n = false
power_of_two_loop (suc fuel) n =
    let rest = power_of_two_loop fuel (n / 2) in
    if n == 1 then true else if n % 2 == 0 && not (n == 0) then rest else false

-- A `usize` is halved 64 times at most.
unfoldable pub is_power_of_two : ℕ → Bool
is_power_of_two n = power_of_two_loop 64 n

-- `none` where an assertion fails.
unfoldable pub channel : ℕ → ℕ → Option AudioRing
channel capacity_frames channels =
    if not (is_power_of_two capacity_frames)
    then none
    else if not (is_power_of_two channels)
    then none
    else some (record {
      buf = replicate (capacity_frames * channels) 0;
      capacity = capacity_frames;
      channels = channels;
      sample_mask = capacity_frames * channels - 1;
      reserved = 0;
      write = 0;
      read = 0;
      closed = false;
    })

unfoldable pub close : AudioRing → AudioRing
close r = record r { closed = true }

unfoldable pub available_frames : AudioRing → ℕ
available_frames r = sub64 r.write r.read

-- `base.wrapping_add(i) & sample_mask`
abbrev pub slot : AudioRing → ℕ → ℕ → ℕ
slot r base i = bit_and (u64 (base + i)) r.sample_mask

-- `chunks_exact(2)`, each by `i16::from_le_bytes`.
pub samples_of : List ℕ → List ℕ
samples_of (a ∷ b ∷ bytes) = (a + b * 256) ∷ samples_of bytes
samples_of _ = []

-- The frames that a write takes and their samples: the newest, if there are more than fit. `none`
-- for fewer bytes than a frame.
pub accept : AudioRing → List ℕ → Option (ℕ × List ℕ)
accept r bytes =
    let frame_bytes = r.channels * 2 in
    let frames = length bytes / frame_bytes in
    if frames == 0
    then none
    else if ltb r.capacity frames
    then some (
      r.capacity,
      samples_of
          (take (r.capacity * frame_bytes) (drop ((frames - r.capacity) * frame_bytes) bytes)),
    )
    else some (frames, samples_of (take (frames * frame_bytes) bytes))

pub reserve : AudioRing → ℕ → AudioRing
reserve r frames = record r { reserved = u64 (r.write + frames) }

pub store_at : AudioRing → ℕ → ℕ → ℕ → AudioRing
store_at r base i x = record r { buf = set r.buf (slot r base i) x }

pub publish : AudioRing → ℕ → AudioRing
publish r end = record r { write = end }

pub store_all : AudioRing → ℕ → ℕ → List ℕ → AudioRing
store_all r base i [] = r
store_all r base i (x ∷ xs) = store_all (store_at r base i x) base (i + 1) xs

unfoldable pub write_s16le : AudioRing → List ℕ → AudioRing
write_s16le r bytes = elim (accept r bytes) [
  | none ↦ r
  | some (frames, xs) ↦
      publish (store_all (reserve r frames) (u64 (r.write * r.channels)) 0 xs)
        (u64 (r.write + frames))
]

pub load_at : AudioRing → ℕ → ℕ → ℕ
load_at r base i = get_or r.buf (slot r base i) 0

-- The samples copied from index `i` on, `n` of them.
pub load_all : AudioRing → ℕ → ℕ → ℕ → List ℕ
load_all r base i zero = []
load_all r base i (suc n) = load_at r base i ∷ load_all r base (i + 1) n

-- `self.read.store(r.wrapping_add(need))`
unfoldable pub advance_read : AudioRing → ℕ → ℕ → AudioRing
advance_read r at need = record r { read = u64 (at + need) }

-- The ring, the result, and what `out` holds afterwards.
unfoldable pub read_frames : AudioRing → List ℕ → AudioRing × Bool × List ℕ
read_frames r out =
    let need = length out / r.channels in
    let copied = load_all r (u64 (r.read * r.channels)) 0 (length out) in
    if need == 0
    then (r, false, out)
    else if ltb (sub64 r.write r.read) need
    then (r, false, out)
    else if ltb r.capacity (sub64 r.reserved r.read)
    then (r, false, copied)
    else (advance_read r r.read need, true, copied)

unfoldable pub skip_frames : AudioRing → ℕ → AudioRing
skip_frames r frames = advance_read r r.read (min frames (sub64 r.write r.read))
