-- ===== src/Sink/Slice.antt =====
-- The bytes that `process` of src/virtual_sink.rs takes from a buffer.
use chromecast_sink.Base.{
  ℕ, ◌+◌, ◌-◌, ◌%◌, ◌^◌, ◌<◌, ◌≡◌, min, List, length, length-take, length-drop, take, drop, some,
  arith,
}
use chromecast_sink.Sink.{process_slice}

-- Whatever offset and size a chunk of a buffer claims, what is taken is not empty, begins at the
-- offset modulo the buffer's size, and ends with the chunk or with the buffer; sizes are below 2^63.
pub length-process_slice :
    (slice : List ℕ) (chunk_offset size : ℕ) (part : List ℕ)
    → length slice < 2 ^ 63
    → size < 2 ^ 63
    → process_slice slice chunk_offset size ≡ some part
    → (0 < length part)
      × (length part ≡ min size (length slice - chunk_offset % length slice))
      × (part ≡ take (length part) (drop (chunk_offset % length slice) slice))
unfolding process_slice
length-process_slice slice chunk_offset size part small h e = ground (
  arith,
  length-take
      (min (min (chunk_offset % length slice + size) (2 ^ 64 - 1)) (length slice)
        - chunk_offset % length slice)
      (drop (chunk_offset % length slice) slice),
  length-drop (chunk_offset % length slice) slice,
)
