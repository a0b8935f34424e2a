-- ===== src/Ring/Available.antt =====
-- How the number of frames in the ring of src/audio_ring.rs changes, at every wrap of the counters.
use chromecast_sink.Base.{
  ℕ, ◌+◌, ◌-◌, ◌*◌, ◌/◌, ◌^◌, ◌<◌, ◌≡◌, min, u64, List, length, if◌then◌else◌, arith,
}
use chromecast_sink.Ring.{
  AudioRing, available_frames, accept, publish, write_s16le, read_frames, skip_frames, advance_read,
}
use chromecast_sink.Ring.Writes.{write_s16le-fixed}

-- The counters are machine words.
pub record IsCounted (r : AudioRing) : Type 0 where
  pub write_word : r.write < 2 ^ 64
  pub read_word : r.read < 2 ^ 64

-- A skip takes as many frames as asked for, or all there are: the reader does not overtake the
-- writer.
pub skip_frames-available :
    (r : AudioRing) (n : ℕ)
    → IsCounted r
    → available_frames (skip_frames r n) ≡ available_frames r - n
unfolding available_frames skip_frames advance_read
skip_frames-available r n h = omega (arith, h.write_word, h.read_word)

-- A read that succeeds takes the frames it was asked for, of those there are, and one that fails
-- takes none.
pub read_frames-available :
    (r : AudioRing) (out : List ℕ)
    → IsCounted r
    → let (r', taken, _) = read_frames r out in
      available_frames r'
      ≡ (if taken then available_frames r - length out / r.channels else available_frames r)
unfolding available_frames read_frames advance_read
read_frames-available r out h = ground (arith, h.write_word, h.read_word)

-- The frames of a write: those in the bytes, and the capacity at most.
abbrev pub frames_in : AudioRing → List ℕ → ℕ
frames_in r bytes = min r.capacity (length bytes / (r.channels * 2))

-- A write is never refused: it adds its frames to those there are, so that an overrun shows as more
-- frames than the capacity.
pub write_s16le-available :
    (r : AudioRing) (bytes : List ℕ)
    → IsCounted r
    → available_frames (write_s16le r bytes) ≡ u64 (available_frames r + frames_in r bytes)
unfolding available_frames write_s16le publish accept
write_s16le-available r bytes h =
    ground (arith, h.write_word, h.read_word, write_s16le-fixed r bytes)
