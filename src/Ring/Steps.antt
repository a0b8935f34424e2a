-- ===== src/Ring/Steps.antt =====
-- The two threads over the ring of src/audio_ring.rs, interleaved at every shared access. The
-- accesses take effect in one order: the fences of the source are there so that the checks of
-- `reserved` and `write` may be read this way.
use chromecast_sink.Base.{
  ℕ, ◌+◌, ◌*◌, ◌/◌, ◌≤◌, ◌<◌, ◌≡◌, u64, sub64, some, List, [], ◌∷◌, ◌++◌, length,
}
use chromecast_sink.Ring.{
  AudioRing, accept, reserve, store_at, publish, load_at, advance_read, skip_frames, close,
}

-- Where the producer stands in `write_s16le`: before the store of `rest`, the first of which goes to
-- `base + i`.
pub data Producer : Type 0 where
  outside : Producer
  storing : (end base i : ℕ) (rest : List ℕ) → Producer

-- Where the consumer stands in `read_frames`: `out` is what it has copied of `want` samples.
pub data Consumer : Type 0 where
  waiting : Consumer
  copying : (want : ℕ) (out : List ℕ) → Consumer

-- With the history: `log` holds every sample accepted so far, in order, `delivered` the reads that
-- succeeded, the last one first, each with the index of its first sample.
pub record System : Type 0 where
  pub ring : AudioRing
  pub producer : Producer
  pub consumer : Consumer
  pub log : List ℕ
  pub delivered : List (ℕ × List ℕ)

abbrev pub first_sample : AudioRing → ℕ
first_sample r = r.read * r.channels

pub data Step (s : System) : System → Type 0 where
  -- The store to `reserved`, with the batch that `write_s16le` accepts.
  begin_write :
      (bytes : List ℕ) (frames : ℕ) (xs : List ℕ)
      → s.producer ≡ outside
      → accept s.ring bytes ≡ some (frames, xs)
      → Step s (record s {
        ring = reserve s.ring frames;
        producer =
            storing (u64 (s.ring.write + frames)) (u64 (s.ring.write * s.ring.channels)) 0 xs;
        log = s.log ++ xs;
      })
  store_one :
      (end base i x : ℕ) (rest : List ℕ)
      → s.producer ≡ storing end base i (x ∷ rest)
      → Step s
          (record s { ring = store_at s.ring base i x; producer = storing end base (i + 1) rest })
  end_write :
      (end base i : ℕ)
      → s.producer ≡ storing end base i []
      → Step s (record s { ring = publish s.ring end; producer = outside })
  shut : Step s (record s { ring = close s.ring })
  -- The load of `write`, where enough is there.
  begin_read :
      (need : ℕ)
      → s.consumer ≡ waiting
      → 0 < need
      → need ≤ sub64 s.ring.write s.ring.read
      → Step s (record s { consumer = copying (need * s.ring.channels) [] })
  load_one :
      (want : ℕ) (out : List ℕ)
      → s.consumer ≡ copying want out
      → length out < want
      → Step s (record s {
        consumer =
            copying want (out ++ (load_at s.ring (u64 (first_sample s.ring)) (length out) ∷ []));
      })
  -- The load of `reserved`: the producer has lapped the copy.
  reject :
      (out : List ℕ)
      → s.consumer ≡ copying (length out) out
      → s.ring.capacity < sub64 s.ring.reserved s.ring.read
      → Step s (record s { consumer = waiting })
  -- The load of `reserved` that passes, and the store to `read`.
  end_read :
      (out : List ℕ)
      → s.consumer ≡ copying (length out) out
      → sub64 s.ring.reserved s.ring.read ≤ s.ring.capacity
      → Step s (record s {
        ring = advance_read s.ring s.ring.read (length out / s.ring.channels);
        consumer = waiting;
        delivered = (first_sample s.ring, out) ∷ s.delivered;
      })
  skip :
      (frames : ℕ) → s.consumer ≡ waiting → Step s (record s { ring = skip_frames s.ring frames })

pub data Run (s : System) : System → Type 0 where
  done : Run s s
  then_step : {t u : System} → Run s t → Step t u → Run s u

-- Both endpoints at rest on a ring, nothing written yet.
abbrev pub at_rest : AudioRing → System
at_rest r = record { ring = r; producer = outside; consumer = waiting; log = []; delivered = [] }
