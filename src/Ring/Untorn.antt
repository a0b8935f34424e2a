-- ===== src/Ring/Untorn.antt =====
-- Every run of the two threads of src/audio_ring.rs keeps the invariant, from the ring that `channel`
-- returns.
use native.Mathlib.Nat.{pow-le-pow_right, one-le-pow}
use native.Mathlib.Decide.{dec_le}
use mathlib.Core.Path.{ap₂, subst}
use chromecast_sink.Base.{
  ℕ, ◌+◌, ◌-◌, ◌*◌, ◌^◌, ◌≤◌, ◌<◌, ◌≡◌, refl, ◌∙◌, sym, some, false, length, length-append,
  length-replicate, replicate, Bool-cases, inl, inr, arith,
}
use chromecast_sink.Ring.{AudioRing, channel, is_power_of_two}
use chromecast_sink.Ring.Index.{is_power_of_two-pow, pow_add}
use chromecast_sink.Ring.Steps.{
  System, first_sample, Step, begin_write, store_one, end_write, shut, begin_read, load_one, reject,
  end_read, skip, Run, done, then_step, at_rest,
}
use chromecast_sink.Ring.Invariant.{IsTold, Inv}
use chromecast_sink.Ring.Invariant.Produce.{
  begin_write-Inv, store_one-Inv, end_write-Inv, factor-le,
}
use chromecast_sink.Ring.Invariant.Consume.{
  load_one-Inv, begin_read-Inv, wait-Inv, end_read-Inv, skip-Inv, shut-Inv,
}

log_grows : (s t : System) → Step s t → length s.log ≤ length t.log
log_grows s t (begin_write bytes frames xs e a) = omega (arith, length-append s.log xs)
log_grows s t (store_one end base i x rest e) = omega arith
log_grows s t (end_write end base i e) = omega arith
log_grows s t shut = omega arith
log_grows s t (begin_read need e h enough) = omega arith
log_grows s t (load_one want out e more) = omega arith
log_grows s t (reject out e late) = omega arith
log_grows s t (end_read out e in_time) = omega arith
log_grows s t (skip frames e) = omega arith

-- Fewer than 2^64 samples are fewer than 2^64 frames.
word_frames : (k : ℕ) (s : System) → Inv k s → length s.log < 2 ^ 64 → s.ring.reserved < 2 ^ 64
word_frames k s inv few = omega (
  arith,
  factor-le s.ring.reserved s.ring.channels (length s.log) inv.shaped.some_channels
      (omega (arith, inv.logged)),
)

Step-Inv : (k : ℕ) (s t : System) → Inv k s → Step s t → length t.log < 2 ^ 64 → Inv k t
Step-Inv k s t inv (begin_write bytes frames xs e a) few =
    begin_write-Inv k s inv bytes frames xs e a few
Step-Inv k s t inv (store_one end base i x rest e) few = store_one-Inv k s inv end base i x rest e
Step-Inv k s t inv (end_write end base i e) few = end_write-Inv k s inv end base i e
Step-Inv k s t inv shut few = shut-Inv k s inv
Step-Inv k s t inv (begin_read need e h enough) few =
    begin_read-Inv k s inv need (word_frames k s inv few) enough
Step-Inv k s t inv (load_one want out e more) few = load_one-Inv k s inv want out e more
Step-Inv k s t inv (reject out e late) few = wait-Inv k s inv
Step-Inv k s t inv (end_read out e in_time) few =
    end_read-Inv k s inv out e (word_frames k s inv few) in_time
Step-Inv k s t inv (skip frames e) few = skip-Inv k s inv frames e (word_frames k s inv few)

pub Run-Inv : (k : ℕ) (s t : System) → Inv k s → Run s t → length t.log < 2 ^ 64 → Inv k t
Run-Inv k s t inv done few = inv
Run-Inv k s t inv (then_step {t = u} run step) few =
    Step-Inv k u t (Run-Inv k s u inv run (omega (arith, log_grows u t step))) step few

few_bits : (k : ℕ) → 2 ^ k < 2 ^ 64 → k ≤ 64
few_bits k h = elim (dec_le k 64) [
  | yes le ↦ le
  | no gt ↦
      absurd
        (omega (arith, h, pow-le-pow_right {n = 2} (omega arith) {i = 64} {j = k} (omega arith)))
]

abbrev new_ring : ℕ → ℕ → AudioRing
new_ring capacity channels = record {
  buf = replicate (capacity * channels) 0;
  capacity = capacity;
  channels = channels;
  sample_mask = capacity * channels - 1;
  reserved = 0;
  write = 0;
  read = 0;
  closed = false;
}

start-Inv :
    (k capacity channels : ℕ)
    → 0 < channels
    → k ≤ 64
    → capacity * channels ≡ 2 ^ k
    → Inv k (at_rest (new_ring capacity channels))
start-Inv k capacity channels above bits size = record {
  shaped = record {
    small = bits;
    some_channels = above;
    size = size;
    mask = omega (arith, size, one-le-pow k 2 (omega arith));
    sized = length-replicate (capacity * channels) 0 ∙ size;
  };
  read_first = omega arith;
  write_next = omega arith;
  logged = omega arith;
  producing = refl;
  held = λ j below lately. absurd (omega arith);
  consuming = tt;
  told = tt;
}

-- The ring that `channel` returns.
pub channel-Inv :
    (capacity channels : ℕ) (r : AudioRing)
    → capacity * channels < 2 ^ 64
    → channel capacity channels ≡ some r
    → (k : ℕ) × Inv k (at_rest r)
unfolding channel
channel-Inv capacity channels r small e = elim (Bool-cases (is_power_of_two capacity)) [
  | inr odd ↦ ground (arith, odd)
  | inl even ↦ elim (Bool-cases (is_power_of_two channels)) [
    | inr odd ↦ ground (arith, odd, even)
    | inl even' ↦
        let (a, whole) = is_power_of_two-pow capacity even in
        let (b, across) = is_power_of_two-pow channels even' in
        let size : capacity * channels ≡ 2 ^ (a + b) = ap₂ ◌*◌ whole across ∙ sym (pow_add a b) in
        let same : new_ring capacity channels ≡ r = ground (arith, even, even', e) in
        (
          a + b,
          subst (λ q. Inv (a + b) (at_rest q)) same
              (start-Inv (a + b) capacity channels
                (omega (arith, across, one-le-pow b 2 (omega arith)))
                (few_bits (a + b) (omega (arith, size))) size),
        )
  ]
]

-- No sample that is read is torn or old, and none is read twice: in every interleaving of the two
-- threads from the ring that `channel` returns, with fewer than 2^64 samples written, each read that
-- succeeds returns consecutive samples of those written, and starts where the one before ended or
-- after.
pub Run-IsTold :
    (capacity channels : ℕ) (r : AudioRing) (t : System)
    → capacity * channels < 2 ^ 64
    → channel capacity channels ≡ some r
    → Run (at_rest r) t
    → length t.log < 2 ^ 64
    → IsTold t.log (first_sample t.ring) t.delivered
Run-IsTold capacity channels r t small e run few =
    let (k, inv) = channel-Inv capacity channels r small e in
    (Run-Inv k (at_rest r) t inv run few).told
