-- ===== src/Ring/Sequence.antt =====
-- Calls of src/audio_ring.rs one after the other, from a ring at rest to a ring at rest.
use mathlib.Core.Path.{subst}
use chromecast_sink.Base.{
  ℕ, ◌/◌, ◌%◌, ◌<◌, ◌≡◌, refl, ap, ◌∙◌, sym, Bool, List, ◌++◌, length, inl, inr, arith,
}
use chromecast_sink.Ring.{AudioRing, write_s16le, advance_read, read_frames, skip_frames}
use chromecast_sink.Ring.Writes.{Fixed, write_s16le-fixed}
use chromecast_sink.Ring.Steps.{outside, waiting, System, skip, Run, done, then_step}
use chromecast_sink.Ring.Calls.{
  returned, after_read, copy, accepted, read_frames-cases, write_s16le-Run, read_frames-Run,
}

pub data Call : Type 0 where
  write : (bytes : List ℕ) → Call
  read : (out : List ℕ) → Call
  skip_over : (frames : ℕ) → Call

unfoldable pub call : System → Call → System
call s (write bytes) = record s {
  ring = write_s16le s.ring bytes;
  producer = outside;
  log = s.log ++ accepted s.ring bytes;
}
call s (read out) = after_read s out
call s (skip_over frames) = record s { ring = skip_frames s.ring frames }

-- The debug assertion of `read_frames`
abbrev pub IsWhole : ℕ → Call → Type 0
IsWhole channels (read out) = length out % channels ≡ 0
IsWhole channels other = Unit

-- Both endpoints at rest, over a ring of `channels` channels.
pub record IsResting (channels : ℕ) (s : System) : Type 0 where
  pub of_channels : s.ring.channels ≡ channels
  pub producer_out : s.producer ≡ outside
  pub consumer_out : s.consumer ≡ waiting

after_read-IsResting :
    (channels : ℕ) (s : System) (out : List ℕ)
    → IsResting channels s
    → IsResting channels (after_read s out)
unfolding after_read copy advance_read
after_read-IsResting channels s out h = elim (read_frames-cases s.ring out) [
  | inl q ↦ to q (h' s.ring s.delivered refl)
  | inr (some_frames, enough, inl (late, q)) ↦ to q (h' s.ring s.delivered refl)
  | inr (some_frames, enough, inr (in_time, q)) ↦
      to q (h' (advance_read s.ring s.ring.read (length out / s.ring.channels)) _ refl)
]
  where
    to :
        {q : AudioRing × Bool × List ℕ}
        → read_frames s.ring out ≡ q
        → IsResting channels (returned s q)
        → IsResting channels (after_read s out)
    to e rest = subst (λ q. IsResting channels (returned s q)) (sym e) rest

    h' :
        (r : AudioRing) (delivered : List (ℕ × List ℕ))
        → r.channels ≡ s.ring.channels
        → IsResting channels (record s { ring = r; consumer = waiting; delivered = delivered })
    h' r delivered e = record {
      of_channels = e ∙ h.of_channels;
      producer_out = h.producer_out;
      consumer_out = refl;
    }

pub call-IsResting :
    (channels : ℕ) (s : System) (c : Call) → IsResting channels s → IsResting channels (call s c)
unfolding call skip_frames advance_read
call-IsResting channels s (write bytes) h = record {
  of_channels = ap (λ (f : Fixed). f.1) (write_s16le-fixed s.ring bytes) ∙ h.of_channels;
  producer_out = refl;
  consumer_out = h.consumer_out;
}
call-IsResting channels s (read out) h = after_read-IsResting channels s out h
call-IsResting channels s (skip_over frames) h = record {
  of_channels = h.of_channels;
  producer_out = h.producer_out;
  consumer_out = h.consumer_out;
}

pub call-Run :
    (channels : ℕ) (s : System) (c : Call)
    → 0 < channels
    → IsResting channels s
    → IsWhole channels c
    → Run s (call s c)
unfolding call
call-Run channels s (write bytes) some_channels h whole = write_s16le-Run s bytes h.producer_out
call-Run channels s (read out) some_channels h whole =
    read_frames-Run s out (omega (arith, h.of_channels)) h.consumer_out
      (ap (λ (c : ℕ). length out % c) h.of_channels ∙ whole)
call-Run channels s (skip_over frames) some_channels h whole =
    then_step done (skip frames h.consumer_out)

pub Run-append : (s t u : System) → Run s t → Run t u → Run s u
Run-append s t u run done = run
Run-append s t u run (then_step {t = v} more step) = then_step (Run-append s t v run more) step
