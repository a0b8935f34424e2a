-- ===== src/Capture.antt =====
-- `run` of src/capture.rs: the loop that takes frames off the ring, encodes and sends them. The
-- encoder is libopus behind src/opus_enc.rs: a state and what a call makes of it, `none` for an error.
pub mod Rounds
pub mod Backlog
pub mod Outages
mod Tests
use mathlib.Core.List.{foldl}
use chromecast_sink.Base.{
  ℕ, zero, suc, ◌+◌, ◌-◌, ◌*◌, ◌/◌, Bool, true, false, Option, none, some, List, [], ◌∷◌, ◌++◌,
  length, replicate, ltb, leb, if◌then◌else◌,
}
use chromecast_sink.Ring.{AudioRing, available_frames, read_frames, skip_frames, write_s16le, close}
use chromecast_sink.Rtp.Packet.{sample_rate, channels, opus_samples_per_frame}
use chromecast_sink.Rtp.Sender.{Cipher, CastRtpSender, send_frame}

-- In nanoseconds.
abbrev pub outage_fatal : ℕ
outage_fatal = 5_000_000_000

abbrev pub max_expected_quantum : ℕ
max_expected_quantum = 2048

abbrev pub frames_for_ms : ℕ → ℕ
frames_for_ms ms = ms * sample_rate / 1000

-- `DRAIN_THRESHOLD_MS` and `DRAIN_TARGET_MS`, in frames.
abbrev pub threshold : ℕ
threshold = frames_for_ms 30

abbrev pub target : ℕ
target = frames_for_ms 10

pub record Outage : Type 0 where
  pub since : ℕ
  pub frames : ℕ

-- What a round meets: whether `stop` is set, what the producer wrote into the ring since the round
-- before and whether it closed it, the time, and whether `send_to` succeeds.
pub record Moment : Type 0 where
  pub stopped : Bool
  pub writes : List (List ℕ)
  pub closed : Bool
  pub now : ℕ
  pub delivered : Bool

-- `calls` holds the time and the success of every `send_frame`, the last one first.
pub record Capture (E : Type 0) : Type 0 where
  pub ring : AudioRing
  pub sender : CastRtpSender
  pub encoder : E
  pub pcm : List ℕ
  pub first_frame : Option ℕ
  pub frames : ℕ
  pub dropped_total : ℕ
  pub send_failures : ℕ
  pub outage : Option Outage
  pub calls : List (ℕ × Bool)

pub data Outcome : Type 0 where
  going stopped ring_closed encoder_failed send_failing : Outcome

-- The producer's part, up to the round.
abbrev pub produce : Moment → AudioRing → AudioRing
produce m ring =
    let written = foldl write_s16le ring m.writes in if m.closed then close written else written

abbrev pub begun : ℕ → Option Outage → Outage
begun now none = record { since = now; frames = 0 }
begun now (some o) = o

module _ {E : Type 0} where
  -- `avail > threshold`
  abbrev pub catch_up : Capture E → ℕ → Capture E
  catch_up s avail = record s {
    ring = skip_frames s.ring (avail - target);
    dropped_total = s.dropped_total + (avail - target);
  }

  abbrev pub sent : Capture E → Capture E
  sent s = record s { outage = none; frames = s.frames + 1 }

  -- `Err(e)` of `send_frame`.
  abbrev pub not_sent : ℕ → Capture E → Capture E × Outcome
  not_sent now s =
      let o = begun now s.outage in
      let s' = record s {
        send_failures = s.send_failures + 1;
        outage = some (record o { frames = o.frames + 1 });
      } in
      if leb outage_fatal (now - o.since) then (s', send_failing) else (s', going)

module _ {E : Type 0} (encode : E → List ℕ → E × Option (List ℕ)) (cipher : Cipher) where
  -- Up to the loop; `none` where the assertion fails.
  pub begin : AudioRing → CastRtpSender → E → Option (Capture E)
  begin ring sender encoder =
      if ltb ring.capacity (threshold + opus_samples_per_frame + max_expected_quantum)
      then none
      else some (record {
        ring = skip_frames ring (available_frames ring);
        sender = sender;
        encoder = encoder;
        pcm = replicate (opus_samples_per_frame * channels) 0;
        first_frame = none;
        frames = 0;
        dropped_total = 0;
        send_failures = 0;
        outage = none;
        calls = [];
      })

  abbrev pub send : Moment → List ℕ → Capture E → Capture E × Outcome
  send m opus s =
      let (sender, out) = send_frame cipher s.sender opus m.delivered m.now in
      let s' = record s { sender = sender; calls = (m.now, m.delivered) ∷ s.calls } in
      elim out [ some pkt ↦ (sent s', going) | none ↦ not_sent m.now s' ]

  -- With the frame in `pcm`.
  abbrev pub encode_and_send : Moment → Capture E → Capture E × Outcome
  encode_and_send m s =
      let (encoder, opus) = encode s.encoder s.pcm in
      let s' = record s {
        encoder = encoder;
        first_frame = elim s.first_frame [ none ↦ some m.now | some t ↦ some t ];
      } in
      elim opus [ none ↦ (s', encoder_failed) | some bytes ↦ send m bytes s' ]

  -- `read_frames` and what follows.
  abbrev pub take_pcm : Moment → Capture E → Capture E × Outcome
  take_pcm m s =
      let (ring, taken, pcm) = read_frames s.ring s.pcm in
      let s' = record s { ring = ring; pcm = pcm } in
      if taken then encode_and_send m s' else (s', going)

  -- One round of the loop.
  pub capture_round : Moment → Capture E → Capture E × Outcome
  capture_round m s =
      let s' = record s { ring = produce m s.ring } in
      let avail = available_frames s'.ring in
      if m.stopped
      then (s', stopped)
      else if s'.ring.closed
      then (s', ring_closed)
      else if ltb threshold avail
      then (catch_up s' avail, going)
      else if ltb avail opus_samples_per_frame
      then (s', going)
      else take_pcm m s'

  -- The rounds until one ends the loop, or those observed are over.
  pub run : List Moment → Capture E → Capture E × Outcome
  run [] s = (s, going)
  run (m ∷ ms) s =
      let (s', out) = capture_round m s in
      let later = run ms s' in elim out [ going ↦ later | over ↦ (s', over) ]
