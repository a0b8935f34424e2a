-- ===== src/Capture/Backlog.antt =====
-- Where the frames go that the capture loop of src/capture.rs takes off the ring.
use chromecast_sink.Base.{
  ℕ, ◌+◌, ◌-◌, ◌*◌, ◌^◌, ◌<◌, ◌≡◌, refl, u64, true, Option, none, some, List, length, ltb, leb,
  if◌then◌else◌, arith, if_both, Bool-cases, Option-cases, inl, inr,
}
use chromecast_sink.Rtp.Packet.{opus_samples_per_frame}
use chromecast_sink.Rtp.Sender.{Cipher, send_frame}
use chromecast_sink.Ring.{
  AudioRing, read_frames, available_frames, skip_frames, advance_read, close,
}
use chromecast_sink.Ring.Writes.{writes-fixed, fixed, read_frames_lem}
use chromecast_sink.Capture.Rounds.{run_keeps}
use chromecast_sink.Capture.{
  threshold, outage_fatal, begun, catch_up, Moment, Capture, Outcome, going, stopped, ring_closed,
  encoder_failed, produce, send, encode_and_send, take_pcm, capture_round, run,
}

-- A frame whose encoding failed ends the loop.
abbrev pub lost : Outcome → ℕ
lost encoder_failed = 1
lost _ = 0

-- The read index is `first`, and then what was dropped to catch up and 480 for each frame encoded.
abbrev pub IsAccounted : {E : Type 0} → ℕ → Capture E × Outcome → Type 0
IsAccounted first (s, out) =
    (s.ring.channels ≡ 2)
    × (length s.pcm ≡ 960)
    × (s.ring.read ≡ u64 (first + s.dropped_total + 480 * (s.frames + s.send_failures + lost out)))

module _ {E : Type 0} (first : ℕ) where
  same_place :
      (s s' : Capture E) (out : Outcome)
      → fixed s'.ring ≡ fixed s.ring
      → s'.pcm ≡ s.pcm
      → s'.dropped_total ≡ s.dropped_total
      → s'.frames ≡ s.frames
      → s'.send_failures ≡ s.send_failures
      → lost out ≡ 0
      → IsAccounted first (s, going)
      → IsAccounted first (s', out)
  same_place s s' out r p d f x l h = ground arith

  catch_up-IsAccounted :
      (s : Capture E)
      → ltb threshold (available_frames s.ring) ≡ true
      → IsAccounted first (s, going)
      → IsAccounted first (catch_up s (available_frames s.ring), going)
  unfolding available_frames skip_frames advance_read
  catch_up-IsAccounted s behind h = ground arith

produce-fixed : (m : Moment) (r : AudioRing) → fixed (produce m r) ≡ fixed r
unfolding close
produce-fixed m r = elim (Bool-cases m.closed) [
  | inl e ↦ rw e (writes-fixed r m.writes)
  | inr e ↦ rw e (writes-fixed r m.writes)
]

module _ {E : Type 0} (encode : E → List ℕ → E × Option (List ℕ)) (cipher : Cipher)
    (first : ℕ) where
  -- With a frame taken off the ring and not counted yet.
  abbrev IsTaken : Capture E → Type 0
  IsTaken s = IsAccounted first (s, encoder_failed)

  send-IsAccounted :
      (m : Moment) (opus : List ℕ) (s : Capture E)
      → IsTaken s
      → IsAccounted first (send encode cipher m opus s)
  unfolding send_frame
  send-IsAccounted m opus s h = elim (Bool-cases m.delivered) [
    | inl ok ↦ rw ok (ground arith)
    | inr failed ↦ elim (Bool-cases (leb outage_fatal (m.now - (begun m.now s.outage).since))) [
      | inl over ↦ rw (failed, over) (ground arith)
      | inr early ↦ rw (failed, early) (ground arith)
    ]
  ]

  encode_and_send-IsAccounted :
      (m : Moment) (s : Capture E)
      → IsTaken s
      → IsAccounted first (encode_and_send encode cipher m s)
  encode_and_send-IsAccounted m s h =
      let s' : Capture E = record s {
        encoder = (encode s.encoder s.pcm).0;
        first_frame = elim s.first_frame [ none ↦ some m.now | some t ↦ some t ];
      } in
      elim (Option-cases (encode s.encoder s.pcm).1) [
        | inl e ↦ rw (e, encode_and_send) h
        | inr (opus, e) ↦ rw (e, encode_and_send) (send-IsAccounted m opus s' h)
      ]

  take_pcm-IsAccounted :
      (m : Moment) (s : Capture E)
      → IsAccounted first (s, going)
      → IsAccounted first (take_pcm encode cipher m s)
  take_pcm-IsAccounted m s h =
      let (ring, taken, pcm) = read_frames s.ring s.pcm in
      let s' : Capture E = record s { ring = ring; pcm = pcm } in
      let facts = read_frames_lem s.ring s.pcm in
      elim (Bool-cases (read_frames s.ring s.pcm).1) [
        | inl got ↦ rw (got, take_pcm) (encode_and_send-IsAccounted m s' (ground arith))
        | inr missed ↦ rw (missed, take_pcm) (ground arith)
      ]

  capture_round-IsAccounted :
      (m : Moment) (s : Capture E)
      → IsAccounted first (s, going)
      → IsAccounted first (capture_round encode cipher m s)
  unfolding capture_round
  capture_round-IsAccounted m s h =
      let s' : Capture E = record s { ring = produce m s.ring } in
      let avail = available_frames s'.ring in
      let kept : (out : Outcome) → lost out ≡ 0 → IsAccounted first (s', out) =
        λ out l. same_place first s s' out (produce-fixed m s.ring) refl refl refl refl l h in
      if_both (IsAccounted first) m.stopped _ _ (kept stopped refl) (
        if_both (IsAccounted first) s'.ring.closed _ _ (kept ring_closed refl)
          (by_backlog s' (kept going refl)))
    where
      by_backlog :
          (t : Capture E)
          → IsAccounted first (t, going)
          → IsAccounted first (
              if ltb threshold (available_frames t.ring)
              then (catch_up t (available_frames t.ring), going)
              else if ltb (available_frames t.ring) opus_samples_per_frame
              then (t, going)
              else take_pcm encode cipher m t)
      by_backlog t k = elim (Bool-cases (ltb threshold (available_frames t.ring))) [
        | inl behind ↦ rw behind (catch_up-IsAccounted first t behind k)
        | inr near ↦ rw near (
            if_both (IsAccounted first) (ltb (available_frames t.ring) opus_samples_per_frame) _ _ k
              (take_pcm-IsAccounted m t k))
      ]

  -- Every frame of audio from the ring is dropped to catch up, or encoded and counted as sent or
  -- failed (one more where the encoder fails): after any rounds the read index is what it was plus
  -- these, modulo 2^64, for a stereo ring and a buffer of one Opus frame.
  pub run-IsAccounted :
      (ms : List Moment) (s : Capture E)
      → IsAccounted first (s, going)
      → IsAccounted first (run encode cipher ms s)
  run-IsAccounted ms s h =
      run_keeps encode cipher (IsAccounted first) capture_round-IsAccounted ms s h

-- Catching up leaves 10 ms of audio in the ring.
pub catch_up-available :
    {E : Type 0} (s : Capture E)
    → s.ring.write < 2 ^ 64
    → s.ring.read < 2 ^ 64
    → ltb threshold (available_frames s.ring) ≡ true
    → available_frames (catch_up s (available_frames s.ring)).ring ≡ 480
unfolding available_frames skip_frames advance_read
catch_up-available s hw hr behind = ground arith
