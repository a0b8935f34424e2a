-- ===== src/Capture/Outages.antt =====
-- How long sends may fail before the capture loop of src/capture.rs gives up.
use chromecast_sink.Base.{
  ℕ, suc, ◌-◌, ◌≡◌, refl, Bool, true, false, Option, none, some, List, [], ◌∷◌, length, ltb, leb,
  arith, if_both, Bool-cases, Option-cases, inl, inr,
}
use chromecast_sink.Rtp.Packet.{opus_samples_per_frame}
use chromecast_sink.Rtp.Sender.{Cipher, send_frame}
use chromecast_sink.Ring.{read_frames, available_frames}
use chromecast_sink.Capture.Rounds.{run_keeps}
use chromecast_sink.Capture.{
  outage_fatal, threshold, catch_up, Outage, Moment, Capture, Outcome, going, stopped, ring_closed,
  encoder_failed, send_failing, produce, not_sent, send, encode_and_send, take_pcm, capture_round,
  run,
}

-- The times of the sends that failed since the last one that did not, the latest first.
abbrev pub failing : List (ℕ × Bool) → List ℕ
failing [] = []
failing ((t, true) ∷ calls) = []
failing ((t, false) ∷ calls) = t ∷ failing calls

abbrev pub oldest : ℕ → List ℕ → ℕ
oldest t [] = t
oldest t (u ∷ us) = oldest u us

abbrev pub outage_of : List ℕ → Option Outage
outage_of [] = none
outage_of (t ∷ ts) = some (record { since = oldest t ts; frames = suc (length ts) })

-- How long they have failed, from the first to the last.
abbrev pub lasted : List ℕ → ℕ
lasted [] = 0
lasted (t ∷ ts) = t - oldest t ts

abbrev pub gave_up : Outcome → Bool
gave_up send_failing = true
gave_up _ = false

-- The outage is that of the calls, and its length agrees with the outcome.
abbrev pub IsOutage : {E : Type 0} → Capture E × Outcome → Type 0
IsOutage (s, out) =
    (s.outage ≡ outage_of (failing s.calls))
    × (gave_up out ≡ leb outage_fatal (lasted (failing s.calls)))

module _ {E : Type 0} where
  not_sent-IsOutage :
      (now : ℕ) (s : Capture E) (calls : List (ℕ × Bool)) (ts : List ℕ)
      → failing calls ≡ ts
      → s.outage ≡ outage_of ts
      → s.calls ≡ (now, false) ∷ calls
      → IsOutage (not_sent now s)
  not_sent-IsOutage now s calls [] e o h = (ground arith, ground arith)
  not_sent-IsOutage now s calls (t ∷ ts) e o h = (ground arith, ground arith)

  no_call :
      (s s' : Capture E) (out : Outcome)
      → s'.outage ≡ s.outage
      → s'.calls ≡ s.calls
      → gave_up out ≡ false
      → IsOutage (s, going)
      → IsOutage (s', out)
  no_call s s' out o c ne h = ground arith

module _ {E : Type 0} (encode : E → List ℕ → E × Option (List ℕ)) (cipher : Cipher) where
  send-IsOutage :
      (m : Moment) (opus : List ℕ) (s : Capture E)
      → IsOutage (s, going)
      → IsOutage (send encode cipher m opus s)
  unfolding send_frame
  send-IsOutage m opus s h = elim (Bool-cases m.delivered) [
    | inl ok ↦ rw ok (refl, ground arith)
    | inr failed ↦ rw failed (not_sent-IsOutage m.now _ s.calls (failing s.calls) refl h.0 refl)
  ]

  encode_and_send-IsOutage :
      (m : Moment) (s : Capture E)
      → IsOutage (s, going)
      → IsOutage (encode_and_send encode cipher m s)
  encode_and_send-IsOutage m s h =
      let s' : Capture E = record s {
        encoder = (encode s.encoder s.pcm).0;
        first_frame = elim s.first_frame [ none ↦ some m.now | some t ↦ some t ];
      } in
      elim (Option-cases (encode s.encoder s.pcm).1) [
        | inl e ↦ rw (e, encode_and_send) (no_call s s' encoder_failed refl refl refl h)
        | inr (opus, e) ↦ rw (e, encode_and_send) (send-IsOutage m opus s' h)
      ]

  take_pcm-IsOutage :
      (m : Moment) (s : Capture E) → IsOutage (s, going) → IsOutage (take_pcm encode cipher m s)
  take_pcm-IsOutage m s h =
      let (ring, taken, pcm) = read_frames s.ring s.pcm in
      if_both IsOutage taken _ _
        (encode_and_send-IsOutage m (record s { ring = ring; pcm = pcm }) h)
        (no_call s (record s { ring = ring; pcm = pcm }) going refl refl refl h)

  capture_round-IsOutage :
      (m : Moment) (s : Capture E)
      → IsOutage (s, going)
      → IsOutage (capture_round encode cipher m s)
  unfolding capture_round
  capture_round-IsOutage m s h =
      let s' : Capture E = record s { ring = produce m s.ring } in
      let avail = available_frames s'.ring in
      if_both IsOutage m.stopped _ _ (no_call s s' stopped refl refl refl h) (
        if_both IsOutage s'.ring.closed _ _ (no_call s s' ring_closed refl refl refl h) (
          if_both IsOutage (ltb threshold avail) _ _
            (no_call s (catch_up s' avail) going refl refl refl h)
            (if_both IsOutage (ltb avail opus_samples_per_frame) _ _
              (no_call s s' going refl refl refl h) (take_pcm-IsOutage m s' h))))

  -- However the sends go, the outage that the loop keeps is that of the sends failed in a row, and
  -- the loop gives up on sending exactly if these have lasted five seconds; initially no outage as
  -- long may be under way.
  pub run-IsOutage :
      (ms : List Moment) (s : Capture E) → IsOutage (s, going) → IsOutage (run encode cipher ms s)
  run-IsOutage ms s h = run_keeps encode cipher IsOutage capture_round-IsOutage ms s h
