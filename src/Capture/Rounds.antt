-- ===== src/Capture/Rounds.antt =====
-- What every round of the capture loop keeps, the loop of src/capture.rs keeps.
use chromecast_sink.Base.{ℕ, ◌≡◌, refl, Option, List, [], ◌∷◌}
use mathlib.Core.Path.{subst}
use chromecast_sink.Rtp.Sender.{Cipher}
use chromecast_sink.Capture.{
  Moment, Capture, Outcome, going, stopped, ring_closed, encoder_failed, send_failing,
  capture_round, run,
}

module _ {E : Type 0} (encode : E → List ℕ → E × Option (List ℕ)) (cipher : Cipher)
    (P : Capture E × Outcome → Type 0)
    (keeps : (m : Moment) (s : Capture E)
      → P (s, going)
      → P (capture_round encode cipher m s)) where
  pub run_keeps : (ms : List Moment) (s : Capture E) → P (s, going) → P (run encode cipher ms s)
  unfolding run
  run_keeps [] s h = h
  run_keeps (m ∷ ms) s h =
      by_outcome (capture_round encode cipher m s).1 refl (keeps m s h)
        (λ h'. run_keeps ms (capture_round encode cipher m s).0 h')
    where
      ending :
          (out : Outcome)
          → (capture_round encode cipher m s).1 ≡ out
          → P (capture_round encode cipher m s)
          → P ((capture_round encode cipher m s).0, out)
      ending out e p = subst (λ o. P ((capture_round encode cipher m s).0, o)) e p

      by_outcome :
          (out : Outcome)
          → (capture_round encode cipher m s).1 ≡ out
          → P (capture_round encode cipher m s)
          → (P ((capture_round encode cipher m s).0, going)
              → P (run encode cipher ms (capture_round encode cipher m s).0))
          → P (run encode cipher (m ∷ ms) s)
      by_outcome going e now later = rw (e, run) (later (ending going e now))
      by_outcome stopped e now later = rw (e, run) (ending stopped e now)
      by_outcome ring_closed e now later = rw (e, run) (ending ring_closed e now)
      by_outcome encoder_failed e now later = rw (e, run) (ending encoder_failed e now)
      by_outcome send_failing e now later = rw (e, run) (ending send_failing e now)
