-- ===== src/Rtp/Threads/Invariant/ByReporter.antt =====
-- The steps of the thread that sends the reports keep the invariant.
use chromecast_sink.Base.{ℕ, zero, suc, ◌≡◌, refl, some, List, [], ◌∷◌, All, get_elem?}
use mathlib.Core.Path.{subst}
use chromecast_sink.Rtp.Packet.{Config}
use chromecast_sink.Rtp.Sender.{Cipher}
use chromecast_sink.Rtp.Threads.{
  System, Reporter, loading, has_id, has_both, pausing, over, ReporterStep, load_id, load_octets,
  send_report, report_failed, timed_out, disconnected,
}
use chromecast_sink.Rtp.Threads.Wire.{frames}
use chromecast_sink.Rtp.Threads.Invariant.{IsReporter, IsSound, reporter_at, stays-IsSound}

All-get_elem? :
    {A : Type 0} (P : A → Type 0) (xs : List A) (i : ℕ) (x : A)
    → All P xs
    → get_elem? xs i ≡ some x
    → P x
All-get_elem? P [] i x h e = absurd (cc)
All-get_elem? P (y ∷ ys) zero x h e = let same : y ≡ x = cc in subst P same h.0
All-get_elem? P (y ∷ ys) (suc i) x h e = All-get_elem? P ys i x h.1 e

module _ (c : Cipher) (cfg : Config) (peer_ip : ℕ) where
  -- The thread of the reports goes on.
  reporter_goes :
      (s : System) (r : Reporter)
      → IsSound c cfg s
      → IsReporter (frames s.wire) r
      → IsSound c cfg (record s { reporter = r })
  reporter_goes s r v at_r =
      stays-IsSound c cfg s s.caller s.nack_stops s.stop_held r s.server v v.shared.caller at_r

  pub ReporterStep-IsSound :
      {s t : System} → ReporterStep c cfg peer_ip s t → IsSound c cfg s → IsSound c cfg t
  ReporterStep-IsSound {s} (load_id i n e held) v =
      reporter_goes s (has_id n) v (All-get_elem? _ s.frame_ids i n v.shared.ids held)
  ReporterStep-IsSound {s} (load_octets i n o e held) v =
      reporter_goes s (has_both n o) v
        (reporter_at c cfg (has_id n) e v, All-get_elem? _ s.octet_counts i o v.shared.octets held)
  ReporterStep-IsSound {s} (send_report n o now e) v =
      let (id, total) = reporter_at c cfg (has_both n o) e v in
      record {
        wired = (id, total, refl, v.wired);
        shared = record {
          ids = v.shared.ids;
          octets = v.shared.octets;
          caller = v.shared.caller;
          reporter = tt;
          sized = v.shared.sized;
          held = v.shared.held;
        };
      }
  ReporterStep-IsSound {s} (report_failed n o e) v = reporter_goes s pausing v tt
  ReporterStep-IsSound {s} (timed_out e h) v = reporter_goes s loading v tt
  ReporterStep-IsSound {s} (disconnected e h) v = reporter_goes s over v tt
