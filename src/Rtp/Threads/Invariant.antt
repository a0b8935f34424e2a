-- ===== src/Rtp/Threads/Invariant.antt =====
-- What every step of the three threads keeps.
pub mod ByCaller
pub mod ByReporter
pub mod ByServer
use chromecast_sink.Base.{
  ℕ, zero, suc, ◌+◌, ◌≡◌, refl, ap, sym, ◌∙◌, Bool, true, false, Option, none, some, List, [], ◌∷◌,
  ◌++◌, ◌==◌, ==→eq, All, length, get_elem?, u32, u64, ◌%◌, ◌⊎◌, inl, inr, if◌then◌else◌, arith,
  Bool-cases, Option-cases,
}
use mathlib.Core.Option
use mathlib.Core.Path.{subst}
use chromecast_sink.Rtp.Packet.{Config}
use chromecast_sink.Rtp.History.{History, SentPacket, new, get_mut, record_packet}
use chromecast_sink.Rtp.History.Window.{
  IsHistory, new-IsHistory, record_packet-IsHistory, get_mut-new, get_mut-record_packet,
}
use chromecast_sink.Rtp.Sender.{Cipher, Resending, resend_frame}
use chromecast_sink.Rtp.Sender.Stream.{total_bytes}
use chromecast_sink.Rtp.Sender.Resend.{
  IsBatch, before_batch, resend_frame-IsBatch, resent_id, touch, WasDue,
}
use chromecast_sink.Rtp.Threads.{
  Datagram, report, System, media, checking, receiving, serving, ended, init, latest, Caller, fresh,
  idle, sent, recorded, counted, joining_reports, joining_nacks, stopped, Reporter, unborn, loading,
  has_id, has_both, pausing, over, Server, CallerStep, start, send, send_failed, record_frame,
  store_id, add_octets, drop_stop_tx, join_reports, join_nacks, ReporterStep, load_id, load_octets,
  send_report, report_failed, timed_out, disconnected, ServerStep, go_on, see_stop, receive_failed,
  from_stranger, nothing_sent, receive, serve, unlock, Step, by_caller, by_reporter, by_server,
  Reach, created, next, encrypted_packet, one_frame, as_resent, recording, lock_history, wanting,
  lock, IsUnlockedBy,
}
use chromecast_sink.Rtp.Threads.Wire.{
  frames, next_id, octets_of, WasCount, WasCount-now, WasSent, IsWire, frames-as_resent,
}

-- The counters, as the caller's thread has them behind its last step.
abbrev pub IsCaller : Cipher → Config → List ℕ → List ℕ → List (List ℕ) → Caller → Type 0
IsCaller c cfg ids octets fs (sent fid pkt opus) =
    (gs : List (List ℕ)) × (fs ≡ opus ∷ gs)
    × (fid ≡ next_id gs)
    × (pkt ≡ encrypted_packet c cfg fid opus)
    × (latest octets ≡ octets_of gs)
IsCaller c cfg ids octets fs (recording fid pkt opus) =
    (gs : List (List ℕ)) × (fs ≡ opus ∷ gs)
    × (fid ≡ next_id gs)
    × (pkt ≡ encrypted_packet c cfg fid opus)
    × (latest octets ≡ octets_of gs)
IsCaller c cfg ids octets fs (recorded fid opus) =
    (gs : List (List ℕ)) × (fs ≡ opus ∷ gs) × (fid ≡ next_id gs) × (latest octets ≡ octets_of gs)
IsCaller c cfg ids octets fs (counted opus) =
    (gs : List (List ℕ)) × (fs ≡ opus ∷ gs)
    × (latest ids ≡ next_id fs)
    × (latest octets ≡ octets_of gs)
IsCaller c cfg ids octets fs _ = (latest ids ≡ next_id fs) × (latest octets ≡ octets_of fs)

abbrev pub IsReporter : List (List ℕ) → Reporter → Type 0
IsReporter fs (has_id v) = WasCount next_id v fs
IsReporter fs (has_both v o) = WasCount next_id v fs × WasCount octets_of o fs
IsReporter fs _ = Unit

-- With respect to the frames `fs` that were sent.
pub record IsShared (c : Cipher) (cfg : Config) (fs : List (List ℕ)) (s : System) : Type 0 where
  pub ids : All (λ v. WasCount next_id v fs) s.frame_ids
  pub octets : All (λ v. WasCount octets_of v fs) s.octet_counts
  pub caller : IsCaller c cfg s.frame_ids s.octet_counts fs s.caller
  pub reporter : IsReporter fs s.reporter
  pub sized : IsHistory s.history
  pub held : (f : ℕ) (p : SentPacket) → get_mut s.history f ≡ some p → WasSent c cfg f p.packet fs

pub record IsSound (c : Cipher) (cfg : Config) (s : System) : Type 0 where
  pub wired : IsWire c cfg s.wire
  pub shared : IsShared c cfg (frames s.wire) s

module _ (c : Cipher) (cfg : Config) where
  -- What the caller's thread has at the place where it stands.
  pub caller_at :
      {s : System} (k : Caller)
      → s.caller ≡ k
      → IsSound c cfg s
      → IsCaller c cfg s.frame_ids s.octet_counts (frames s.wire) k
  caller_at {s} k e v =
      subst (IsCaller c cfg s.frame_ids s.octet_counts (frames s.wire)) e v.shared.caller

  pub reporter_at :
      {s : System} (k : Reporter) → s.reporter ≡ k → IsSound c cfg s → IsReporter (frames s.wire) k
  reporter_at {s} k e v = subst (IsReporter (frames s.wire)) e v.shared.reporter

  -- The caller's thread goes on, and has its counters as before.
  pub stays-IsSound :
      (s : System) (k : Caller) (stops : List Bool) (stop_held : Bool) (r : Reporter) (sv : Server)
      → IsSound c cfg s
      → IsCaller c cfg s.frame_ids s.octet_counts (frames s.wire) k
      → IsReporter (frames s.wire) r
      → IsSound c cfg (record s {
        caller = k;
        nack_stops = stops;
        stop_held = stop_held;
        reporter = r;
        server = sv;
      })
  stays-IsSound s k stops stop_held r sv v at_k at_r = record {
    wired = v.wired;
    shared = record {
      ids = v.shared.ids;
      octets = v.shared.octets;
      caller = at_k;
      reporter = at_r;
      sized = v.shared.sized;
      held = v.shared.held;
    };
  }
