-- ===== src/Rtp/Threads/Invariant/ByCaller.antt =====
-- The steps of the caller's thread keep the invariant.
use chromecast_sink.Base.{
  ℕ, ◌+◌, ◌≡◌, refl, ap, true, false, some, List, [], ◌∷◌, ◌==◌, ==→eq, All, length, u32, u64, inl,
  inr, arith, Bool-cases,
}
use chromecast_sink.Rtp.Packet.{Config}
use chromecast_sink.Rtp.History.{History, SentPacket, get_mut, record_packet}
use chromecast_sink.Rtp.History.Window.{IsHistory, record_packet-IsHistory, get_mut-record_packet}
use chromecast_sink.Rtp.Sender.{Cipher}
use chromecast_sink.Rtp.Threads.{
  System, media, latest, fresh, idle, sent, recorded, counted, joining_reports, joining_nacks,
  stopped, Reporter, unborn, loading, has_id, has_both, pausing, over, CallerStep, start, send,
  send_failed, record_frame, store_id, add_octets, drop_stop_tx, join_reports, join_nacks,
  encrypted_packet, recording, lock_history,
}
use chromecast_sink.Rtp.Threads.Wire.{frames, next_id, octets_of, WasCount, WasCount-now, WasSent}
use chromecast_sink.Rtp.Threads.Invariant.{IsReporter, IsSound, caller_at, stays-IsSound}

later_counts :
    (counter : List (List ℕ) → ℕ) (f : List ℕ) (fs : List (List ℕ)) (vs : List ℕ)
    → All (λ v. WasCount counter v fs) vs
    → All (λ v. WasCount counter v (f ∷ fs)) vs
later_counts counter f fs [] h = tt
later_counts counter f fs (v ∷ vs) h = (inr h.0, later_counts counter f fs vs h.1)

later_reporter :
    (f : List ℕ) (fs : List (List ℕ)) (r : Reporter) → IsReporter fs r → IsReporter (f ∷ fs) r
later_reporter f fs unborn h = tt
later_reporter f fs loading h = tt
later_reporter f fs (has_id v) h = inr h
later_reporter f fs (has_both v o) h = (inr h.0, inr h.1)
later_reporter f fs pausing h = tt
later_reporter f fs over h = tt

module _ (c : Cipher) (cfg : Config) (peer_ip : ℕ) where
  record_held :
      (h : History) (fid now : ℕ) (pkt : List ℕ) (fs : List (List ℕ))
      → IsHistory h
      → WasSent c cfg fid pkt fs
      → ((f : ℕ) (p : SentPacket) → get_mut h f ≡ some p → WasSent c cfg f p.packet fs)
      → (f : ℕ) (p : SentPacket) → get_mut (record_packet h fid pkt now) f ≡ some p
      → WasSent c cfg f p.packet fs
  record_held h fid now pkt fs v w old f p e = elim (Bool-cases (fid == f)) [
    | inl same ↦
        let id : fid ≡ f = ==→eq fid f same in
        let bytes : pkt ≡ p.packet = ground (arith, get_mut-record_packet h fid pkt now f v) in
        rw (← id, ← bytes) w
    | inr other ↦ old f p (ground (arith, get_mut-record_packet h fid pkt now f v))
  ]

  send-IsSound :
      (s : System) (opus : List ℕ)
      → s.caller ≡ idle
      → IsSound c cfg s
      → let fid = latest s.frame_ids in
        let pkt = encrypted_packet c cfg fid opus in
        IsSound c cfg (record s { caller = sent fid pkt opus; wire = media opus pkt ∷ s.wire })
  send-IsSound s opus e v =
      let (id, total) = caller_at c cfg idle e v in
      let fs = frames s.wire in
      record {
        wired = (ap (λ (f : ℕ). encrypted_packet c cfg f opus) id, v.wired);
        shared = record {
          ids = later_counts next_id opus fs s.frame_ids v.shared.ids;
          octets = later_counts octets_of opus fs s.octet_counts v.shared.octets;
          caller = (fs, refl, id, refl, total);
          reporter = later_reporter opus fs s.reporter v.shared.reporter;
          sized = v.shared.sized;
          held = λ f p h. inr (v.shared.held f p h);
        };
      }

  record_frame-IsSound :
      (s : System) (fid now : ℕ) (pkt opus : List ℕ)
      → s.caller ≡ recording fid pkt opus
      → IsSound c cfg s
      → IsSound c cfg
          (record s { caller = recorded fid opus; history = record_packet s.history fid pkt now })
  record_frame-IsSound s fid now pkt opus e v =
      let (gs, grown, id, bytes, total) = caller_at c cfg (recording fid pkt opus) e v in
      let new_one : WasSent c cfg fid pkt (frames s.wire) = rw grown (inl (id, bytes)) in
      record {
        wired = v.wired;
        shared = record {
          ids = v.shared.ids;
          octets = v.shared.octets;
          caller = (gs, grown, id, total);
          reporter = v.shared.reporter;
          sized = record_packet-IsHistory s.history fid pkt now v.shared.sized;
          held =
              record_held s.history fid now pkt (frames s.wire) v.shared.sized new_one
                v.shared.held;
        };
      }

  store_id-IsSound :
      (s : System) (fid : ℕ) (opus : List ℕ)
      → s.caller ≡ recorded fid opus
      → IsSound c cfg s
      → IsSound c cfg (record s { caller = counted opus; frame_ids = u32 (fid + 1) ∷ s.frame_ids })
  store_id-IsSound s fid opus e v =
      let (gs, grown, id, total) = caller_at c cfg (recorded fid opus) e v in
      let stored : u32 (fid + 1) ≡ next_id (frames s.wire) = omega (arith, ap length grown) in
      record {
        wired = v.wired;
        shared = record {
          ids = (rw stored (WasCount-now next_id (frames s.wire)), v.shared.ids);
          octets = v.shared.octets;
          caller = (gs, grown, stored, total);
          reporter = v.shared.reporter;
          sized = v.shared.sized;
          held = v.shared.held;
        };
      }

  add_octets-IsSound :
      (s : System) (opus : List ℕ)
      → s.caller ≡ counted opus
      → IsSound c cfg s
      → IsSound c cfg (record s {
        caller = idle;
        octet_counts = u64 (latest s.octet_counts + length opus) ∷ s.octet_counts;
      })
  add_octets-IsSound s opus e v =
      let (gs, grown, id, total) = caller_at c cfg (counted opus) e v in
      let stored : u64 (latest s.octet_counts + length opus) ≡ octets_of (frames s.wire) =
        rw (grown, total) (omega arith) in
      record {
        wired = v.wired;
        shared = record {
          ids = v.shared.ids;
          octets = (rw stored (WasCount-now octets_of (frames s.wire)), v.shared.octets);
          caller = (id, stored);
          reporter = v.shared.reporter;
          sized = v.shared.sized;
          held = v.shared.held;
        };
      }

  pub CallerStep-IsSound :
      {s t : System} → CallerStep c cfg peer_ip s t → IsSound c cfg s → IsSound c cfg t
  CallerStep-IsSound {s} (start host_is_ip e) v =
      stays-IsSound c cfg s idle s.nack_stops true loading _ v (caller_at c cfg fresh e v) tt
  CallerStep-IsSound {s} (send opus e) v = send-IsSound s opus e v
  CallerStep-IsSound {s} (send_failed opus e) v = v
  CallerStep-IsSound {s} (lock_history fid pkt opus e free) v =
      stays-IsSound c cfg s (recording fid pkt opus) s.nack_stops s.stop_held s.reporter s.server v
        (caller_at c cfg (sent fid pkt opus) e v) v.shared.reporter
  CallerStep-IsSound {s} (record_frame fid now pkt opus e) v =
      record_frame-IsSound s fid now pkt opus e v
  CallerStep-IsSound {s} (store_id fid opus e) v = store_id-IsSound s fid opus e v
  CallerStep-IsSound {s} (add_octets opus e) v = add_octets-IsSound s opus e v
  CallerStep-IsSound {s} (drop_stop_tx e) v =
      stays-IsSound c cfg s joining_reports s.nack_stops false s.reporter s.server v
        (caller_at c cfg idle e v) v.shared.reporter
  CallerStep-IsSound {s} (join_reports e o) v =
      stays-IsSound c cfg s joining_nacks (true ∷ s.nack_stops) s.stop_held s.reporter s.server v
        (caller_at c cfg joining_reports e v) v.shared.reporter
  CallerStep-IsSound {s} (join_nacks e j) v =
      stays-IsSound c cfg s stopped s.nack_stops s.stop_held s.reporter s.server v
        (caller_at c cfg joining_nacks e v) v.shared.reporter
