-- ===== src/Rtp/Threads/Running.antt =====
-- Which threads there are while the caller's thread starts, sends and stops.
use chromecast_sink.Base.{
  ℕ, ◌<◌, ◌≡◌, ◌≢◌, refl, Bool, true, false, some, List, [], ◌∷◌, length, get_elem?, arith,
}
use mathlib.Core.Path.{subst}
use chromecast_sink.Rtp.Packet.{Config}
use chromecast_sink.Rtp.History.{History}
use chromecast_sink.Rtp.Sender.{Cipher}
use chromecast_sink.Rtp.Threads.{
  System, Datagram, checking, receiving, serving, ended, absent, Caller, fresh, idle, sent,
  recorded, counted, joining_reports, joining_nacks, stopped, Reporter, unborn, loading, has_id,
  has_both, pausing, over, Server, CallerStep, start, send, send_failed, record_frame, store_id,
  add_octets, drop_stop_tx, join_reports, join_nacks, ReporterStep, load_id, load_octets,
  send_report, report_failed, timed_out, disconnected, ServerStep, go_on, see_stop, receive_failed,
  from_stranger, nothing_sent, receive, serve, unlock, by_caller, by_reporter, by_server, Reach,
  created, next, IsJoined, recording, lock_history, wanting, lock,
}

-- Which threads there are, by the place of the caller's.
abbrev pub Phase : Caller → Reporter → Server → Bool → List Bool → Type 0
Phase fresh r sv held stops = (r ≡ unborn) × (sv ≡ absent)
Phase joining_reports r sv held stops = (r ≢ unborn) × (held ≡ false)
Phase joining_nacks r sv held stops = (r ≡ over) × (get_elem? stops 0 ≡ some true)
Phase stopped r sv held stops = (r ≡ over) × IsJoined sv
Phase _ r sv held stops = r ≢ unborn

pub record IsRunning (s : System) : Type 0 where
  pub phase : Phase s.caller s.reporter s.server s.stop_held s.nack_stops
  pub has_id : 0 < length s.frame_ids
  pub has_total : 0 < length s.octet_counts

pub place_at :
    {s : System} (k : Caller)
    → s.caller ≡ k
    → IsRunning s
    → Phase k s.reporter s.server s.stop_held s.nack_stops
place_at {s} k e v = subst (λ k'. Phase k' s.reporter s.server s.stop_held s.nack_stops) e v.phase

Phase-reporter :
    (k : Caller) (r r' : Reporter) (sv : Server) (held : Bool) (stops : List Bool)
    → r ≢ unborn
    → r ≢ over
    → r' ≢ unborn
    → Phase k r sv held stops
    → Phase k r' sv held stops
Phase-reporter fresh r r' sv held stops u o n p = absurd (u p.0)
Phase-reporter joining_reports r r' sv held stops u o n p = (n, p.1)
Phase-reporter joining_nacks r r' sv held stops u o n p = absurd (o p.0)
Phase-reporter stopped r r' sv held stops u o n p = absurd (o p.0)
Phase-reporter _ r r' sv held stops u o n p = n

Phase-server :
    (k : Caller) (r : Reporter) (sv sv' : Server) (held : Bool) (stops : List Bool)
    → ¬ IsJoined sv
    → Phase k r sv held stops
    → Phase k r sv' held stops
Phase-server fresh r sv sv' held stops j p = absurd (j (rw p.1 tt))
Phase-server stopped r sv sv' held stops j p = absurd (j p.1)
Phase-server joining_reports r sv sv' held stops j p = p
Phase-server joining_nacks r sv sv' held stops j p = p
Phase-server _ r sv sv' held stops j p = p

-- A step that leaves the counters alone.
runs_with :
    (s : System) (k : Caller) (r : Reporter) (sv : Server) (held : Bool) (stops : List Bool)
    (h : History) (w : List Datagram)
    → IsRunning s
    → Phase k r sv held stops
    → IsRunning (record s {
      caller = k;
      reporter = r;
      server = sv;
      stop_held = held;
      nack_stops = stops;
      history = h;
      wire = w;
    })
runs_with s k r sv held stops h w v p = record {
  phase = p;
  has_id = v.has_id;
  has_total = v.has_total;
}

caller_goes :
    (s : System) (k : Caller) (h : History) (w : List Datagram)
    → IsRunning s
    → Phase k s.reporter s.server s.stop_held s.nack_stops
    → IsRunning (record s { caller = k; history = h; wire = w })
caller_goes s k h w v p = runs_with s k s.reporter s.server s.stop_held s.nack_stops h w v p

reporter_goes :
    (s : System) (r r' : Reporter) (w : List Datagram)
    → s.reporter ≡ r
    → r ≢ unborn
    → r ≢ over
    → r' ≢ unborn
    → IsRunning s
    → IsRunning (record s { reporter = r'; wire = w })
reporter_goes s r r' w e u o n v =
    runs_with s s.caller r' s.server s.stop_held s.nack_stops s.history w v (
      Phase-reporter s.caller s.reporter r' s.server s.stop_held s.nack_stops (rw e u) (rw e o) n
        v.phase)

server_goes :
    (s : System) (sv sv' : Server) (h : History) (w : List Datagram)
    → s.server ≡ sv
    → ¬ IsJoined sv
    → IsRunning s
    → IsRunning (record s { server = sv'; history = h; wire = w })
server_goes s sv sv' h w e j v =
    runs_with s s.caller s.reporter sv' s.stop_held s.nack_stops h w v
      (Phase-server s.caller s.reporter s.server sv' s.stop_held s.nack_stops (rw e j) v.phase)

module _ (c : Cipher) (cfg : Config) (peer_ip : ℕ) where
  CallerStep-IsRunning : {s t : System} → CallerStep c cfg peer_ip s t → IsRunning s → IsRunning t
  CallerStep-IsRunning {s} (start host_is_ip e) v =
      runs_with s idle loading _ true s.nack_stops s.history s.wire v (λ h. cc)
  CallerStep-IsRunning {s} (send opus e) v = caller_goes s _ s.history _ v (place_at idle e v)
  CallerStep-IsRunning (send_failed opus e) v = v
  CallerStep-IsRunning {s} (lock_history fid pkt opus e free) v =
      caller_goes s _ s.history s.wire v (place_at (sent fid pkt opus) e v)
  CallerStep-IsRunning {s} (record_frame fid now pkt opus e) v =
      caller_goes s _ _ s.wire v (place_at (recording fid pkt opus) e v)
  CallerStep-IsRunning (store_id fid opus e) v = record {
    phase = place_at (recorded fid opus) e v;
    has_id = omega arith;
    has_total = v.has_total;
  }
  CallerStep-IsRunning (add_octets opus e) v = record {
    phase = place_at (counted opus) e v;
    has_id = v.has_id;
    has_total = omega arith;
  }
  CallerStep-IsRunning {s} (drop_stop_tx e) v =
      runs_with s joining_reports s.reporter s.server false s.nack_stops s.history s.wire v
        (place_at idle e v, refl)
  CallerStep-IsRunning {s} (join_reports e o) v =
      runs_with s joining_nacks s.reporter s.server s.stop_held (true ∷ s.nack_stops) s.history
        s.wire v (o, refl)
  CallerStep-IsRunning {s} (join_nacks e j) v =
      caller_goes s stopped s.history s.wire v ((place_at joining_nacks e v).0, j)

  ReporterStep-IsRunning :
      {s t : System} → ReporterStep c cfg peer_ip s t → IsRunning s → IsRunning t
  ReporterStep-IsRunning {s} (load_id i n e h) v =
      reporter_goes s loading (has_id n) s.wire e (λ h. cc) (λ h. cc) (λ h. cc) v
  ReporterStep-IsRunning {s} (load_octets i n o e h) v =
      reporter_goes s (has_id n) (has_both n o) s.wire e (λ h. cc) (λ h. cc) (λ h. cc) v
  ReporterStep-IsRunning {s} (send_report n o now e) v =
      reporter_goes s (has_both n o) pausing _ e (λ h. cc) (λ h. cc) (λ h. cc) v
  ReporterStep-IsRunning {s} (report_failed n o e) v =
      reporter_goes s (has_both n o) pausing s.wire e (λ h. cc) (λ h. cc) (λ h. cc) v
  ReporterStep-IsRunning {s} (timed_out e h) v =
      reporter_goes s pausing loading s.wire e (λ h. cc) (λ h. cc) (λ h. cc) v
  ReporterStep-IsRunning {s} (disconnected e h) v =
      reporter_goes s pausing over s.wire e (λ h. cc) (λ h. cc) (λ h. cc) v

  ServerStep-IsRunning : {s t : System} → ServerStep c cfg peer_ip s t → IsRunning s → IsRunning t
  ServerStep-IsRunning {s} (go_on i e h) v =
      server_goes s checking receiving s.history s.wire e (λ j. j) v
  ServerStep-IsRunning {s} (see_stop i e h) v =
      server_goes s checking ended s.history s.wire e (λ j. j) v
  ServerStep-IsRunning {s} (receive_failed e) v =
      server_goes s receiving checking s.history s.wire e (λ j. j) v
  ServerStep-IsRunning {s} (from_stranger src_ip e h) v =
      server_goes s receiving checking s.history s.wire e (λ j. j) v
  ServerStep-IsRunning {s} (receive bytes e) v =
      server_goes s receiving _ s.history s.wire e (λ j. j) v
  ServerStep-IsRunning {s} (nothing_sent bytes e free h) v =
      server_goes s (wanting bytes) checking s.history s.wire e (λ j. j) v
  ServerStep-IsRunning {s} (lock bytes now last_sent e free h) v =
      server_goes s (wanting bytes) _ s.history s.wire e (λ j. j) v
  ServerStep-IsRunning {s} (serve answer now f ids e) v =
      server_goes s (serving now (f ∷ ids)) (serving now ids) _ _ e (λ j. j) v
  ServerStep-IsRunning {s} (unlock now e) v =
      server_goes s (serving now []) checking s.history s.wire e (λ j. j) v

  pub Reach-IsRunning : {s : System} → Reach c cfg peer_ip s → IsRunning s
  Reach-IsRunning created = record {
    phase = (refl, refl);
    has_id = omega arith;
    has_total = omega arith;
  }
  Reach-IsRunning (next r (by_caller m)) = CallerStep-IsRunning m (Reach-IsRunning r)
  Reach-IsRunning (next r (by_reporter m)) = ReporterStep-IsRunning m (Reach-IsRunning r)
  Reach-IsRunning (next r (by_server m)) = ServerStep-IsRunning m (Reach-IsRunning r)
