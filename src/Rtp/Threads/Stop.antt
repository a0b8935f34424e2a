-- ===== src/Rtp/Threads/Stop.antt =====
-- `stop`: it can always return, and nothing is sent behind it.
use chromecast_sink.Base.{
  ℕ, ◌<◌, ◌≡◌, ◌≢◌, refl, true, false, some, List, [], ◌∷◌, ◌++◌, length, get_elem?, arith,
  Option-cases, inl, inr,
}
use mathlib.Core.Path.{subst}
use chromecast_sink.Rtp.Packet.{Config}
use chromecast_sink.Rtp.History.{History}
use chromecast_sink.Rtp.Sender.{Cipher, resend_frame}
use chromecast_sink.Rtp.Feedback.{parse_nacked_frames}
use chromecast_sink.Rtp.Threads.{
  Caller, System, Datagram, one_frame, as_resent, checking, receiving, serving, ended, absent,
  latest, idle, joining_reports, joining_nacks, stopped, Reporter, unborn, loading, has_id,
  has_both, pausing, over, Server, CallerStep, start, send, send_failed, record_frame, store_id,
  add_octets, drop_stop_tx, join_reports, join_nacks, ReporterStep, load_id, load_octets,
  send_report, report_failed, timed_out, disconnected, ServerStep, go_on, see_stop, receive_failed,
  from_stranger, nothing_sent, receive, serve, unlock, Step, by_caller, by_reporter, by_server,
  Reach, next, IsJoined, lock_history, wanting, lock, IsUnlockedBy,
}
use chromecast_sink.Rtp.Threads.Running.{IsRunning, place_at, Reach-IsRunning}

first : (xs : List ℕ) → 0 < length xs → get_elem? xs 0 ≡ some (latest xs)
first [] h = absurd (omega arith)
first (x ∷ xs) h = refl

module _ (c : Cipher) (cfg : Config) (peer_ip : ℕ) where
  -- Some steps, in order.
  pub data Steps (s : System) : System → Type 0 where
    stay : Steps s s
    go : {t u : System} → Steps s t → Step c cfg peer_ip t u → Steps s u

  abbrev also : {s t u : System} → Steps s t → Steps t u → Steps s u
  also r stay = r
  also r (go q m) = go (also r q) m

  along : {s t : System} → Reach c cfg peer_ip s → Steps s t → Reach c cfg peer_ip t
  along r stay = r
  along r (go q m) = next (along r q) m

  quiet_caller : {s t : System} → CallerStep c cfg peer_ip s t → s.caller ≢ stopped
  quiet_caller (start host_is_ip e) h = cc
  quiet_caller (send opus e) h = cc
  quiet_caller (send_failed opus e) h = cc
  quiet_caller (lock_history fid pkt opus e free) h = cc
  quiet_caller (record_frame fid now pkt opus e) h = cc
  quiet_caller (store_id fid opus e) h = cc
  quiet_caller (add_octets opus e) h = cc
  quiet_caller (drop_stop_tx e) h = cc
  quiet_caller (join_reports e o) h = cc
  quiet_caller (join_nacks e j) h = cc

  quiet_reporter : {s t : System} → ReporterStep c cfg peer_ip s t → s.reporter ≢ over
  quiet_reporter (load_id i n e g) h = cc
  quiet_reporter (load_octets i n o e g) h = cc
  quiet_reporter (send_report n o now e) h = cc
  quiet_reporter (report_failed n o e) h = cc
  quiet_reporter (timed_out e g) h = cc
  quiet_reporter (disconnected e g) h = cc

  quiet_server : {s t : System} → ServerStep c cfg peer_ip s t → ¬ IsJoined s.server
  quiet_server (go_on i e g) j = rw e at j
  quiet_server (see_stop i e g) j = rw e at j
  quiet_server (receive_failed e) j = rw e at j
  quiet_server (from_stranger src_ip e g) j = rw e at j
  quiet_server (receive bytes e) j = rw e at j
  quiet_server (nothing_sent bytes e free g) j = rw e at j
  quiet_server (lock bytes now last_sent e free g) j = rw e at j
  quiet_server (serve answer now f ids e) j = rw e at j
  quiet_server (unlock now e) j = rw e at j

  -- Once `stop` has returned, no thread takes another step: nothing is sent any more.
  pub stop_quiet :
      {s t : System} → Reach c cfg peer_ip s → s.caller ≡ stopped → ¬ Step c cfg peer_ip s t
  stop_quiet r e (by_caller m) = quiet_caller m e
  stop_quiet r e (by_reporter m) =
      quiet_reporter m (place_at stopped e (Reach-IsRunning c cfg peer_ip r)).0
  stop_quiet r e (by_server m) =
      quiet_server m (place_at stopped e (Reach-IsRunning c cfg peer_ip r)).1

  -- The reporter ends, wherever it is, once the sender's end is gone.
  pause_over :
      (s : System)
      → s.reporter ≡ pausing
      → s.stop_held ≡ false
      → Steps s (record s { reporter = over })
  pause_over s e h = go stay (by_reporter (disconnected e h))

  report_over :
      (s : System) (v o : ℕ)
      → s.reporter ≡ has_both v o
      → s.stop_held ≡ false
      → Steps s (record s { reporter = over })
  report_over s v o e h =
      also (go stay (by_reporter (report_failed v o e)))
        (pause_over (record s { reporter = pausing }) refl h)

  id_over :
      (s : System) (v : ℕ)
      → s.reporter ≡ has_id v
      → s.stop_held ≡ false
      → 0 < length s.octet_counts
      → Steps s (record s { reporter = over })
  id_over s v e h some_total =
      let o = latest s.octet_counts in
      also (go stay (by_reporter (load_octets 0 v o e (first s.octet_counts some_total))))
        (report_over (record s { reporter = has_both v o }) v o refl h)

  reporter_over :
      (s : System) (r : Reporter)
      → s.reporter ≡ r
      → r ≢ unborn
      → s.stop_held ≡ false
      → IsRunning s
      → Steps s (record s { reporter = over })
  reporter_over s unborn e n h running = absurd (n refl)
  reporter_over s loading e n h running =
      let v = latest s.frame_ids in
      also (go stay (by_reporter (load_id 0 v e (first s.frame_ids running.has_id))))
        (id_over (record s { reporter = has_id v }) v refl h running.has_total)
  reporter_over s (has_id v) e n h running = id_over s v e h running.has_total
  reporter_over s (has_both v o) e n h running = report_over s v o e h
  reporter_over s pausing e n h running = pause_over s e h
  reporter_over s over e n h running = subst (λ r. Steps s (record s { reporter = r })) e stay

  -- From `s` the steps of `serve_nacks` alone lead to its end.
  abbrev CanEnd : System → Type 0
  CanEnd s =
      (sv : Server) × (h : History) × (w : List Datagram) × Steps s
        (record s { server = sv; history = h; wire = w })
      × IsJoined sv

  check_ends : (s : System) → s.server ≡ checking → get_elem? s.nack_stops 0 ≡ some true → CanEnd s
  check_ends s e g = (ended, s.history, s.wire, go stay (by_server (see_stop 0 e g)), tt)

  receive_ends :
      (s : System) → s.server ≡ receiving → get_elem? s.nack_stops 0 ≡ some true → CanEnd s
  receive_ends s e g =
      let (sv, h, w, steps, j) = check_ends (record s { server = checking }) refl g in
      (sv, h, w, also (go stay (by_server (receive_failed e))) steps, j)

  serving_ends :
      (ids : List ℕ) (s : System) (now : ℕ)
      → s.server ≡ serving now ids
      → get_elem? s.nack_stops 0 ≡ some true
      → CanEnd s
  serving_ends [] s now e g =
      let (sv, h, w, steps, j) = check_ends (record s { server = checking }) refl g in
      (sv, h, w, also (go stay (by_server (unlock now e))) steps, j)
  serving_ends (f ∷ ids) s now e g =
      let r = resend_frame now (one_frame s.history false) f in
      let s' : System = record s {
        server = serving now ids;
        history = r.history;
        wire = as_resent r.resent ++ s.wire;
      } in
      let (sv, h, w, steps, j) = serving_ends ids s' now refl g in
      (sv, h, w, also (go stay (by_server (serve false now f ids e))) steps, j)

  -- The lock of the history is free while `stop` waits.
  wanting_ends :
      (s : System) (bytes : List ℕ)
      → s.server ≡ wanting bytes
      → IsUnlockedBy s.caller
      → get_elem? s.nack_stops 0 ≡ some true
      → CanEnd s
  wanting_ends s bytes e free g = elim (Option-cases s.history.last_sent) [
    | inl nothing ↦
        let (sv, h, w, steps, j) = check_ends (record s { server = checking }) refl g in
        (sv, h, w, also (go stay (by_server (nothing_sent bytes e free nothing))) steps, j)
    | inr (last, some_last) ↦
        let ids = parse_nacked_frames bytes cfg.ssrc last in
        let (sv, h, w, steps, j) =
          serving_ends ids (record s { server = serving 0 ids }) 0 refl g in
        (sv, h, w, also (go stay (by_server (lock bytes 0 last e free some_last))) steps, j)
  ]

  server_ends :
      (s : System) (sv : Server)
      → s.server ≡ sv
      → IsUnlockedBy s.caller
      → get_elem? s.nack_stops 0 ≡ some true
      → CanEnd s
  server_ends s absent e free g = (s.server, s.history, s.wire, stay, rw e tt)
  server_ends s checking e free g = check_ends s e g
  server_ends s receiving e free g = receive_ends s e g
  server_ends s (wanting bytes) e free g = wanting_ends s bytes e free g
  server_ends s (serving now ids) e free g = serving_ends ids s now e g
  server_ends s ended e free g = (s.server, s.history, s.wire, stay, rw e tt)

  -- `stop` has begun, or begins, and has not returned.
  abbrev pub IsStopping : Caller → Type 0
  IsStopping idle = Unit
  IsStopping joining_reports = Unit
  IsStopping joining_nacks = Unit
  IsStopping _ = ⊥

  abbrev CanReturn : System → Type 0
  CanReturn s = (t : System) × Steps s t × (t.caller ≡ stopped)

  at_last_join : {s : System} → Reach c cfg peer_ip s → s.caller ≡ joining_nacks → CanReturn s
  at_last_join {s} r e =
      let (over_now, told) = place_at joining_nacks e (Reach-IsRunning c cfg peer_ip r) in
      let (sv, h, w, nacks, j) = server_ends s s.server refl (rw e tt) told in
      let t : System = record s { server = sv; history = h; wire = w } in
      (record t { caller = stopped }, go nacks (by_caller (join_nacks e j)), refl)

  at_first_join : {s : System} → Reach c cfg peer_ip s → s.caller ≡ joining_reports → CanReturn s
  at_first_join {s} r e =
      let running = Reach-IsRunning c cfg peer_ip r in
      let (born, dropped) = place_at joining_reports e running in
      let reports : Steps s (record s { reporter = over }) =
        reporter_over s s.reporter refl born dropped running in
      let joined = by_caller (join_reports e refl) in
      let (t, steps, returned) = at_last_join (next (along r reports) joined) refl in
      (t, also (go reports joined) steps, returned)

  at_begin : {s : System} → Reach c cfg peer_ip s → s.caller ≡ idle → CanReturn s
  at_begin {s} r e =
      let (t, steps, returned) = at_first_join (next r (by_caller (drop_stop_tx e))) refl in
      (t, also (go stay (by_caller (drop_stop_tx e))) steps, returned)

  -- From every reachable state in which `stop` begins or is under way, whatever the three threads have
  -- done so far, there are steps by which it returns: no interleaving leads it into a deadlock, with
  -- the lock of the history or with a join.
  pub stop_returns :
      {s : System}
      → Reach c cfg peer_ip s
      → IsStopping s.caller
      → (t : System) × Steps s t × (t.caller ≡ stopped)
  stop_returns {s} r h = by_place s.caller refl h
    where
      by_place : (k : Caller) → s.caller ≡ k → IsStopping k → CanReturn s
      by_place idle e h = at_begin r e
      by_place joining_reports e h = at_first_join r e
      by_place joining_nacks e h = at_last_join r e
      by_place _ e h = elim h [ ]
