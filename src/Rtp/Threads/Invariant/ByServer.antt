-- ===== src/Rtp/Threads/Invariant/ByServer.antt =====
-- The steps of the thread of `serve_nacks` keep the invariant.
use chromecast_sink.Base.{
  ℕ, ◌≡◌, refl, Bool, some, List, [], ◌∷◌, ◌++◌, All, inl, inr, arith, Option-cases,
}
use chromecast_sink.Rtp.Packet.{Config}
use chromecast_sink.Rtp.History.{History, SentPacket, get_mut}
use chromecast_sink.Rtp.Sender.{Cipher, Resending, resend_frame}
use chromecast_sink.Rtp.Sender.Resend.{IsBatch, resend_frame-IsBatch, WasDue}
use chromecast_sink.Rtp.Threads.{
  Datagram, System, checking, receiving, serving, ended, Server, ServerStep, go_on, see_stop,
  receive_failed, from_stranger, nothing_sent, receive, serve, unlock, one_frame, as_resent, lock,
}
use chromecast_sink.Rtp.Threads.Wire.{frames, WasSent, IsWire, frames-as_resent}
use chromecast_sink.Rtp.Threads.Invariant.{IsShared, IsSound, stays-IsSound}

module _ (c : Cipher) (cfg : Config) (peer_ip : ℕ) where
  -- The thread of `serve_nacks` goes on.
  server_goes :
      (s : System) (sv : Server) → IsSound c cfg s → IsSound c cfg (record s { server = sv })
  server_goes s sv v =
      stays-IsSound c cfg s s.caller s.nack_stops s.stop_held s.reporter sv v v.shared.caller
        v.shared.reporter

  resent_wired :
      (h : History) (now : ℕ) (again : List (ℕ × List ℕ)) (w : List Datagram)
      → ((f : ℕ) (p : SentPacket) → get_mut h f ≡ some p → WasSent c cfg f p.packet (frames w))
      → All (WasDue h now) again
      → IsWire c cfg w
      → IsWire c cfg (as_resent again ++ w)
  resent_wired h now [] w held due v = v
  resent_wired h now ((f, bytes) ∷ again) w held ((p, found, same, long), due) v =
      let copy : WasSent c cfg f bytes (frames w) = rw same at (held f p found) in
      (rw (frames-as_resent again w) copy, resent_wired h now again w held due v)

  -- The same packets are held behind a batch.
  same_held :
      (h : History) (now : ℕ) (r : Resending) (f : ℕ) (p : SentPacket)
      → IsBatch h now r
      → get_mut r.history f ≡ some p
      → (q : SentPacket) × (get_mut h f ≡ some q) × (q.packet ≡ p.packet)
  same_held h now r f p b e = elim (Option-cases (get_mut h f)) [
    | inl none_held ↦ absurd (ground (arith, b.kept f))
    | inr (q, found) ↦ (q, found, ground (arith, b.kept f))
  ]

  serve-IsSound :
      (s : System) (answer : Bool) (now f : ℕ) (ids : List ℕ)
      → IsSound c cfg s
      → let r = resend_frame now (one_frame s.history answer) f in
        IsSound c cfg (record s {
          server = serving now ids;
          history = r.history;
          wire = as_resent r.resent ++ s.wire;
        })
  serve-IsSound s answer now f ids v =
      let before : IsBatch s.history now (one_frame s.history answer) = record {
        sized = v.shared.sized;
        kept = λ g. refl;
        due = tt;
        distinct = tt;
      } in
      let r = resend_frame now (one_frame s.history answer) f in
      let b : IsBatch s.history now r = resend_frame-IsBatch s.history now _ f before in
      let t : System = record s {
        server = serving now ids;
        history = r.history;
        wire = as_resent r.resent ++ s.wire;
      } in
      let shared : IsShared c cfg (frames s.wire) t = record {
        ids = v.shared.ids;
        octets = v.shared.octets;
        caller = v.shared.caller;
        reporter = v.shared.reporter;
        sized = b.sized;
        held = λ g p e.
            let (q, found, same) = same_held s.history now r g p b e in
            rw same at (v.shared.held g q found);
      } in
      record {
        wired = resent_wired s.history now r.resent s.wire v.shared.held b.due v.wired;
        shared = rw (frames-as_resent r.resent s.wire) shared;
      }

  pub ServerStep-IsSound :
      {s t : System} → ServerStep c cfg peer_ip s t → IsSound c cfg s → IsSound c cfg t
  ServerStep-IsSound {s} (go_on i e h) v = server_goes s receiving v
  ServerStep-IsSound {s} (see_stop i e h) v = server_goes s ended v
  ServerStep-IsSound {s} (receive_failed e) v = server_goes s checking v
  ServerStep-IsSound {s} (from_stranger src_ip e h) v = server_goes s checking v
  ServerStep-IsSound {s} (receive bytes e) v = server_goes s _ v
  ServerStep-IsSound {s} (nothing_sent bytes e free h) v = server_goes s checking v
  ServerStep-IsSound {s} (lock bytes now last_sent e free h) v = server_goes s _ v
  ServerStep-IsSound {s} (serve answer now f ids e) v = serve-IsSound s answer now f ids v
  ServerStep-IsSound {s} (unlock now e) v = server_goes s checking v
