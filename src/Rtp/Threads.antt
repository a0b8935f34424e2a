-- ===== src/Rtp/Threads.antt =====
-- The three threads of `CastRtpSender` of src/cast_rtp.rs over what they share: the caller's, which
-- sends frames, the one that `start` spawns for the sender reports, and the loop of `serve_nacks`.
-- A step is one access to the shared state, or one datagram. The atomics are relaxed: a load by
-- another thread may return any value stored so far. The client is src/pipeline.rs: `start` once,
-- then frames, then `stop`.
pub mod Wire
pub mod Invariant
pub mod Safety
pub mod KeyStream
pub mod Running
pub mod Stop
mod Tests
use chromecast_sink.Base.{
  ℕ, ◌+◌, ◌≡◌, ◌≢◌, Bool, true, false, Option, none, some, List, [], ◌∷◌, ◌++◌, map, length,
  get_elem?, u32, u64, if◌then◌else◌,
}
use chromecast_sink.Rtp.Packet.{Config, build_packet, Duration, build_rtcp_sr_at}
use chromecast_sink.Rtp.History.{History, new, record_packet}
use chromecast_sink.Rtp.Feedback.{parse_nacked_frames}
use chromecast_sink.Rtp.Sender.{Cipher, encrypt, Resending, resend_frame}

-- What left the socket: the packet of an Opus frame, a packet sent again with its frame id, and a
-- sender report with the counters that it was built from.
pub data Datagram : Type 0 where
  media : (opus bytes : List ℕ) → Datagram
  resent : (frame_id : ℕ) (bytes : List ℕ) → Datagram
  report : (frame_id octets : ℕ) (now : Duration) (bytes : List ℕ) → Datagram

-- Where the caller's thread stands: in `send_frame` with its locals, or in `stop`.
pub data Caller : Type 0 where
  fresh idle : Caller
  sent : (frame_id : ℕ) (packet opus : List ℕ) → Caller  -- `send_to` returned Ok
  -- it holds the lock of the history
  recording : (frame_id : ℕ) (packet opus : List ℕ) → Caller
  recorded : (frame_id : ℕ) (opus : List ℕ) → Caller
  counted : (opus : List ℕ) → Caller  -- the new frame id is stored
  joining_reports joining_nacks stopped : Caller

-- The thread of the sender reports.
pub data Reporter : Type 0 where
  unborn loading : Reporter
  has_id : (frame_id : ℕ) → Reporter
  has_both : (frame_id octets : ℕ) → Reporter
  pausing over : Reporter

-- The thread of `serve_nacks`: where it is `wanting`, it has a datagram of the receiver and waits for
-- the lock of the history; where it is `serving`, it holds the lock.
pub data Server : Type 0 where
  absent checking receiving : Server
  wanting : (bytes : List ℕ) → Server
  serving : (now : ℕ) (ids : List ℕ) → Server
  ended : Server

-- Of an atomic, the values stored so far, the latest first; of the socket, the datagrams, the latest
-- first. `stop_held` is whether `stop_tx` is still there.
pub record System : Type 0 where
  pub frame_ids : List ℕ
  pub octet_counts : List ℕ
  pub nack_stops : List Bool
  pub stop_held : Bool
  pub history : History
  pub wire : List Datagram
  pub caller : Caller
  pub reporter : Reporter
  pub server : Server

abbrev pub init : System
init = record {
  frame_ids = 0 ∷ [];
  octet_counts = 0 ∷ [];
  nack_stops = false ∷ [];
  stop_held = false;
  history = new;
  wire = [];
  caller = fresh;
  reporter = unborn;
  server = absent;
}

-- A thread's own last store.
abbrev pub latest : List ℕ → ℕ
latest [] = 0
latest (v ∷ vs) = v

-- That a thread does not hold the lock of the history.
abbrev pub IsUnlocked : Server → Type 0
IsUnlocked (serving now ids) = ⊥
IsUnlocked _ = Unit

abbrev pub IsUnlockedBy : Caller → Type 0
IsUnlockedBy (recording fid pkt opus) = ⊥
IsUnlockedBy _ = Unit

-- Whether `join` returns.
abbrev pub IsJoined : Server → Type 0
IsJoined absent = Unit
IsJoined ended = Unit
IsJoined _ = ⊥

-- `answer` is what `send_to` will say.
abbrev pub one_frame : History → Bool → Resending
one_frame h answer = record { history = h; answers = answer ∷ []; resent = [] }

abbrev pub as_resent : List (ℕ × List ℕ) → List Datagram
as_resent [] = []
as_resent ((f, bytes) ∷ rest) = resent f bytes ∷ as_resent rest

abbrev pub encrypted_packet : Cipher → Config → ℕ → List ℕ → List ℕ
encrypted_packet c cfg frame_id opus = build_packet cfg (encrypt c cfg opus frame_id) frame_id

module _ (c : Cipher) (cfg : Config) (peer_ip : ℕ) where
  -- The steps of the caller's thread.
  pub data CallerStep (s : System) : System → Type 0 where
    -- `start`; `host_is_ip` is whether the host parses as an address
    start :
        (host_is_ip : Bool)
        → s.caller ≡ fresh
        → CallerStep s (record s {
          caller = idle;
          stop_held = true;
          reporter = loading;
          server = if host_is_ip then checking else absent;
        })
    -- `send_frame`, to behind the `send_to`
    send :
        (opus : List ℕ)
        → s.caller ≡ idle
        → CallerStep s (
            let fid = latest s.frame_ids in
            let pkt = encrypted_packet c cfg fid opus in
            record s { caller = sent fid pkt opus; wire = media opus pkt ∷ s.wire })
    -- `send_to` failed, and `send_frame` returns
    send_failed : (opus : List ℕ) → s.caller ≡ idle → CallerStep s s
    -- `history.lock()`, which waits until the lock is free
    lock_history :
        (fid : ℕ) (pkt opus : List ℕ)
        → s.caller ≡ sent fid pkt opus
        → IsUnlocked s.server
        → CallerStep s (record s { caller = recording fid pkt opus })
    -- `record`, and the lock is given back
    record_frame :
        (fid now : ℕ) (pkt opus : List ℕ)
        → s.caller ≡ recording fid pkt opus
        → CallerStep s
            (record s { caller = recorded fid opus; history = record_packet s.history fid pkt now })
    store_id :
        (fid : ℕ) (opus : List ℕ)
        → s.caller ≡ recorded fid opus
        → CallerStep s (record s { caller = counted opus; frame_ids = u32 (fid + 1) ∷ s.frame_ids })
    add_octets :
        (opus : List ℕ)
        → s.caller ≡ counted opus
        → CallerStep s (record s {
          caller = idle;
          octet_counts = u64 (latest s.octet_counts + length opus) ∷ s.octet_counts;
        })
    -- `stop`: the end of `stop_tx`, the first join with the store behind it, and the second join
    drop_stop_tx :
        s.caller ≡ idle → CallerStep s (record s { caller = joining_reports; stop_held = false })
    join_reports :
        s.caller ≡ joining_reports
        → s.reporter ≡ over
        → CallerStep s (record s { caller = joining_nacks; nack_stops = true ∷ s.nack_stops })
    join_nacks :
        s.caller ≡ joining_nacks → IsJoined s.server → CallerStep s (record s { caller = stopped })

  -- The steps of the thread that sends the reports.
  pub data ReporterStep (s : System) : System → Type 0 where
    load_id :
        (i v : ℕ)
        → s.reporter ≡ loading
        → get_elem? s.frame_ids i ≡ some v
        → ReporterStep s (record s { reporter = has_id v })
    load_octets :
        (i v o : ℕ)
        → s.reporter ≡ has_id v
        → get_elem? s.octet_counts i ≡ some o
        → ReporterStep s (record s { reporter = has_both v o })
    send_report :
        (v o : ℕ) (now : Duration)
        → s.reporter ≡ has_both v o
        → ReporterStep s (record s {
          reporter = pausing;
          wire = report v o now (build_rtcp_sr_at cfg.ssrc v o now) ∷ s.wire;
        })
    report_failed :
        (v o : ℕ) → s.reporter ≡ has_both v o → ReporterStep s (record s { reporter = pausing })
    -- `recv_timeout`: nothing within 500 ms, or the sender's end is gone
    timed_out :
        s.reporter ≡ pausing → s.stop_held ≡ true → ReporterStep s (record s { reporter = loading })
    disconnected :
        s.reporter ≡ pausing → s.stop_held ≡ false → ReporterStep s (record s { reporter = over })

  -- The steps of the thread of `serve_nacks`.
  pub data ServerStep (s : System) : System → Type 0 where
    go_on :
        (i : ℕ)
        → s.server ≡ checking
        → get_elem? s.nack_stops i ≡ some false
        → ServerStep s (record s { server = receiving })
    see_stop :
        (i : ℕ)
        → s.server ≡ checking
        → get_elem? s.nack_stops i ≡ some true
        → ServerStep s (record s { server = ended })
    receive_failed : s.server ≡ receiving → ServerStep s (record s { server = checking })
    from_stranger :
        (src_ip : ℕ)
        → s.server ≡ receiving
        → src_ip ≢ peer_ip
        → ServerStep s (record s { server = checking })
    -- a datagram of the receiver
    receive :
        (bytes : List ℕ) → s.server ≡ receiving → ServerStep s (record s { server = wanting bytes })
    -- `history.lock()` waits until the lock is free; where nothing was sent so far, it is given back
    -- at once
    nothing_sent :
        (bytes : List ℕ)
        → s.server ≡ wanting bytes
        → IsUnlockedBy s.caller
        → s.history.last_sent ≡ none
        → ServerStep s (record s { server = checking })
    lock :
        (bytes : List ℕ) (now last_sent : ℕ)
        → s.server ≡ wanting bytes
        → IsUnlockedBy s.caller
        → s.history.last_sent ≡ some last_sent
        → ServerStep s
            (record s { server = serving now (parse_nacked_frames bytes cfg.ssrc last_sent) })
    -- one frame of the loop, with what `send_to` would answer
    serve :
        (answer : Bool) (now f : ℕ) (ids : List ℕ)
        → s.server ≡ serving now (f ∷ ids)
        → ServerStep s (
            let r = resend_frame now (one_frame s.history answer) f in
            record s {
              server = serving now ids;
              history = r.history;
              wire = as_resent r.resent ++ s.wire;
            })
    unlock : (now : ℕ) → s.server ≡ serving now [] → ServerStep s (record s { server = checking })

  pub data Step (s t : System) : Type 0 where
    by_caller : CallerStep s t → Step s t
    by_reporter : ReporterStep s t → Step s t
    by_server : ServerStep s t → Step s t

  -- Any interleaving from `CastRtpSender::new` on.
  pub data Reach : System → Type 0 where
    created : Reach init
    next : {s t : System} → Reach s → Step s t → Reach t
