-- ===== src/Rtp/Sender.antt =====
-- `CastRtpSender` of src/cast_rtp.rs: sending frames, and resending what the receiver misses.
-- The AES-CTR cipher is not part of the repository: it is a parameter. Instants and durations are
-- numbers of nanoseconds.
pub mod Stream
pub mod Resend
pub mod Due
use mathlib.Core.List.{foldl}
use chromecast_sink.Base.{
  next_answer, later_answers, ℕ, suc, ◌+◌, ◌-◌, ◌*◌, ◌%◌, ◌^◌, ◌≡◌, Bool, true, false, not, Option,
  none, some, List, [], ◌∷◌, ◌++◌, length, u32, u64, ltb, ◌==◌, if◌then◌else◌,
}
use chromecast_sink.Rtp.Packet.{Config, nonce, build_packet}
use chromecast_sink.Rtp.History.{History, SentPacket, new, get_mut, record_packet, set_sent_at}
use chromecast_sink.Rtp.Feedback.{parse_nacked_frames}

-- `Ctr128BE<Aes128>`: what `apply_keystream` makes of data under a key and a nonce. Being an
-- exclusive or with the key stream, it undoes itself and keeps the length.
pub record Cipher : Type 0 where
  pub apply_keystream : List ℕ → List ℕ → List ℕ → List ℕ
  pub apply_twice :
      (key nonce bytes : List ℕ)
      → apply_keystream key nonce (apply_keystream key nonce bytes) ≡ bytes
  pub length_kept :
      (key nonce bytes : List ℕ) → length (apply_keystream key nonce bytes) ≡ length bytes

-- The fields that carry state; the socket is not modelled, and of a thread only whether its handle is
-- held.
pub record CastRtpSender : Type 0 where
  pub config : Config
  pub frame_id : ℕ
  pub octet_count : ℕ
  pub history : History
  pub nack_stop : Bool
  pub rtcp_running : Bool
  pub nack_running : Bool

pub new_sender : Config → CastRtpSender
new_sender config = record {
  config = config;
  frame_id = 0;
  octet_count = 0;
  history = new;
  nack_stop = false;
  rtcp_running = false;
  nack_running = false;
}

-- `host_is_ip` is whether `self.dest.0.parse::<IpAddr>()` succeeds.
pub start : Bool → CastRtpSender → CastRtpSender
start host_is_ip s = record s {
  rtcp_running = true;
  nack_running = if host_is_ip then true else s.nack_running;
}

-- Both threads are joined; `nack_stop` ends the loop of the second.
pub stop : CastRtpSender → CastRtpSender
stop s = record s { nack_stop = true; rtcp_running = false; nack_running = false }

pub drop_sender : CastRtpSender → CastRtpSender
drop_sender s = if s.rtcp_running then stop s else s

pub snapshot : CastRtpSender → ℕ × ℕ
snapshot s = (s.frame_id, s.octet_count)

unfoldable pub encrypt : Cipher → Config → List ℕ → ℕ → List ℕ
encrypt c cfg bytes frame_id = c.apply_keystream cfg.aes_key (nonce cfg frame_id) bytes

-- `delivered` is whether `send_to` succeeds. The datagram that left the host is returned, `none`
-- for the error.
unfoldable pub send_frame :
    Cipher → CastRtpSender → List ℕ → Bool → ℕ → CastRtpSender × Option (List ℕ)
send_frame c s opus_frame delivered now =
    let fid = s.frame_id in
    let pkt = build_packet s.config (encrypt c s.config opus_frame fid) fid in
    if delivered
    then (
      record s {
        history = record_packet s.history fid pkt now;
        frame_id = u32 (fid + 1);
        octet_count = u64 (s.octet_count + length opus_frame);
      },
      some pkt,
    )
    else (s, none)

abbrev pub min_resend_interval : ℕ
min_resend_interval = 20_000_000

-- The loop over NACKed frames: the history, what the coming calls of `send_to` will answer (an
-- error, past the end), and the datagrams resent so far, with their frame ids.
pub record Resending : Type 0 where
  pub history : History
  pub answers : List Bool
  pub resent : List (ℕ × List ℕ)

abbrev pub try_send : ℕ → Resending → ℕ → SentPacket → Resending
try_send now r frame_id sent =
    if next_answer r.answers
    then record {
      history = set_sent_at r.history sent now;
      answers = later_answers r.answers;
      resent = (frame_id, sent.packet) ∷ r.resent;
    }
    else record r { answers = later_answers r.answers }

-- `now.duration_since(sent.sent_at)` is 0 where `sent_at` is later.
unfoldable pub resend_frame : ℕ → Resending → ℕ → Resending
resend_frame now r frame_id = elim (get_mut r.history frame_id) [
  | none ↦ r
  | some sent ↦
      if ltb (now - sent.sent_at) min_resend_interval then r else try_send now r frame_id sent
]

-- One datagram in the loop of `serve_nacks`. An IP address is a number.
pub serve_datagram : ℕ → ℕ → ℕ → ℕ → List ℕ → Resending → Resending
serve_datagram peer_ip ssrc now src_ip bytes r =
    if not (src_ip == peer_ip) then r else elim r.history.last_sent [
      | none ↦ r
      | some last_sent ↦ foldl (resend_frame now) r (parse_nacked_frames bytes ssrc last_sent)
    ]
