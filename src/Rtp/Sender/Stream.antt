-- ===== src/Rtp/Sender/Stream.antt =====
-- What `send_frame` puts on the wire over a session, and what a receiver makes of it.
use mathlib.Core.Option
use mathlib.Core.Path.{ap₂}
use chromecast_sink.Base.{
  ℕ, ◌+◌, ◌%◌, ◌^◌, ◌<◌, ◌≡◌, refl, ap, Bool, Option, none, some, List, [], ◌∷◌, map, length, u32,
  u64, if◌then◌else◌, arith,
}
use chromecast_sink.Rtp.Packet.{Config, nonce, build_packet}
use chromecast_sink.Rtp.Packet.View.{read_rtp, read_rtp-build_packet}
use chromecast_sink.Rtp.Feedback.{expand_le}
use chromecast_sink.Rtp.Feedback.Expand.{expand_le_self}
use chromecast_sink.Rtp.Sender.{Cipher, CastRtpSender, encrypt, send_frame, snapshot}

-- A call of `send_frame`: the Opus frame, whether the socket takes it, and the time.
pub record Attempt : Type 0 where
  pub opus : List ℕ
  pub delivered : Bool
  pub now : ℕ

-- The calls in turn: the sender after them, and the datagrams that left.
pub send_all : Cipher → CastRtpSender → List Attempt → CastRtpSender × List (List ℕ)
send_all c s [] = (s, [])
send_all c s (a ∷ later) =
    let (s', out) = send_frame c s a.opus a.delivered a.now in
    let (s'', outs) = send_all c s' later in (s'', elim out [ none ↦ outs | some pkt ↦ pkt ∷ outs ])

-- The Opus frames whose send succeeded.
abbrev pub sent_frames : List Attempt → List (List ℕ)
sent_frames [] = []
sent_frames (a ∷ later) = if a.delivered then a.opus ∷ sent_frames later else sent_frames later

abbrev pub total_bytes : List (List ℕ) → ℕ
total_bytes [] = 0
total_bytes (f ∷ fs) = length f + total_bytes fs

-- The packets of frames numbered from `id` on, modulo 2^32.
abbrev pub packets_from : Cipher → Config → ℕ → List (List ℕ) → List (List ℕ)
packets_from c cfg id [] = []
packets_from c cfg id (f ∷ fs) =
    build_packet cfg (encrypt c cfg f id) id ∷ packets_from c cfg (u32 (id + 1)) fs

-- Over any calls, failed ones among them, the datagrams are the packets of the frames that were
-- sent, numbered without a gap, and the counters agree with them.
pub send_all_lem :
    (c : Cipher) (s : CastRtpSender) (calls : List Attempt)
    → s.frame_id < 2 ^ 32
    → s.octet_count < 2 ^ 64
    → ((send_all c s calls).1 ≡ packets_from c s.config s.frame_id (sent_frames calls))
      × (snapshot (send_all c s calls).0 ≡ (
        u32 (s.frame_id + length (sent_frames calls)),
        u64 (s.octet_count + total_bytes (sent_frames calls)),
      ))
unfolding send_all send_frame snapshot
send_all_lem c s [] hf ho = (refl, ground arith)
send_all_lem c s (a ∷ later) hf ho =
    ground (arith, send_all_lem c (send_frame c s a.opus a.delivered a.now).0 later)

-- A receiver that expects frame `next`: it reads the frame id behind the eight bits in the packet,
-- and decrypts the payload under that id.
abbrev pub play_one : Cipher → Config → ℕ → List ℕ → Option (List ℕ)
play_one c cfg next datagram =
    Option.map
      (λ v. c.apply_keystream cfg.aes_key (nonce cfg (expand_le next v.frame_id_low)) v.payload)
      (read_rtp datagram)

abbrev pub play : Cipher → Config → ℕ → List (List ℕ) → List (Option (List ℕ))
play c cfg next [] = []
play c cfg next (d ∷ ds) = play_one c cfg next d ∷ play c cfg (u32 (next + 1)) ds

play_one_lem :
    (c : Cipher) (cfg : Config) (id : ℕ) (f : List ℕ)
    → cfg.ssrc < 2 ^ 32
    → id < 2 ^ 32
    → play_one c cfg id (build_packet cfg (encrypt c cfg f id) id) ≡ some f
unfolding encrypt
play_one_lem c cfg id f hs hi =
    let same : expand_le id (id % 256) ≡ id = expand_le_self id hi in
    rw (read_rtp-build_packet cfg (encrypt c cfg f id) id hs, same)
      (ap some (c.apply_twice cfg.aes_key (nonce cfg id) f))

-- From the packets of a session, in order, a receiver recovers the Opus frames.
pub play-packets_from :
    (c : Cipher) (cfg : Config) (id : ℕ) (frames : List (List ℕ))
    → cfg.ssrc < 2 ^ 32
    → id < 2 ^ 32
    → play c cfg id (packets_from c cfg id frames) ≡ map some frames
unfolding encrypt
play-packets_from c cfg id [] hs hi = refl
play-packets_from c cfg id (f ∷ fs) hs hi =
    ap₂ ◌∷◌ (play_one_lem c cfg id f hs hi)
      (play-packets_from c cfg (u32 (id + 1)) fs hs (omega arith))
