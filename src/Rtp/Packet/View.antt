-- ===== src/Rtp/Packet/View.antt =====
-- What a receiver reads in the packets of src/cast_rtp.rs: an independent reading of RTP (RFC 3550)
-- with the Cast extension, and of the RTCP sender report.
use chromecast_sink.Base.{
  ℕ, ◌+◌, ◌*◌, ◌/◌, ◌%◌, ◌^◌, ◌≤◌, ◌<◌, ◌≡◌, refl, bit_and, from_be16, from_be32, ◌&&◌, ◌==◌,
  if◌then◌else◌, Option, none, some, List, [], ◌∷◌, length, arith,
}
use chromecast_sink.Base.Bits.{bit_and-mask, bit_or-shifted, bit_or_comm}
use chromecast_sink.Rtp.Packet.{Config, build_packet, Duration, build_rtcp_sr_at}

pub record RtpView : Type 0 where
  pub version : ℕ
  pub marker : ℕ
  pub payload_type : ℕ
  pub sequence : ℕ
  pub timestamp : ℕ
  pub ssrc : ℕ
  pub key_frame : ℕ
  pub has_reference : ℕ
  pub frame_id_low : ℕ
  pub packet_id : ℕ
  pub max_packet_id : ℕ
  pub reference_low : ℕ
  pub payload : List ℕ

-- 19 bytes of headers, then the payload.
abbrev pub read_rtp : List ℕ → Option RtpView
read_rtp
      (b0 ∷ b1 ∷ s0 ∷ s1 ∷ t0 ∷ t1 ∷ t2 ∷ t3 ∷ c0 ∷ c1 ∷ c2 ∷ c3 ∷ x ∷ f ∷ p0 ∷ p1 ∷ q0 ∷ q1 ∷ r
        ∷ rest) =
    some (record {
      version = b0 / 64;
      marker = b1 / 128;
      payload_type = b1 % 128;
      sequence = from_be16 s0 s1;
      timestamp = from_be32 t0 t1 t2 t3;
      ssrc = from_be32 c0 c1 c2 c3;
      key_frame = x / 128;
      has_reference = x / 64 % 2;
      frame_id_low = f;
      packet_id = from_be16 p0 p1;
      max_packet_id = from_be16 q0 q1;
      reference_low = r;
      payload = rest;
    })
read_rtp _ = none

-- A receiver reads back every field: version 2, the marker, the payload type, the low bits of the
-- frame id as sequence number and frame id, the timestamp at 480 samples a frame, one packet to the
-- frame, the frame as its own reference, and the payload.
pub read_rtp-build_packet :
    (cfg : Config) (encrypted : List ℕ) (frame_id : ℕ)
    → cfg.ssrc < 2 ^ 32
    → read_rtp (build_packet cfg encrypted frame_id)
      ≡ some (record {
        version = 2;
        marker = 1;
        payload_type = cfg.payload_type % 128;
        sequence = frame_id % 2 ^ 16;
        timestamp = frame_id * 480 % 2 ^ 32;
        ssrc = cfg.ssrc;
        key_frame = 1;
        has_reference = 1;
        frame_id_low = frame_id % 256;
        packet_id = 0;
        max_packet_id = 0;
        reference_low = frame_id % 256;
        payload = encrypted;
      })
unfolding build_packet
read_rtp-build_packet cfg encrypted frame_id h = ground (
  arith,
  bit_and-mask 7 cfg.payload_type 0x7f refl,
  bit_and-mask 16 frame_id 0xffff refl,
  bit_and-mask 8 frame_id 0xff refl,
  bit_or_comm 0x80 (bit_and cfg.payload_type 0x7f),
  bit_or-shifted 7 1 (bit_and cfg.payload_type 0x7f)
      (omega (arith, bit_and-mask 7 cfg.payload_type 0x7f refl)),
)

-- A packet is 19 bytes longer than the encrypted frame.
pub length-build_packet :
    (cfg : Config) (encrypted : List ℕ) (frame_id : ℕ)
    → length (build_packet cfg encrypted frame_id) ≡ 19 + length encrypted
unfolding build_packet
length-build_packet cfg encrypted frame_id = omega arith

pub record SrView : Type 0 where
  pub ssrc : ℕ
  pub ntp_sec : ℕ
  pub ntp_frac : ℕ
  pub rtp_ts : ℕ
  pub packet_count : ℕ
  pub octet_count : ℕ

-- A sender report with no reception blocks: 28 bytes, version 2, type 200, length 6.
abbrev pub read_sr : List ℕ → Option SrView
read_sr
      (b0 ∷ b1 ∷ l0 ∷ l1 ∷ s0 ∷ s1 ∷ s2 ∷ s3 ∷ n0 ∷ n1 ∷ n2 ∷ n3 ∷ f0 ∷ f1 ∷ f2 ∷ f3 ∷ t0 ∷ t1 ∷ t2
        ∷ t3 ∷ p0 ∷ p1 ∷ p2 ∷ p3 ∷ o0 ∷ o1 ∷ o2 ∷ o3 ∷ []) =
    if b0 == 0x80 && (b1 == 200 && from_be16 l0 l1 == 6)
    then some (record {
      ssrc = from_be32 s0 s1 s2 s3;
      ntp_sec = from_be32 n0 n1 n2 n3;
      ntp_frac = from_be32 f0 f1 f2 f3;
      rtp_ts = from_be32 t0 t1 t2 t3;
      packet_count = from_be32 p0 p1 p2 p3;
      octet_count = from_be32 o0 o1 o2 o3;
    })
    else none
read_sr _ = none

-- A receiver reads in the report: the SSRC, the wall clock in NTP form (seconds since 1900 modulo
-- 2^32, and the fraction of a second in units of 2^-32, rounded down), the timestamp of the next
-- frame, the number of frames sent as the packet count, and the octet count modulo 2^32.
pub read_sr-build_rtcp_sr_at :
    (ssrc frame_id octet_count : ℕ) (now : Duration)
    → ssrc < 2 ^ 32
    → frame_id < 2 ^ 32
    → now.subsec_nanos < 1_000_000_000
    → (frac : ℕ) × (read_sr (build_rtcp_sr_at ssrc frame_id octet_count now)
        ≡ some (record {
          ssrc = ssrc;
          ntp_sec = (now.secs + 2_208_988_800) % 2 ^ 32;
          ntp_frac = frac;
          rtp_ts = frame_id * 480 % 2 ^ 32;
          packet_count = frame_id;
          octet_count = octet_count % 2 ^ 32;
        }))
      × (frac * 1_000_000_000 ≤ now.subsec_nanos * 2 ^ 32)
      × (now.subsec_nanos * 2 ^ 32 < (frac + 1) * 1_000_000_000)
unfolding build_rtcp_sr_at
read_sr-build_rtcp_sr_at ssrc frame_id octet_count now hs hf hn = (
  now.subsec_nanos * 2 ^ 32 / 1_000_000_000,
  ground (arith, bit_and-mask 32 (now.subsec_nanos * 2 ^ 32 / 1_000_000_000) 0xffff_ffff refl),
  omega arith,
  omega arith,
)
