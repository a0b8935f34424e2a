-- ===== src/Rtp/Packet.antt =====
-- The packets of src/cast_rtp.rs as bytes: the AES nonce, the RTP packet and the RTCP sender report.
pub mod Nonce
pub mod View
use chromecast_sink.Base.{
  ℕ, ◌+◌, ◌*◌, ◌/◌, ◌%◌, ◌^◌, bit_and, bit_or, bit_xor, u8, u16, u32, u64, be16, be32, List, [],
  ◌∷◌, ◌++◌, replicate,
}

abbrev pub sample_rate : ℕ
sample_rate = 48_000

abbrev pub channels : ℕ
channels = 2

-- 10 ms of Opus.
abbrev pub opus_samples_per_frame : ℕ
opus_samples_per_frame = sample_rate / 100

abbrev pub ntp_epoch_offset_secs : ℕ
ntp_epoch_offset_secs = 2_208_988_800

pub record Config : Type 0 where
  pub chromecast_host : List ℕ
  pub udp_port : ℕ
  pub ssrc : ℕ
  pub payload_type : ℕ
  pub aes_key : List ℕ
  pub aes_iv_mask : List ℕ

-- `for (n, m) in nonce.iter_mut().zip(mask) { *n ^= m }`
pub xor_zip : List ℕ → List ℕ → List ℕ
xor_zip [] ms = []
xor_zip (n ∷ ns) [] = n ∷ ns
xor_zip (n ∷ ns) (m ∷ ms) = bit_xor n m ∷ xor_zip ns ms

pub nonce : Config → ℕ → List ℕ
nonce cfg frame_id = xor_zip (replicate 8 0 ++ (be32 frame_id ++ replicate 4 0)) cfg.aes_iv_mask

-- 12 bytes of RTP header, 7 bytes of Cast extension, and the encrypted frame.
pub build_packet : Config → List ℕ → ℕ → List ℕ
build_packet cfg encrypted frame_id =
    let m_pt = bit_or 0x80 (bit_and cfg.payload_type 0x7f) in
    let seq = u16 (bit_and frame_id 0xffff) in
    let ts = u32 (frame_id * opus_samples_per_frame) in
    let frame_id_u8 = u8 (bit_and frame_id 0xff) in
    0x80
    ∷ m_pt
    ∷ (be16 seq
        ++ (be32 ts
            ++ (be32 cfg.ssrc
                ++ (bit_or 0x80 0x40
                    ∷ frame_id_u8
                    ∷ (be16 0 ++ (be16 0 ++ (frame_id_u8 ∷ encrypted)))))))

-- A `Duration` since the Unix epoch.
pub record Duration : Type 0 where
  pub secs : ℕ
  pub subsec_nanos : ℕ

pub build_rtcp_sr_at : ℕ → ℕ → ℕ → Duration → List ℕ
build_rtcp_sr_at ssrc frame_id octet_count now =
    let ntp_sec = u32 (now.secs + ntp_epoch_offset_secs) in
    let ntp_frac = u32 (bit_and (now.subsec_nanos * 2 ^ 32 / 1_000_000_000) 0xffff_ffff) in
    let rtp_ts = u32 (frame_id * opus_samples_per_frame) in
    0x80
    ∷ 200
    ∷ (be16 6
        ++ (be32 ssrc
            ++ (be32 ntp_sec
                ++ (be32 ntp_frac ++ (be32 rtp_ts ++ (be32 frame_id ++ be32 (u32 octet_count)))))))
