-- ===== src/Loopback.antt =====
-- src/virtual_sink_windows.rs: the capture of a Windows playback device. Every COM call is the answer
-- that it gives.
pub mod Sample
pub mod Pump
pub mod Endpoint
pub mod Apartment
mod Tests
use chromecast_sink.Base.{
  ℕ, zero, suc, ◌+◌, ◌-◌, ◌*◌, ◌/◌, ◌%◌, ◌^◌, min, Bool, true, false, not, ◌&&◌, ◌||◌, Option, none,
  some, List, [], ◌∷◌, ◌++◌, length, replicate, ltb, leb, ◌==◌, if◌then◌else◌,
}
use chromecast_sink.Ring.{AudioRing, write_s16le, close}

-- `as i16` of a magnitude with its sign, which saturates; the 16-bit pattern.
pub saturate : Bool → ℕ → ℕ
saturate false n = min 32767 n
saturate true n = (65536 - min 32768 n) % 65536

-- The nearest integer to `mantissa / 2 ^ shift`, a half away from zero.
pub round : ℕ → ℕ → ℕ
round mantissa shift = (mantissa + 2 ^ (shift - 1)) / 2 ^ shift

-- `(x * 32768.0).round()` of a finite `x` by its exponent and fraction: the product is exact, x being
-- (2 ^ 23 + fraction) * 2 ^ (exponent - 150), and less than a half for a subnormal. From 2 ^ 23 on
-- any magnitude that saturates will do.
pub magnitude : ℕ → ℕ → ℕ
magnitude exponent fraction =
    if exponent == 0
    then 0
    else if ltb exponent 135
    then round (8_388_608 + fraction) (135 - exponent)
    else 8_388_608

-- By the sign, the exponent and the fraction; NaN becomes 0.
pub of_parts : Bool → ℕ → ℕ → ℕ
of_parts negative exponent fraction =
    if exponent == 255
    then (if fraction == 0 then saturate negative 32768 else 0)
    else saturate negative (magnitude exponent fraction)

-- `(f32::from_le_bytes(b) * 32768.0).round() as i16`
pub sample : ℕ → ℕ
sample bits = of_parts (leb 2_147_483_648 bits) (bits / 8_388_608 % 256) (bits % 8_388_608)

pub f32le_to_s16le : List ℕ → List ℕ
f32le_to_s16le (a ∷ b ∷ c ∷ d ∷ src) =
    let s = sample (a + b * 256 + c * 65536 + d * 16_777_216) in
    (s % 256) ∷ (s / 256) ∷ f32le_to_s16le src
f32le_to_s16le _ = []

-- What `GetBuffer` gives: the frames, whether they are flagged silent, and the bytes, none for a null
-- pointer.
pub record Packet : Type 0 where
  pub frames : ℕ
  pub silent : Bool
  pub bytes : Option (List ℕ)

-- `CHANNELS as usize * 4`
abbrev pub frame_bytes : ℕ
frame_bytes = 8

pub packet_pcm : Packet → List ℕ
packet_pcm p = elim p.bytes [
  | none ↦ replicate (p.frames * frame_bytes / 2) 0
  | some src ↦ if p.silent then replicate (p.frames * frame_bytes / 2) 0 else f32le_to_s16le src
]

-- A round of the inner loop, whose `GetNextPacketSize` is not 0: whether that succeeds, what
-- `GetBuffer` gives, none for an error, and whether `ReleaseBuffer` succeeds.
pub record Fetch : Type 0 where
  pub sized : Bool
  pub got : Option Packet
  pub released : Bool

-- The ring, and whether the loop ended without an error.
pub fetch_all : AudioRing → List Fetch → AudioRing × Bool
fetch_all r [] = (r, true)
fetch_all r (f ∷ fs) = elim f.got [
  | none ↦ (r, false)
  | some p ↦
      let written = write_s16le r (packet_pcm p) in
      let later = fetch_all written fs in
      if f.sized then (if f.released then later else (written, false)) else (r, false)
]

-- A round of the outer loop: the quit flag, the padding, none for an error, whether the silence that
-- keeps the device running can be written, and the packets.
pub record Poll : Type 0 where
  pub quit : Bool
  pub padding : Option ℕ
  pub silence_written : Bool
  pub fetches : List Fetch

-- `render_frames.saturating_sub(padding)` frames of silence, if any.
pub keep_alive : ℕ → Poll → Bool
keep_alive render_frames p = elim p.padding [
  | none ↦ false
  | some padding ↦ if ltb 0 (render_frames - padding) then p.silence_written else true
]

pub pump_capture : ℕ → AudioRing → List Poll → AudioRing × Bool
pump_capture render_frames r [] = (r, true)
pump_capture render_frames r (p ∷ ps) =
    let (fetched, well) = fetch_all r p.fetches in
    let later = pump_capture render_frames fetched ps in
    if p.quit
    then (r, true)
    else if not (keep_alive render_frames p)
    then (r, false)
    else if well
    then later
    else (fetched, false)

-- `entered` is whether COM and the interfaces can be used; the ring is closed in any case.
pub run_wasapi_thread : Bool → ℕ → AudioRing → List Poll → AudioRing
run_wasapi_thread entered render_frames r ps =
    close (if entered then (pump_capture render_frames r ps).0 else r)

-- `WAVEFORMATEX`, and what the clients are initialized with: 32-bit floats, 48 kHz, stereo.
-- `CHANNELS` and `SAMPLE_RATE` are arguments.
pub record WaveFormat : Type 0 where
  pub w_format_tag : ℕ
  pub n_channels : ℕ
  pub n_samples_per_sec : ℕ
  pub n_avg_bytes_per_sec : ℕ
  pub n_block_align : ℕ
  pub w_bits_per_sample : ℕ
  pub cb_size : ℕ

unfoldable pub float_format : ℕ → ℕ → WaveFormat
float_format channels sample_rate =
    let block_align = channels * 4 in
    record {
      w_format_tag = 3;
      n_channels = channels;
      n_samples_per_sec = sample_rate;
      n_avg_bytes_per_sec = sample_rate * block_align;
      n_block_align = block_align;
      w_bits_per_sample = 32;
      cb_size = 0;
    }
