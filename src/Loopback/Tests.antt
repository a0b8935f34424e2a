-- ===== src/Loopback/Tests.antt =====
-- The theorems on src/virtual_sink_windows.rs at concrete inputs.
use chromecast_sink.Base.{ℕ, ◌≡◌, refl, false, [], ◌∷◌, map, arith}
use chromecast_sink.Loopback.{float_format, sample, of_parts, magnitude, round, saturate}
use chromecast_sink.Loopback.Sample.{IsNearest, float_bits, sample-IsNearest}

-- 0, -0, 1/2, -1, 1, 2, -2, NaN and 1.4 / 32768
sample_test :
    map sample (
      0 ∷ 0x8000_0000 ∷ 0x3f00_0000 ∷ 0xbf80_0000 ∷ 0x3f80_0000 ∷ 0x4000_0000 ∷ 0xc000_0000
      ∷ 0x7fc0_0000 ∷ 0x3833_3333 ∷ [])
    ≡ 0 ∷ 0 ∷ 16384 ∷ 32768 ∷ 32767 ∷ 32767 ∷ 32768 ∷ 0 ∷ 1 ∷ []
unfolding sample of_parts magnitude round saturate
sample_test = refl

-- One half
sample-IsNearest_example :
    (n : ℕ) × (sample (float_bits false 126 0) ≡ saturate false n) × IsNearest n 8_388_608 9
sample-IsNearest_example = sample-IsNearest false 126 0 (omega arith) (omega arith) (omega arith)

float_format_test : float_format 2 48_000 ≡ record {
  w_format_tag = 3;
  n_channels = 2;
  n_samples_per_sec = 48_000;
  n_avg_bytes_per_sec = 384_000;
  n_block_align = 8;
  w_bits_per_sample = 32;
  cb_size = 0;
}
unfolding float_format
float_format_test = refl
