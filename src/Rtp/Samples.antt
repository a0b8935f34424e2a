-- ===== src/Rtp/Samples.antt =====
-- A configuration and a cipher, for tests of src/cast_rtp.rs.
use chromecast_sink.Base.{
  ℕ, ◌+◌, ◌*◌, ◌/◌, ◌%◌, ◌≡◌, refl, List, [], ◌∷◌, map, length, replicate, ◌==◌, if◌then◌else◌,
  arith,
}
use chromecast_sink.Rtp.Packet.{Config}
use chromecast_sink.Rtp.Sender.{Cipher}

abbrev pub config : Config
config = record {
  chromecast_host = [];
  udp_port = 40_000;
  ssrc = 42;
  payload_type = 127;
  aes_key = replicate 16 1;
  aes_iv_mask = 255 ∷ 1 ∷ 2 ∷ 3 ∷ 4 ∷ 5 ∷ 6 ∷ 7 ∷ 8 ∷ 9 ∷ 10 ∷ 11 ∷ 255 ∷ 255 ∷ 255 ∷ 255 ∷ [];
}

-- The lowest bit of every byte, flipped: a key stream of ones.
unfoldable pub flip : ℕ → ℕ
flip b = if b % 2 == 0 then b + 1 else b / 2 * 2

pub flip-flip : (b : ℕ) → flip (flip b) ≡ b
unfolding flip
flip-flip b = ground arith

pub flip_all-flip_all : (bs : List ℕ) → map flip (map flip bs) ≡ bs
flip_all-flip_all [] = refl
flip_all-flip_all (b ∷ bs) = rw (flip-flip b, flip_all-flip_all bs)

pub length-flip_all : (bs : List ℕ) → length (map flip bs) ≡ length bs
length-flip_all [] = refl
length-flip_all (b ∷ bs) = omega (arith, length-flip_all bs)

abbrev pub flipping : Cipher
flipping = record {
  apply_keystream = λ key nonce bytes. map flip bytes;
  apply_twice = λ key nonce bytes. flip_all-flip_all bytes;
  length_kept = λ key nonce bytes. length-flip_all bytes;
}
