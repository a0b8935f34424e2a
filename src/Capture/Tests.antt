-- ===== src/Capture/Tests.antt =====
-- The theorems on src/capture.rs at concrete inputs.
use chromecast_sink.Base.{ℕ, ◌+◌, refl, true, false, Option, none, some, List, [], ◌∷◌, replicate}
use chromecast_sink.Ring.{AudioRing}
use chromecast_sink.Rtp.Sender.{Cipher, CastRtpSender, new_sender}
use chromecast_sink.Capture.{Moment, Capture, run}
use chromecast_sink.Capture.Outages.{IsOutage, run-IsOutage}
use chromecast_sink.Capture.Backlog.{IsAccounted, run-IsAccounted}

-- Two bytes for every frame; the state counts the frames.
abbrev two_bytes : ℕ → List ℕ → ℕ × Option (List ℕ)
two_bytes n pcm = (n + 1, some (1 ∷ 2 ∷ []))

-- A key stream of zeros.
abbrev plain : Cipher
plain = record {
  apply_keystream = λ key nonce bytes. bytes;
  apply_twice = λ key nonce bytes. refl;
  length_kept = λ key nonce bytes. refl;
}

abbrev sender : CastRtpSender
sender = new_sender (record {
  chromecast_host = [];
  udp_port = 40_000;
  ssrc = 42;
  payload_type = 127;
  aes_key = replicate 16 1;
  aes_iv_mask = replicate 16 2;
})

-- 2000 frames wait.
abbrev ring : AudioRing
ring = record {
  buf = replicate 8 0;
  capacity = 4;
  channels = 2;
  sample_mask = 7;
  reserved = 2010;
  write = 2010;
  read = 10;
  closed = false;
}

abbrev fresh : Capture ℕ
fresh = record {
  ring = ring;
  sender = sender;
  encoder = 0;
  pcm = replicate 960 0;
  first_frame = none;
  frames = 0;
  dropped_total = 0;
  send_failures = 0;
  outage = none;
  calls = [];
}

-- Catches up, then a send that fails, then the end.
abbrev moments : List Moment
moments =
    record { stopped = false; writes = []; closed = false; now = 1; delivered = true }
    ∷ record { stopped = false; writes = []; closed = false; now = 2; delivered = false }
    ∷ record { stopped = true; writes = []; closed = false; now = 3; delivered = true }
    ∷ []

run-IsOutage_example : IsOutage (run two_bytes plain moments fresh)
run-IsOutage_example = run-IsOutage two_bytes plain moments fresh (refl, refl)

run-IsAccounted_example : IsAccounted 10 (run two_bytes plain moments fresh)
run-IsAccounted_example = run-IsAccounted two_bytes plain 10 moments fresh (refl, refl, refl)
