-- ===== src/Rtp/History.antt =====
-- `History` of src/cast_rtp.rs: the packets sent last, in 120 slots. An `Instant` is a number of
-- nanoseconds.
pub mod Window
use chromecast_sink.Base.{
  ℕ, ◌+◌, ◌*◌, ◌%◌, ◌<◌, Option, none, some, List, get_or, set, replicate, ◌==◌, if◌then◌else◌,
}

abbrev pub history_frames : ℕ
history_frames = 120

pub record SentPacket : Type 0 where
  pub frame_id : ℕ
  pub packet : List ℕ
  pub sent_at : ℕ

pub record History : Type 0 where
  pub slots : List (Option SentPacket)
  pub last_sent : Option ℕ

unfoldable pub new : History
new = record { slots = replicate history_frames none; last_sent = none }

-- `.filter(|sent| sent.frame_id == frame_id)`
abbrev pub filter_id : ℕ → Option SentPacket → Option SentPacket
filter_id frame_id none = none
filter_id frame_id (some sent) = if sent.frame_id == frame_id then some sent else none

-- What the reference returned by `get_mut` reads. A slot index is always within the array.
unfoldable pub get_mut : History → ℕ → Option SentPacket
get_mut h frame_id = filter_id frame_id (get_or h.slots (frame_id % history_frames) none)

-- `now` is what `Instant::now()` returns. (`record` is a word of the language.)
unfoldable pub record_packet : History → ℕ → List ℕ → ℕ → History
record_packet h frame_id packet now = record {
  slots =
      set h.slots (frame_id % history_frames)
        (some (record { frame_id = frame_id; packet = packet; sent_at = now }));
  last_sent = some frame_id;
}

-- `sent.sent_at = now` through the reference that `get_mut` returned.
pub set_sent_at : History → SentPacket → ℕ → History
set_sent_at h sent now = record h {
  slots = set h.slots (sent.frame_id % history_frames) (some (record sent { sent_at = now }));
}
