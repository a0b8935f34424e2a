-- ===== src/Rtp/Threads/Tests.antt =====
-- The theorems on the threads of src/cast_rtp.rs at concrete runs.
use chromecast_sink.Base.{ℕ, ap, ◌≡◌, refl, true, some, List, [], ◌∷◌, All, arith}
use chromecast_sink.Rtp.Samples.{config, flipping}
use chromecast_sink.Rtp.Feedback.{expand_le, parse_nacked_frames}
use chromecast_sink.Rtp.Feedback.Compound.{Block, feedback, compound, IsBlock}
use chromecast_sink.Rtp.Feedback.Parse.{parse_nacked_frames-compound}
use chromecast_sink.Rtp.History.{get_mut, record_packet, new}
use chromecast_sink.Rtp.Sender.{resend_frame}
use chromecast_sink.Rtp.Threads
use chromecast_sink.Rtp.Threads.{
  System, media, resent, stopped, init, Caller, Reporter, loading, checking, receiving, serving,
  Server, Reach, created, next, Step, by_caller, by_reporter, by_server, send, record_frame,
  lock_history, lock, IsUnlockedBy, store_id, add_octets, drop_stop_tx, join_reports, join_nacks,
  load_id, load_octets, send_report, disconnected, go_on, see_stop, receive, serve,
  encrypted_packet,
}
use chromecast_sink.Rtp.Threads.Wire.{IsWire}
use chromecast_sink.Rtp.Threads.Safety.{Reach-IsWire}
use chromecast_sink.Rtp.Threads.KeyStream.{IsEncrypted, AllApart, key_stream_once}
use chromecast_sink.Rtp.Threads.Stop.{Steps, stop_quiet, stop_returns}

abbrev Run : Type 0
Run = (s : System) × Reach flipping config 7 s

abbrev later : (r : Run) {t : System} → Step flipping config 7 r.0 t → Run
later r {t} m = (t, next r.1 m)

abbrev opus : List ℕ
opus = 1 ∷ 2 ∷ 3 ∷ []

abbrev packet : List ℕ
packet = encrypted_packet flipping config 0 opus

abbrev started : Run
started = later (init, created) (by_caller (Threads.start true refl))

-- One frame, all of `send_frame`
abbrev sent_one : Run
sent_one =
    later
      (later
        (later
          (later (later started (by_caller (send opus refl)))
            (by_caller (lock_history 0 packet opus refl tt)))
          (by_caller (record_frame 0 10 packet opus refl)))
        (by_caller (store_id 0 opus refl)))
      (by_caller (add_octets opus refl))

-- The receiver misses frame 0
abbrev missed : List Block
missed =
    feedback (record {
      receiver_ssrc = 9;
      sender_ssrc = 42;
      checkpoint_low = 255;
      delay = 400;
      losses = record { frame_low = 0; packet_id = 0; bits = 0 } ∷ [];
    })
    ∷ []

missed-IsBlock : All IsBlock missed
missed-IsBlock = omega arith

named_ids : parse_nacked_frames (compound missed) 42 0 ≡ 0 ∷ []
unfolding expand_le
named_ids = parse_nacked_frames-compound 42 0 missed missed-IsBlock

last_sent_0 : sent_one.0.history.last_sent ≡ some 0
unfolding record_packet
last_sent_0 = refl

-- Its feedback arrives 30 ms later
abbrev nacked : Run
nacked =
    later
      (later (later sent_one (by_server (go_on 0 refl refl)))
        (by_server (receive (compound missed) refl)))
      (by_server (lock (compound missed) 30_000_000 0 refl tt last_sent_0))

abbrev resent_one : Run
resent_one =
    later nacked (by_server (serve true 30_000_000 0 [] (ap (serving 30_000_000) named_ids)))

-- A report between
abbrev reported : Run
reported =
    later
      (later (later resent_one (by_reporter (load_id 0 1 refl refl)))
        (by_reporter (load_octets 1 1 0 refl refl)))
      (by_reporter (send_report 1 0 (record { secs = 5; subsec_nanos = 0 }) refl))

Reach-IsWire_example : IsWire flipping config reported.0.wire
Reach-IsWire_example = Reach-IsWire flipping config 7 reported.1

resent_packet : resent_one.0.wire ≡ resent 0 packet ∷ media opus packet ∷ []
unfolding resend_frame get_mut record_packet new
resent_packet = refl

key_stream_once_example :
    (ids : List ℕ) × IsEncrypted flipping config ids resent_one.0.wire × AllApart config ids
key_stream_once_example =
    key_stream_once flipping config 7 resent_one.1 (rw resent_packet (omega arith)) refl
      (omega arith)

abbrev quiet : Run
quiet =
    later
      (later
        (later
          (later
            (later
              (later
                (later (later started (by_caller (drop_stop_tx refl)))
                  (by_reporter (load_id 0 0 refl refl)))
                (by_reporter (load_octets 0 0 0 refl refl)))
              (by_reporter (send_report 0 0 (record { secs = 5; subsec_nanos = 0 }) refl)))
            (by_reporter (disconnected refl refl)))
          (by_caller (join_reports refl refl)))
        (by_server (see_stop 0 refl refl)))
      (by_caller (join_nacks refl tt))

stop_quiet_example : ¬ Step flipping config 7 quiet.0 quiet.0
stop_quiet_example = stop_quiet flipping config 7 quiet.1 refl

-- `stop` has begun while the server waits for the lock
abbrev waiting : Run
waiting =
    later
      (later (later sent_one (by_server (go_on 0 refl refl)))
        (by_server (receive (compound missed) refl)))
      (by_caller (drop_stop_tx refl))

stop_returns_example : (t : System) × Steps flipping config 7 waiting.0 t × (t.caller ≡ stopped)
stop_returns_example = stop_returns flipping config 7 waiting.1 tt
