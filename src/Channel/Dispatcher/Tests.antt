-- ===== src/Channel/Dispatcher/Tests.antt =====
-- The clocks of the dispatcher of src/cast_channel.rs at a concrete silence.
use chromecast_sink.Base.{ℕ, ◌+◌, ◌≡◌, refl, true, false, Option, none, List, [], ◌∷◌, ◌++◌, arith}
use chromecast_sink.Channel.Utf8.{Text}
use chromecast_sink.Channel.Dispatcher.{ReadResult, would_block, bytes, Tick, Session, rounds}
use chromecast_sink.Channel.Dispatcher.Liveness.{silent_ends}

abbrev json_type : Text → Option Text
json_type s = none

abbrev tick : ReadResult → ℕ → Tick
tick read at = record {
  stopped = false;
  read = read;
  read_at = at;
  enqueued = [];
  disconnected = false;
  ping_checked_at = at + 1;
  ping_at = at + 2;
  live_at = at + 3;
}

abbrev begun : Session
begun = record {
  acc = [];
  last_ping = 0;
  last_rx = 0;
  stop = false;
  queue = [];
  answers = true ∷ true ∷ [];
  wire = [];
  forwarded = [];
}

abbrev quiet : List Tick
quiet = tick would_block 4_000_000_000 ∷ tick would_block 8_000_000_000 ∷ []

abbrev last_tick : Tick
last_tick = tick would_block 10_000_000_000

-- A byte that comes too late
abbrev too_late : List Tick
too_late = tick (bytes (0 ∷ [])) 10_050_000_000 ∷ []

silent_ends_example :
    rounds json_type [] (quiet ++ (last_tick ∷ too_late)) begun
    ≡ rounds json_type [] (quiet ++ (last_tick ∷ [])) begun
silent_ends_example =
    silent_ends json_type [] quiet last_tick too_late begun (refl, (refl, tt)) refl (omega arith)
