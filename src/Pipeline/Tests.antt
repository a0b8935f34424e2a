-- ===== src/Pipeline/Tests.antt =====
-- The theorems on src/pipeline.rs at concrete inputs.
use chromecast_sink.Base.{
  ◌≡◌, refl, true, false, Option, none, some, List, [], ◌∷◌, codes, ◌↔◌, ◌++◌, ◌∙◌, sym, take, drop,
  replicate,
}
use chromecast_sink.Base.Result.{ok, err}
use chromecast_sink.Channel.Dispatcher.{
  would_block, Tick, Session, take_read, round, handle_frames, frames_loop, drain, heartbeat,
  dispatcher,
}
use chromecast_sink.Channel.Dispatcher.Forwarded.{rounds_read}
use chromecast_sink.Channel.Dispatcher.Written.{Begins}
use chromecast_sink.Channel.Dispatcher.Delivered.{IsDelivered}
use chromecast_sink.Channel.Dispatcher.Outgoing.{arrived}
use chromecast_sink.Channel.Connect.{Network, connect_message, fresh_session, find_stream, connect}
use chromecast_sink.Pipeline.Conversation.{conversation}
use chromecast_sink.Channel.Utf8.{Text}
use chromecast_sink.Channel.Message.{CastMessage}
use chromecast_sink.Channel.Handle.{ns_receiver, ns_connection}
use chromecast_sink.Mirroring.{timed_out}
use chromecast_sink.Pipeline.{trouble}
use chromecast_sink.Pipeline.Held.{nothing_held, follow}
use chromecast_sink.Pipeline.Tidy.{run_with_device-follow}
use chromecast_sink.Pipeline.Transcript.{fresh_channel, transcript, run_with_device-outbound}
use chromecast_sink.Pipeline.Monitor.{
  closed_by_receiver, session_monitor, HasClose, session_monitor-closed,
}
use chromecast_sink.Pipeline.Samples.{
  status_json, too_late, in_time, answers, speaker, its, final_world, ran, is_launched, is_late,
  is_over,
}

run_with_device-follow_example :
    follow (some nothing_held) (final_world in_time).events ≡ some nothing_held
run_with_device-follow_example =
    run_with_device-follow status_json (codes "me") (λ bytes. bytes) speaker (answers in_time)
      (final_world in_time) (ok tt) (ran in_time) is_over

run_with_device-outbound_example :
    (final_world too_late).control.channel.outbound
    ≡ transcript status_json (codes "me") (λ bytes. bytes) speaker (answers too_late) its
run_with_device-outbound_example =
    run_with_device-outbound status_json (codes "me") (λ bytes. bytes) speaker (answers too_late)
      its (final_world too_late) (err (trouble timed_out)) refl refl (is_launched too_late)
      (ran too_late) is_late

-- The first address answers
abbrev network : Network
network = record {
  resolved = some (9 ∷ []);
  attempt = λ addr. none;
  options_set = true;
  name_valid = true;
  client_made = true;
  handshaken = true;
  poll_set = true;
  connect_sent = true;
  now = 0;
  write_answers = replicate 6 true;
  taken = replicate 6 true;
}

abbrev first_session : Session
first_session = fresh_session status_json (codes "me") network

is_open : connect status_json (codes "me") network ≡ ok (9, fresh_channel, first_session)
unfolding connect find_stream
is_open = refl

abbrev said : List CastMessage
said = transcript status_json (codes "me") (λ bytes. bytes) speaker (answers too_late) its

-- A round in which nothing is read and all but the last message are there
abbrev ticks : List Tick
ticks =
    record {
      stopped = false;
      read = would_block;
      read_at = 1;
      enqueued = take 5 said;
      disconnected = false;
      ping_checked_at = 2;
      ping_at = 2;
      live_at = 3;
    }
    ∷ []

abbrev no_type : Text → Option Text
no_type payload = none

all_arrive :
    arrived (take (rounds_read no_type (codes "me") ticks first_session) ticks) ++ drop 5 said
    ≡ said
unfolding take_read round handle_frames frames_loop drain heartbeat
all_arrive = refl

conversation_example :
    let d = dispatcher no_type (codes "me") ticks (drop 5 said) first_session in
    Begins (connect_message status_json (codes "me")) d
    × IsDelivered d (connect_message status_json (codes "me") ∷ said)
conversation_example =
    conversation status_json (codes "me") (λ bytes. bytes) no_type network 9 fresh_channel
      first_session speaker (answers too_late) its (final_world too_late) (err (trouble timed_out))
      ticks (drop 5 said) is_open refl refl refl (is_launched too_late) (ran too_late) is_late
      (all_arrive ∙ sym run_with_device-outbound_example)

-- A message of no concern, and a CLOSE
abbrev heard : List CastMessage
heard =
    record {
      source = codes "receiver-0";
      destination = codes "me";
      namespace = ns_receiver;
      payload = codes "{status}";
    }
    ∷ record {
      source = codes "t";
      destination = codes "me";
      namespace = ns_connection;
      payload = codes "{close}";
    }
    ∷ []

session_monitor-closed_example :
    ((session_monitor status_json (codes "me") (codes "t") heard false).1 ≡ some closed_by_receiver)
    ↔ ((false ≡ false) × HasClose status_json (codes "me") (codes "t") heard)
session_monitor-closed_example =
    session_monitor-closed status_json (codes "me") (codes "t") heard false
