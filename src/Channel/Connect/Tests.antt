-- ===== src/Channel/Connect/Tests.antt =====
-- The theorems on `connect` of src/cast_channel.rs at a concrete network.
use chromecast_sink.Base.{
  ◌≡◌, refl, true, false, Option, none, some, List, [], ◌∷◌, ◌++◌, codes, take, ◌==◌, if◌then◌else◌,
}
use chromecast_sink.Base.Result.{ok}
use chromecast_sink.Json.{Json}
use chromecast_sink.Channel.Utf8.{Text}
use chromecast_sink.Channel.Message.{CastMessage}
use chromecast_sink.Channel.Dispatcher.{Tick, end_of_file, bytes, dispatcher}
use chromecast_sink.Channel.Dispatcher.Forwarded.{rounds_read}
use chromecast_sink.Channel.Dispatcher.Outgoing.{of_caller, arrived}
use chromecast_sink.Channel.Dispatcher.Written.{Begins}
use chromecast_sink.Channel.Dispatcher.Delivered.{IsDelivered}
use chromecast_sink.Channel.Connect.{
  Network, connect_message, fresh_channel, fresh_session, find_stream, connect,
}
use chromecast_sink.Channel.Connect.Opened.{Outcome, connect-Outcome, connect-dispatcher}

-- Values as texts that are never taken apart
abbrev opaque : Json
opaque = record {
  Value = Text;
  from_str = λ s. some s;
  to_string = λ v. v;
  get = λ v key. none;
  pointer = λ v path. none;
  as_str = λ v. some v;
  as_u64 = λ v. none;
  as_array = λ v. none;
  string = λ s. s;
  number = λ n. n ∷ [];
  boolean = λ b. [];
  array = λ vs. [];
  object = λ fields. codes "{}";
}

abbrev id : Text
id = codes "sender-7"

-- The second of three addresses answers
abbrev network : Network
network = record {
  resolved = some (1 ∷ 2 ∷ 3 ∷ []);
  attempt = λ addr. if addr == 1 then some 111 else none;
  options_set = true;
  name_valid = true;
  client_made = true;
  handshaken = true;
  poll_set = true;
  connect_sent = true;
  now = 1000;
  write_answers = true ∷ true ∷ true ∷ [];
  taken = true ∷ true ∷ [];
}

connect-Outcome_example : Outcome network (connect opaque id network)
connect-Outcome_example = connect-Outcome opaque id network

opened :
    connect opaque id network
    ≡ ok (2, fresh_channel opaque id network, fresh_session opaque id network)
unfolding connect find_stream
opened = refl

abbrev launch : CastMessage
launch = record {
  source = id;
  destination = codes "receiver-0";
  namespace = codes "ns";
  payload = codes "{}";
}

abbrev ticks : List Tick
ticks =
    record {
      stopped = false;
      read = bytes (0 ∷ 0 ∷ []);
      read_at = 2000;
      enqueued = launch ∷ [];
      disconnected = false;
      ping_checked_at = 2001;
      ping_at = 2001;
      live_at = 2002;
    }
    ∷ record {
      stopped = false;
      read = end_of_file;
      read_at = 3000;
      enqueued = [];
      disconnected = false;
      ping_checked_at = 3001;
      ping_at = 3001;
      live_at = 3002;
    }
    ∷ []

abbrev json_type : Text → Option Text
json_type s = none

connect-dispatcher_example :
    let s = fresh_session opaque id network in
    let d = dispatcher json_type id ticks [] s in
    Begins (connect_message opaque id) d
    × IsDelivered d (
        connect_message opaque id
        ∷ (of_caller (arrived (take (rounds_read json_type id ticks s) ticks)) ++ of_caller []))
connect-dispatcher_example =
    connect-dispatcher opaque id json_type network 2 (fresh_channel opaque id network)
      (fresh_session opaque id network) ticks [] opened
