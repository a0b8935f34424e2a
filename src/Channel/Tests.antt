-- ===== src/Channel/Tests.antt =====
-- The theorems on src/cast_channel.rs at concrete inputs.
use mathlib.Core.List.{foldl}
use chromecast_sink.Base.{
  Option, take, same_text, if◌then◌else◌, true, ℕ, ◌≡◌, refl, none, some, false, List, [], ◌∷◌,
  ◌++◌, All, arith,
}
use chromecast_sink.Channel.Utf8.{Text}
use chromecast_sink.Channel.Frame.{message_bytes}
use chromecast_sink.Channel.Dispatcher.{
  ns_heartbeat, ping_type, ping_payload, bytes, would_block, end_of_file, Tick, Session, rounds,
}
use chromecast_sink.Channel.Dispatcher.Incoming.{all_for_caller}
use chromecast_sink.Channel.Dispatcher.Forwarded.{reads, rounds_read, rounds-receive}
use chromecast_sink.Base.Result.{ok, err}
use chromecast_sink.Channel.Error.{unfinished}
use chromecast_sink.Channel.Varint.{read_varint, read_varint_loop}
use chromecast_sink.Channel.Varint.Read.{read_varint-append}
use chromecast_sink.Channel.Utf8.{is_utf8}
use chromecast_sink.Channel.Message.{
  CastMessage, empty_message, encode_cast_message, decode_cast_message,
}
use chromecast_sink.Channel.Message.Fields.{
  Field, number, chunk, IsField, encode_fields, apply_field, decode_cast_message-encode_fields,
}
use chromecast_sink.Channel.Message.RoundTrip.{IsSendable, decode_cast_message-encode_cast_message}
use chromecast_sink.Channel.Message.Total.{decode_cast_message-ne-unfinished}
use chromecast_sink.Channel.Frame.{frame, take_frame, receive}
use chromecast_sink.Channel.Frame.Laws.{take_frame-frame}
use chromecast_sink.Channel.Frame.Stream.{receive-frames}

-- "s", "é", "ns", "{}"
abbrev hello : CastMessage
hello = record {
  source = 0x73 ∷ [];
  destination = 0xc3 ∷ 0xa9 ∷ [];
  namespace = 0x6e ∷ 0x73 ∷ [];
  payload = 0x7b ∷ 0x7d ∷ [];
}

hello-IsSendable : IsSendable hello
unfolding is_utf8
hello-IsSendable = record {
  source_string = (refl, omega arith);
  destination_string = (refl, omega arith);
  namespace_string = (refl, omega arith);
  payload_string = (refl, omega arith);
}

decode_cast_message-encode_cast_message_example :
    decode_cast_message (encode_cast_message hello) ≡ ok hello
decode_cast_message-encode_cast_message_example =
    decode_cast_message-encode_cast_message hello hello-IsSendable

-- An unknown number, the source twice, an unknown tag.
abbrev odd_fields : List Field
odd_fields = number 9 300 ∷ chunk 2 (0x61 ∷ []) ∷ chunk 7 (1 ∷ 2 ∷ []) ∷ chunk 2 (0x62 ∷ []) ∷ []

odd_fields-IsField : All IsField odd_fields
odd_fields-IsField = omega arith

decode_cast_message-encode_fields_example :
    decode_cast_message (encode_fields odd_fields) ≡ ok (foldl apply_field empty_message odd_fields)
decode_cast_message-encode_fields_example =
    decode_cast_message-encode_fields odd_fields odd_fields-IsField

-- A field that ends in the middle.
decode_cast_message-ne-unfinished_example :
    ¬ (decode_cast_message (0x12 ∷ 0x05 ∷ 0x61 ∷ []) ≡ err unfinished)
decode_cast_message-ne-unfinished_example =
    decode_cast_message-ne-unfinished (0x12 ∷ 0x05 ∷ 0x61 ∷ [])

-- 300, and a byte behind it
abbrev three_hundred : List ℕ
three_hundred = 0xac ∷ 0x02 ∷ 9 ∷ []

abbrev nine : List ℕ
nine = 9 ∷ []

read-three_hundred : read_varint three_hundred ≡ ok (300, nine)
unfolding read_varint read_varint_loop
read-three_hundred = refl

read_varint-append_example : read_varint (three_hundred ++ (5 ∷ [])) ≡ ok (300, 9 ∷ 5 ∷ [])
read_varint-append_example =
    read_varint-append three_hundred (5 ∷ []) 300 (9 ∷ []) read-three_hundred

abbrev two_bodies : List (List ℕ)
two_bodies = (10 ∷ 11 ∷ []) ∷ [] ∷ []

-- The two frames, cut inside a length and inside a body.
abbrev split_reads : List (List ℕ)
split_reads = (0 ∷ 0 ∷ []) ∷ (0 ∷ 2 ∷ 10 ∷ []) ∷ (11 ∷ 0 ∷ 0 ∷ 0 ∷ 0 ∷ []) ∷ []

receive-frames_example :
    receive split_reads [] ≡ record { bodies = two_bodies; left = []; broken = false }
receive-frames_example = receive-frames split_reads two_bodies (omega arith) refl

abbrev one_byte : List ℕ
one_byte = 0 ∷ []

nothing_yet : take_frame one_byte ≡ ok (none, one_byte)
unfolding take_frame
nothing_yet = refl

take_frame-frame_example :
    take_frame (frame (5 ∷ 6 ∷ []) ++ (0 ∷ [])) ≡ ok (some (5 ∷ 6 ∷ []), 0 ∷ [])
take_frame-frame_example = take_frame-frame (5 ∷ 6 ∷ []) (0 ∷ []) (omega arith)

-- Reads the two payloads of the heartbeat, and no others.
abbrev json_type : Text → Option Text
json_type payload = if same_text payload ping_payload then some ping_type else none

abbrev local_id : Text
local_id = 0x6d ∷ 0x65 ∷ []

abbrev peer_ping : CastMessage
peer_ping = record {
  source = 0x73 ∷ [];
  destination = local_id;
  namespace = ns_heartbeat;
  payload = ping_payload;
}

abbrev idle : Session
idle = record {
  acc = [];
  last_ping = 0;
  last_rx = 0;
  stop = false;
  queue = [];
  answers = true ∷ false ∷ [];
  wire = [];
  forwarded = [];
}

-- A PING and a message, a second later a tick without data but with two messages to send, and then
-- the end of the file.
abbrev ticks : List Tick
ticks =
    record {
      stopped = false;
      read = bytes (message_bytes peer_ping ++ message_bytes hello);
      read_at = 1;
      enqueued = [];
      disconnected = false;
      ping_checked_at = 2;
      ping_at = 2;
      live_at = 3;
    }
    ∷ record {
      stopped = false;
      read = would_block;
      read_at = 1_000_000_000;
      enqueued = hello ∷ hello ∷ [];
      disconnected = false;
      ping_checked_at = 1_000_000_001;
      ping_at = 1_000_000_001;
      live_at = 1_000_000_002;
    }
    ∷ record {
      stopped = false;
      read = end_of_file;
      read_at = 1_000_000_003;
      enqueued = [];
      disconnected = false;
      ping_checked_at = 1_000_000_004;
      ping_at = 1_000_000_004;
      live_at = 1_000_000_005;
    }
    ∷ []

idle_acc : take_frame [] ≡ ok (none, [])
unfolding take_frame
idle_acc = refl

rounds-receive_example :
    (rounds json_type local_id ticks idle).forwarded
    ≡ []
      ++ all_for_caller json_type local_id
          (receive
            (reads json_type local_id (take (rounds_read json_type local_id ticks idle) ticks))
            []).bodies
rounds-receive_example = rounds-receive json_type local_id ticks idle idle_acc
