-- ===== src/Pipeline/Samples.antt =====
-- A receiver and its answers, for tests of src/pipeline.rs.
use chromecast_sink.Base.{
  ℕ, ◌≡◌, refl, true, Option, none, some, List, [], ◌∷◌, codes, same_text, if◌then◌else◌,
}
use chromecast_sink.Base.Result.{ok, err}
use chromecast_sink.Json.{Json}
use chromecast_sink.Channel.Utf8.{Text}
use chromecast_sink.Channel.Handle.{ns_webrtc, ns_receiver, send, send_json, connect_transport}
use chromecast_sink.Discovery.{Device}
use chromecast_sink.Mirroring.{
  Poll, MirroringSession, message, timeout, timed_out, new_request_id, wait_for_json_message,
}
use chromecast_sink.Mirroring.Launch.{launch_mirroring, launch_reply, find_app, session_of}
use chromecast_sink.Mirroring.Offer.{
  send_offer, offer_reply, parse_answer, answer_of, port_of, send_indexes_of, u64s_of,
}
use chromecast_sink.Pipeline.{
  stream, contains_zero, Answers, World, trouble, run_with_device, session_timeout, opened, mode_of,
  with_channel, launched, negotiate, answered, start_stream, leave_session, leave_sink, end_session,
  close_channel, fail,
}
use chromecast_sink.Pipeline.Transcript.{fresh_channel}

-- The JSON values of a status that lists one application, a CLOSE and an answer
pub data Node : Type 0 where
  status status_id status_type apps app its_id its_session close close_type : Node
  answer answer_type answer_result details port indexes index built : Node

abbrev pub status_fields : Node → List (Text × Node)
status_fields status =
    (codes "requestId", status_id)
    ∷ (codes "type", status_type)
    ∷ (codes "/status/applications", apps)
    ∷ []
status_fields app =
    (codes "appId", its_id)
    ∷ (codes "transportId", its_session)
    ∷ (codes "sessionId", its_session)
    ∷ []
status_fields close = (codes "type", close_type) ∷ []
status_fields answer =
    (codes "type", answer_type) ∷ (codes "result", answer_result) ∷ (codes "answer", details) ∷ []
status_fields details = (codes "udpPort", port) ∷ (codes "sendIndexes", indexes) ∷ []
status_fields n = []

abbrev pub field : List (Text × Node) → Text → Option Node
field [] key = none
field ((k, v) ∷ rest) key = if same_text k key then some v else field rest key

abbrev pub status_text : Node → Option Text
status_text status_type = some (codes "RECEIVER_STATUS")
status_text its_id = some (codes "85CDB22F")
status_text its_session = some (codes "t")
status_text close_type = some (codes "CLOSE")
status_text answer_type = some (codes "ANSWER")
status_text answer_result = some (codes "ok")
status_text n = none

abbrev pub status_number : Node → Option ℕ
status_number status_id = some 1
status_number port = some 44321
status_number index = some 0
status_number n = none

abbrev pub status_items : Node → Option (List Node)
status_items apps = some (app ∷ [])
status_items indexes = some (index ∷ [])
status_items n = none

abbrev pub status_json : Json
status_json = record {
  Value = Node;
  from_str = λ t.
      if same_text t (codes "{status}")
      then some status
      else if same_text t (codes "{close}")
      then some close
      else if same_text t (codes "{answer}")
      then some answer
      else none;
  to_string = λ v. codes "{}";
  get = λ v key. field (status_fields v) key;
  pointer = λ v key. field (status_fields v) key;
  as_str = status_text;
  as_u64 = status_number;
  as_array = status_items;
  string = λ t. built;
  number = λ n. built;
  boolean = λ b. built;
  array = λ vs. built;
  object = λ fs. built;
}

-- Past the deadline of the answer
abbrev pub too_late : Poll
too_late = record { now = 20_000_000_000; received = timeout }

abbrev pub in_time : Poll
in_time = record {
  now = 7;
  received = message (record {
    source = codes "t";
    destination = codes "me";
    namespace = ns_webrtc;
    payload = codes "{answer}";
  });
}

-- The status, and this round
abbrev pub answers : Poll → Answers
answers last = record {
  connected = some fresh_channel;
  incoming =
      record {
        now = 0;
        received = message (record {
          source = codes "receiver-0";
          destination = codes "me";
          namespace = ns_receiver;
          payload = codes "{status}";
        });
      }
      ∷ last
      ∷ [];
  counter = 1;
  sink_made = true;
  launch_at = 0;
  offer_at = 1;
  offer = record { ssrc = 1; aes_key = []; aes_iv_mask = [] };
  socket_bound = true;
  handler_set = true;
  captured_well = true;
}

abbrev pub speaker : Device
speaker = record {
  friendly_name = codes "Kitchen";
  model = none;
  host = codes "10.0.0.2";
  port = 8009;
  is_audio_only = true;
}

abbrev pub its : MirroringSession
its = record { transport_id = codes "t"; session_id = codes "t" }

abbrev pub final_world : Poll → World
final_world last =
    with_channel status_json (codes "me") (λ bytes. bytes) speaker (answers last)
      (opened status_json (codes "me") (λ bytes. bytes) fresh_channel (answers last))

pub ran :
    (last : Poll)
    → run_with_device status_json (codes "me") (λ bytes. bytes) speaker (answers last)
      ≡ some (final_world last)
unfolding run_with_device
ran last = refl

pub is_launched :
    (last : Poll)
    → (launch_mirroring status_json
        (codes "me")
        (mode_of speaker)
        0
        session_timeout
        (opened status_json (codes "me") (λ bytes. bytes) fresh_channel (answers last)).control).0
      ≡ some (ok its)
unfolding launch_mirroring new_request_id send_json send wait_for_json_message launch_reply find_app
    session_of mode_of
is_launched last = refl

pub is_late : (final_world too_late).outcome ≡ some (err (trouble timed_out))
unfolding with_channel launched negotiate answered start_stream leave_session leave_sink end_session
    close_channel fail launch_mirroring new_request_id send_json send connect_transport
    wait_for_json_message launch_reply find_app session_of mode_of send_offer offer_reply
is_late = refl

pub is_over : (final_world in_time).outcome ≡ some (ok tt)
unfolding with_channel launched negotiate answered start_stream stream contains_zero leave_session
    leave_sink end_session close_channel fail launch_mirroring new_request_id send_json send
    connect_transport wait_for_json_message launch_reply find_app session_of mode_of send_offer
    offer_reply parse_answer answer_of port_of send_indexes_of u64s_of
is_over = refl
