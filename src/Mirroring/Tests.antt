-- ===== src/Mirroring/Tests.antt =====
-- The theorems on src/mirroring.rs at concrete inputs.
use chromecast_sink.Base.{
  ℕ, ◌≡◌, refl, true, false, Option, none, some, List, [], ◌∷◌, ◌++◌, codes, same_text, arith,
  if◌then◌else◌,
}
use chromecast_sink.Base.Result.{Result, ok, err}
use chromecast_sink.Json.{Json, get_str}
use chromecast_sink.Channel.Utf8.{Text}
use chromecast_sink.Channel.Message.{CastMessage}
use chromecast_sink.Channel.Handle.{ns_receiver, ns_webrtc, send, send_json}
use chromecast_sink.Mirroring.{
  audio_only, StreamOffer, StreamAnswer, MirroringSession, Trouble, message, timeout, disconnected,
  Poll, Control, new_request_id, wait_for_json_message, connection_lost,
}
use chromecast_sink.Mirroring.Deadline.{wait_for_json_message-returns}
use chromecast_sink.Mirroring.Launch.{launch_mirroring, launch_reply, find_app, session_of}
use chromecast_sink.Mirroring.Launch.Status.{IsStatus}
use chromecast_sink.Mirroring.Launch.Session.{IsReceived, launch_mirroring-IsStatus}
use chromecast_sink.Mirroring.Offer.{
  send_offer, offer_reply, parse_answer, answer_of, port_of, send_indexes_of, u64s_of,
}
use chromecast_sink.Mirroring.Offer.Answer.{IsAnswer, send_offer-IsAnswer}

-- The JSON values of a status and an answer
data Node : Type 0 where
  status status_id status_type apps app its_id its_transport its_session answer answer_type
        answer_result details port indexes index built :
      Node

abbrev fields : Node → List (Text × Node)
fields status =
    (codes "requestId", status_id)
    ∷ (codes "type", status_type)
    ∷ (codes "/status/applications", apps)
    ∷ []
fields app =
    (codes "appId", its_id)
    ∷ (codes "transportId", its_transport)
    ∷ (codes "sessionId", its_session)
    ∷ []
fields answer =
    (codes "type", answer_type) ∷ (codes "result", answer_result) ∷ (codes "answer", details) ∷ []
fields details = (codes "udpPort", port) ∷ (codes "sendIndexes", indexes) ∷ []
fields n = []

abbrev text_of : Node → Option Text
text_of status_type = some (codes "RECEIVER_STATUS")
text_of its_id = some (codes "85CDB22F")
text_of its_transport = some (codes "t")
text_of its_session = some (codes "s")
text_of answer_type = some (codes "ANSWER")
text_of answer_result = some (codes "ok")
text_of n = none

abbrev number_of : Node → Option ℕ
number_of status_id = some 7
number_of port = some 44321
number_of index = some 0
number_of n = none

abbrev items_of : Node → Option (List Node)
items_of apps = some (app ∷ [])
items_of indexes = some (index ∷ [])
items_of n = none

abbrev lookup : List (Text × Node) → Text → Option Node
lookup [] key = none
lookup ((k, v) ∷ rest) key = if same_text k key then some v else lookup rest key

abbrev parsed : Text → Option Node
parsed text =
    if same_text text (codes "{status}")
    then some status
    else if same_text text (codes "{answer}")
    then some answer
    else none

abbrev nodes : Json
nodes = record {
  Value = Node;
  from_str = parsed;
  to_string = λ v. codes "{}";
  get = λ v key. lookup (fields v) key;
  pointer = λ v key. lookup (fields v) key;
  as_str = text_of;
  as_u64 = number_of;
  as_array = items_of;
  string = λ t. built;
  number = λ n. built;
  boolean = λ b. built;
  array = λ vs. built;
  object = λ fs. built;
}

abbrev from_receiver : Text → Text → CastMessage
from_receiver namespace payload = record {
  source = codes "receiver-0";
  destination = codes "me";
  namespace = namespace;
  payload = payload;
}

-- Noise, a slice of waiting, the status and the answer
abbrev polls : List Poll
polls =
    record { now = 0; received = message (from_receiver ns_receiver (codes "noise")) }
    ∷ record { now = 5; received = timeout }
    ∷ record {
      now = 500_000_005;
      received = message (from_receiver ns_receiver (codes "{status}"));
    }
    ∷ record { now = 500_000_009; received = message (from_receiver ns_webrtc (codes "{answer}")) }
    ∷ []

abbrev control : Control
control = record {
  channel = record { answers = true ∷ []; outbound = []; stop = false; joined = false };
  incoming = polls;
  counter = 7;
}

abbrev launched : MirroringSession
launched = record { transport_id = codes "t"; session_id = codes "s" }

launched_ok :
    (launch_mirroring nodes (codes "me") audio_only 0 10_000_000_000 control).0 ≡ some (ok launched)
unfolding launch_mirroring new_request_id send_json send wait_for_json_message launch_reply find_app
    session_of
launched_ok = refl

launch_mirroring-IsStatus_example :
    (v : Node) × IsReceived nodes ns_receiver 10_000_000_000 polls v
    × IsStatus nodes (codes "85CDB22F") 7 v launched
launch_mirroring-IsStatus_example =
    launch_mirroring-IsStatus nodes (codes "me") audio_only 0 10_000_000_000 control launched
      launched_ok

abbrev answered : StreamAnswer
answered = record { udp_port = 44321; send_indexes = 0 ∷ [] }

abbrev offer : StreamOffer
offer = record { ssrc = 1; aes_key = []; aes_iv_mask = [] }

offered_ok :
    (send_offer nodes (codes "me") (λ bytes. bytes) (codes "t") offer 0 10_000_000_000 control).0
    ≡ some (ok answered)
unfolding send_offer new_request_id send_json send wait_for_json_message offer_reply parse_answer
    answer_of port_of send_indexes_of u64s_of
offered_ok = refl

send_offer-IsAnswer_example :
    (v : Node) × IsReceived nodes ns_webrtc 10_000_000_000 polls v
    × (get_str nodes v (codes "type") ≡ some (codes "ANSWER"))
    × IsAnswer nodes v answered
send_offer-IsAnswer_example =
    send_offer-IsAnswer nodes (codes "me") (λ bytes. bytes) (codes "t") offer 0 10_000_000_000
      control answered offered_ok

-- Undecided on everything: the dispatcher is gone in the end
abbrev undecided : Node → Option (Result Trouble ℕ)
undecided v = none

abbrev until_lost : List Poll
until_lost = polls ++ (record { now = 600_000_000; received = disconnected } ∷ [])

lost_in_the_end :
    (wait_for_json_message nodes ns_receiver 10_000_000_000 undecided until_lost).0
    ≡ some (err connection_lost)
unfolding wait_for_json_message
lost_in_the_end = refl

-- A deadline in half a second: one slice and three messages
wait_for_json_message-returns_example :
    (r : Result Trouble ℕ) × ((wait_for_json_message nodes ns_receiver 500_000_000 undecided
        until_lost).0
      ≡ some r)
wait_for_json_message-returns_example =
    wait_for_json_message-returns nodes ns_receiver 500_000_000 undecided 0 until_lost
      (omega arith, (omega arith, (omega arith, (omega arith, (omega arith, tt))))) (omega arith)
