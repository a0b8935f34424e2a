-- ===== src/Channel/Handle.antt =====
-- The caller's end of the control channel of src/cast_channel.rs: `CastChannel`. The dispatcher at the
-- other end of its queue is there or gone: `answers` holds, send by send, whether it is still there,
-- and afterwards it is gone.
use chromecast_sink.Base.{
  ℕ, Bool, true, List, [], ◌∷◌, ◌++◌, next_answer, later_answers, codes, if◌then◌else◌,
}
use chromecast_sink.Json.{Json}
use chromecast_sink.Channel.Utf8.{Text}
use chromecast_sink.Channel.Message.{CastMessage}

abbrev pub ns_connection : Text
ns_connection = codes "urn:x-cast:com.google.cast.tp.connection"

abbrev pub ns_receiver : Text
ns_receiver = codes "urn:x-cast:com.google.cast.receiver"

abbrev pub ns_webrtc : Text
ns_webrtc = codes "urn:x-cast:com.google.cast.webrtc"

abbrev pub close_reason_closed_by_peer : ℕ
close_reason_closed_by_peer = 5

-- `env!("CARGO_PKG_VERSION")`
abbrev pub version : Text
version = codes "0.0.1"

-- `outbound` holds the messages that the queue took.
pub record CastChannel : Type 0 where
  pub answers : List Bool
  pub outbound : List CastMessage
  pub stop : Bool
  pub joined : Bool

abbrev pub enqueue : CastChannel → CastMessage → CastChannel
enqueue c msg = record c {
  answers = later_answers c.answers;
  outbound = c.outbound ++ (if next_answer c.answers then msg ∷ [] else []);
}

-- Whether the message was taken; if not, `dispatcher gone`.
unfoldable pub send : CastChannel → CastMessage → CastChannel × Bool
send c msg = (enqueue c msg, next_answer c.answers)

module _ (json : Json) (local_id : Text) where
  -- On Linux.
  abbrev pub build_connect_payload : json.Value
  build_connect_payload = json.object (
      (codes "type", json.string (codes "CONNECT"))
      ∷ (
        codes "userAgent",
        json.string (codes "chromecast-sink/" ++ version ++ codes " (Linux; Rust)"),
      )
      ∷ (codes "connType", json.number 0)
      ∷ (codes "origin", json.object [])
      ∷ (
        codes "senderInfo",
        json.object (
            (codes "sdkType", json.number 2)
            ∷ (codes "version", json.string version)
            ∷ (codes "browserVersion", json.string version)
            ∷ (codes "platform", json.number 6)
            ∷ (codes "connectionType", json.number 1)
            ∷ (codes "systemVersion", json.string (codes "Linux"))
            ∷ []),
      )
      ∷ [])

  abbrev pub message : Text → Text → json.Value → CastMessage
  message destination namespace payload = record {
    source = local_id;
    destination = destination;
    namespace = namespace;
    payload = json.to_string payload;
  }

  unfoldable pub send_json : CastChannel → Text → Text → json.Value → CastChannel × Bool
  send_json c destination namespace payload = send c (message destination namespace payload)

  unfoldable pub connect_transport : CastChannel → Text → CastChannel × Bool
  connect_transport c destination = send_json c destination ns_connection build_connect_payload

  abbrev pub close_payload : json.Value
  close_payload = json.object (
      (codes "type", json.string (codes "CLOSE"))
      ∷ (codes "reasonCode", json.number close_reason_closed_by_peer)
      ∷ [])

  unfoldable pub close_transport : CastChannel → Text → CastChannel × Bool
  close_transport c destination = send_json c destination ns_connection close_payload

-- `Drop`: the dispatcher is told to stop, and its thread is joined.
unfoldable pub drop_channel : CastChannel → CastChannel
drop_channel c = record c { stop = true; joined = true }
