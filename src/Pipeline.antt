-- ===== src/Pipeline.antt =====
-- src/pipeline.rs: a whole session, from the device to the tear-down. What the operating system, the
-- sink and the capture loop answer is given.
pub mod Monitor
pub mod Held
pub mod Tidy
pub mod Transcript
pub mod Conversation
pub mod Success
pub mod Samples
mod Tests
use chromecast_sink.Base.{
  ℕ, zero, suc, ◌+◌, ◌-◌, ◌*◌, Bool, true, false, not, Option, none, some, List, [], ◌∷◌, ◌++◌,
  codes, ◌==◌, same_text, if◌then◌else◌, ◌&&◌, ◌||◌,
}
use chromecast_sink.Base.Result.{Result, ok, err}
use chromecast_sink.Json.{Json, get_str}
use chromecast_sink.Channel.Utf8.{Text}
use chromecast_sink.Channel.Message.{CastMessage}
use chromecast_sink.Channel.Dispatcher.{payload_type_is}
use chromecast_sink.Channel.Handle.{CastChannel, ns_connection, connect_transport, drop_channel}
use chromecast_sink.Rtp.Packet.{Config}
use chromecast_sink.Discovery.{Device, DiscoveryError}
use chromecast_sink.Mirroring.{
  StreamMode, audio_only, audio_video, rtp_payload_type, StreamOffer, StreamAnswer,
  MirroringSession, Trouble, Poll, Control,
}
use chromecast_sink.Mirroring.Launch.{launch_mirroring, drop_session}
use chromecast_sink.Mirroring.Offer.{send_offer}

-- `Duration::from_secs(10)`
abbrev pub session_timeout : ℕ
session_timeout = 10_000_000_000

pub data Failure : Type 0 where
  no_devices selection_required unresolved no_ipv4 : Failure
  not_connected no_sink dispatcher_gone not_accepted no_socket no_handler capture_failed : Failure
  discovery_failed : Failure
  trouble : Trouble → Failure

pub data IpAddr : Type 0 where
  v4 v6 : (text : Text) → IpAddr

pub first_v4 : List IpAddr → Result Failure Text
first_v4 [] = err no_ipv4
first_v4 (v4 ip ∷ ips) = ok ip
first_v4 (v6 ip ∷ ips) = first_v4 ips

-- `none` where `to_socket_addrs` fails.
pub resolve_ipv4 : Option (List IpAddr) → Result Failure Text
resolve_ipv4 none = err unresolved
resolve_ipv4 (some addrs) = first_v4 addrs

unfoldable pub pick_device : List Device → Result Failure Device
pick_device (d ∷ []) = ok d
pick_device devices = err selection_required

unfoldable pub listed : Result DiscoveryError (List Device) → Result Failure (List Device)
listed (ok ds) = ok ds
listed (err e) = err discovery_failed

-- What `run` goes on with.
unfoldable pub device_of : Result Failure (List Device) → Result Failure Device
device_of (err e) = err e
device_of (ok []) = err no_devices
device_of (ok (d ∷ ds)) = pick_device (d ∷ ds)

-- What `run_with_host` goes on with; `name` is `host:port`.
pub host_device : Text → ℕ → Option (List IpAddr) → Result Failure Device
host_device name port addrs = elim (resolve_ipv4 addrs) [
  | err e ↦ err e
  | ok ip ↦
      ok (record {
        friendly_name = name;
        model = none;
        host = ip;
        port = port;
        is_audio_only = true;
      })
]

-- What happens to the parts of a session, in order.
pub data Event : Type 0 where
  channel_opened sink_created session_launched sender_bound sender_started : Event
  monitor_spawned captured sender_stopped session_dropped channel_dropped monitor_joined : Event
  sink_dropped sender_dropped : Event

-- What the calls answer: the channel that `connect` opens and what it receives, whether the sink, the
-- socket and the signal handler can be made, the times and random bytes, and whether the capture
-- loop ends without an error.
pub record Answers : Type 0 where
  pub connected : Option CastChannel
  pub incoming : List Poll
  pub counter : ℕ
  pub sink_made : Bool
  pub launch_at : ℕ
  pub offer_at : ℕ
  pub offer : StreamOffer
  pub socket_bound : Bool
  pub handler_set : Bool
  pub captured_well : Bool

-- The caller's end of the channel, the events so far, the sender's configuration once there is one, and
-- the outcome, none where it still waits.
pub record World : Type 0 where
  pub control : Control
  pub events : List Event
  pub config : Option Config
  pub outcome : Option (Result Failure (Unit {0}))

abbrev pub happens : World → List Event → World
happens w es = record w { events = w.events ++ es }

pub fail : World → Failure → World
fail w e = record w { outcome = some (err e) }

pub close_channel : World → World
close_channel w =
    happens (record w { control = record w.control { channel = drop_channel w.control.channel } })
      (channel_dropped ∷ [])

-- An early return drops the locals, the last one first.
pub leave_sink : World → Failure → World
leave_sink w e = fail (close_channel (happens w (sink_dropped ∷ []))) e

pub mode_of : Device → StreamMode
mode_of d = if d.is_audio_only then audio_only else audio_video

pub contains_zero : List ℕ → Bool
contains_zero [] = false
contains_zero (n ∷ ns) = n == 0 || contains_zero ns

abbrev pub config_of : Device → Answers → StreamAnswer → Config
config_of device a answer = record {
  chromecast_host = device.host;
  udp_port = answer.udp_port;
  ssrc = a.offer.ssrc;
  payload_type = rtp_payload_type;
  aes_key = a.offer.aes_key;
  aes_iv_mask = a.offer.aes_iv_mask;
}

module _ (json : Json) (local_id : Text) (hex_encode : List ℕ → Text) where
  pub end_session : World → MirroringSession → World
  end_session w session =
      happens (record w { control = drop_session json local_id w.control session })
        (session_dropped ∷ [])

  pub leave_session : World → MirroringSession → Failure → World
  leave_session w session e = leave_sink (end_session w session) e

  -- From the capture loop to the end.
  pub stream : Answers → MirroringSession → World → World
  stream a session w =
      let streamed = happens w (monitor_spawned ∷ captured ∷ sender_stopped ∷ []) in
      let ended = close_channel (end_session streamed session) in
      record (happens ended (monitor_joined ∷ sink_dropped ∷ sender_dropped ∷ [])) {
        outcome = some (if a.captured_well then ok tt else err capture_failed);
      }

  -- With the answer: the sender, the signal handler and the monitor.
  pub start_stream : Device → Answers → MirroringSession → World → StreamAnswer → World
  start_stream device a session w answer =
      let w' = record w { config = some (config_of device a answer) } in
      if not (contains_zero answer.send_indexes)
      then leave_session w session not_accepted
      else if not a.socket_bound
      then leave_session w session no_socket
      else if not a.handler_set
      then leave_session
          (happens w' (sender_bound ∷ sender_started ∷ sender_stopped ∷ sender_dropped ∷ []))
          session no_handler
      else stream a session (happens w' (sender_bound ∷ sender_started ∷ []))

  pub answered :
      Device → Answers → MirroringSession → World → Option (Result Trouble StreamAnswer) → World
  answered device a session w none = w
  answered device a session w (some (err e)) = leave_session w session (trouble e)
  answered device a session w (some (ok answer)) = start_stream device a session w answer

  -- With the session: CONNECT, OFFER and ANSWER.
  pub negotiate : Device → Answers → World → MirroringSession → World
  negotiate device a w session =
      let (channel, sent) =
        connect_transport json local_id w.control.channel session.transport_id in
      let w' = record w { control = record w.control { channel = channel } } in
      let (answer, control) =
        send_offer json local_id hex_encode session.transport_id a.offer a.offer_at session_timeout
          w'.control in
      if sent
      then answered device a session (record w' { control = control }) answer
      else leave_session w' session dispatcher_gone

  pub launched : Device → Answers → World → Option (Result Trouble MirroringSession) → World
  launched device a w none = w
  launched device a w (some (err e)) = leave_sink w (trouble e)
  launched device a w (some (ok session)) =
      negotiate device a (happens w (session_launched ∷ [])) session

  -- With the channel: the sink and LAUNCH.
  pub with_channel : Device → Answers → World → World
  with_channel device a w =
      if not a.sink_made
      then fail (close_channel w) no_sink
      else let (session, control) =
          launch_mirroring json local_id (mode_of device) a.launch_at session_timeout w.control in
        launched device a (happens (record w { control = control }) (sink_created ∷ [])) session

  abbrev pub opened : CastChannel → Answers → World
  opened channel a = record {
    control = record { channel = channel; incoming = a.incoming; counter = a.counter };
    events = channel_opened ∷ [];
    config = none;
    outcome = none;
  }

  -- `none` where `connect` fails: nothing has been made then.
  pub run_with_device : Device → Answers → Option World
  run_with_device device a = elim a.connected [
    | none ↦ none
    | some channel ↦ some (with_channel device a (opened channel a))
  ]

  -- `run`, with what `discover` returns.
  unfoldable pub run : Result DiscoveryError (List Device) → Answers → Result Failure (Option World)
  run found a = elim (device_of (listed found)) [ err e ↦ err e | ok d ↦ ok (run_with_device d a) ]
