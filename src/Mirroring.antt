-- ===== src/Mirroring.antt =====
-- src/mirroring.rs: the session set-up over the control channel. LAUNCH starts the receiver's app, OFFER
-- and ANSWER agree on the stream.
pub mod Replies
pub mod Launch
pub mod Offer
pub mod Wait
pub mod Deadline
mod Tests
use chromecast_sink.Base.{
  ℕ, ◌+◌, ◌-◌, ◌*◌, ◌^◌, bit_and, bit_or, u64, Bool, true, false, not, ◌&&◌, Option, none, some,
  List, [], ◌∷◌, ◌++◌, codes, ltb, leb, ◌==◌, same_text, if◌then◌else◌,
}
use chromecast_sink.Base.Result.{Result, ok, err, ◌>>=◌}
use chromecast_sink.Json.{Json, get_str, get_u64}
use chromecast_sink.Channel.Utf8.{Text}
use chromecast_sink.Channel.Message.{CastMessage}
use chromecast_sink.Channel.Dispatcher.{platform_receiver_id}
use chromecast_sink.Channel.Handle.{CastChannel, ns_receiver, ns_webrtc, send_json, close_transport}

abbrev pub app_mirroring_audio_video : Text
app_mirroring_audio_video = codes "0F5096E8"

abbrev pub app_mirroring_audio_only : Text
app_mirroring_audio_only = codes "85CDB22F"

abbrev pub opus_bitrate : ℕ
opus_bitrate = 128_000

abbrev pub rtp_payload_type : ℕ
rtp_payload_type = 127

abbrev pub target_delay_ms : ℕ
target_delay_ms = 0

pub data StreamMode : Type 0 where
  audio_only audio_video : StreamMode

abbrev pub app_id : StreamMode → Text
app_id audio_only = app_mirroring_audio_only
app_id audio_video = app_mirroring_audio_video

pub record StreamOffer : Type 0 where
  pub ssrc : ℕ
  pub aes_key : List ℕ
  pub aes_iv_mask : List ℕ

-- `Default`, from the random bytes and the random word.
pub default_offer : List ℕ → List ℕ → ℕ → StreamOffer
default_offer aes_key aes_iv_mask word = record {
  ssrc = bit_or (bit_and word 0x7fff_ffff) 1;
  aes_key = aes_key;
  aes_iv_mask = aes_iv_mask;
}

pub record StreamAnswer : Type 0 where
  pub udp_port : ℕ
  pub send_indexes : List ℕ

pub record MirroringSession : Type 0 where
  pub transport_id : Text
  pub session_id : Text

-- The messages of the `bail!`s and `anyhow!`s, without their contexts.
pub data Trouble : Type 0 where
  connection_lost timed_out dispatcher_gone : Trouble
  no_transport_id no_session_id launch_rejected : Trouble
  offer_rejected no_answer no_udp_port : Trouble
  port_out_of_range : ℕ → Trouble

-- What `recv_timeout` returns.
pub data Received : Type 0 where
  message : CastMessage → Received
  timeout disconnected : Received

-- One round of the wait: the time at the loop's condition, and what the receiver returns then.
pub record Poll : Type 0 where
  pub now : ℕ
  pub received : Received

-- The caller's ends of the channel, and the request counter.
pub record Control : Type 0 where
  pub channel : CastChannel
  pub incoming : List Poll
  pub counter : ℕ

unfoldable pub new_request_id : Control → ℕ × Control
new_request_id s = (s.counter, record s { counter = u64 (s.counter + 1) })

module _ (json : Json) where
  -- A message in the wait: nothing for another namespace or a payload that is no JSON.
  abbrev pub on_message :
      {T : Type 0}
      → Text
      → (json.Value → Option (Result Trouble T))
      → CastMessage
      → Option (Result Trouble T)
  on_message namespace predicate msg =
      if same_text msg.namespace namespace
      then elim (json.from_str msg.payload) [ none ↦ none | some v ↦ predicate v ]
      else none

  -- The result and the rounds that are left, or no result where the observed rounds are over.
  unfoldable pub wait_for_json_message :
      {T : Type 0}
      → Text
      → ℕ
      → (json.Value → Option (Result Trouble T))
      → List Poll
      → Option (Result Trouble T) × List Poll
  wait_for_json_message namespace deadline predicate [] = (none, [])
  wait_for_json_message namespace deadline predicate (p ∷ ps) =
      let later = wait_for_json_message namespace deadline predicate ps in
      if leb deadline p.now then (some (err timed_out), p ∷ ps) else elim p.received [
        | timeout ↦ later
        | disconnected ↦ (some (err connection_lost), ps)
        | message msg ↦ elim (on_message namespace predicate msg) [
          | none ↦ later
          | some result ↦ (some result, ps)
        ]
      ]
