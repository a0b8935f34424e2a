-- ===== src/Mirroring/Offer.antt =====
-- OFFER and ANSWER of src/mirroring.rs.
pub mod Answer
use chromecast_sink.Base.{
  ℕ, ◌+◌, Bool, true, false, Option, none, some, List, [], ◌∷◌, codes, ◌==◌, ltb, ◌||◌,
  if◌then◌else◌,
}
use chromecast_sink.Base.Result.{Result, ok, err, ◌>>=◌}
use chromecast_sink.Json.{Json, get_str, get_u64}
use chromecast_sink.Channel.Utf8.{Text}
use chromecast_sink.Channel.Handle.{CastChannel, ns_webrtc, send_json}
use chromecast_sink.Mirroring.{
  StreamOffer, StreamAnswer, Trouble, dispatcher_gone, offer_rejected, no_answer, no_udp_port,
  port_out_of_range, Control, new_request_id, wait_for_json_message, opus_bitrate, rtp_payload_type,
  target_delay_ms,
}
use chromecast_sink.Mirroring.Replies.{is_some_text, ok_or}

module _ (json : Json) where
  unfoldable pub u64s_of : List json.Value → List ℕ
  u64s_of [] = []
  u64s_of (v ∷ vs) = elim (json.as_u64 v) [ none ↦ u64s_of vs | some n ↦ n ∷ u64s_of vs ]

  unfoldable pub send_indexes_of : json.Value → List ℕ
  send_indexes_of answer = elim (json.get answer (codes "sendIndexes")) [
    | none ↦ []
    | some s ↦ elim (json.as_array s) [ none ↦ [] | some a ↦ u64s_of a ]
  ]

  -- `match udp_port_raw`
  unfoldable pub port_of : ℕ → Result Trouble ℕ
  port_of n = if n == 0 || ltb 65535 n then err (port_out_of_range n) else ok n

  unfoldable pub answer_of : json.Value → Result Trouble StreamAnswer
  answer_of v = do
    answer ← ok_or (json.get v (codes "answer")) no_answer
    raw ← ok_or (get_u64 json answer (codes "udpPort")) no_udp_port
    udp_port ← port_of raw
    ok (record { udp_port = udp_port; send_indexes = send_indexes_of answer })

  unfoldable pub parse_answer : json.Value → Result Trouble StreamAnswer
  parse_answer v =
      if is_some_text (get_str json v (codes "result")) (codes "ok")
      then answer_of v
      else err offer_rejected

  -- The predicate of the wait.
  unfoldable pub offer_reply : json.Value → Option (Result Trouble StreamAnswer)
  offer_reply v =
      if is_some_text (get_str json v (codes "type")) (codes "ANSWER")
      then some (parse_answer v)
      else none

module _ (json : Json) (local_id : Text) (hex_encode : List ℕ → Text) where
  pub build_offer_payload : ℕ → StreamOffer → json.Value
  build_offer_payload seq_num offer = json.object (
      (codes "type", json.string (codes "OFFER"))
      ∷ (codes "seqNum", json.number seq_num)
      ∷ (
        codes "offer",
        json.object (
            (codes "castMode", json.string (codes "mirroring"))
            ∷ (codes "supportedStreams", json.array (stream ∷ []))
            ∷ []),
      )
      ∷ [])
    where
      stream : json.Value
      stream = json.object (
          (codes "index", json.number 0)
          ∷ (codes "type", json.string (codes "audio_source"))
          ∷ (codes "codecName", json.string (codes "opus"))
          ∷ (codes "codecParameter", json.string [])
          ∷ (codes "rtpProfile", json.string (codes "cast"))
          ∷ (codes "rtpPayloadType", json.number rtp_payload_type)
          ∷ (codes "ssrc", json.number offer.ssrc)
          ∷ (codes "targetDelay", json.number target_delay_ms)
          ∷ (codes "aesKey", json.string (hex_encode offer.aes_key))
          ∷ (codes "aesIvMask", json.string (hex_encode offer.aes_iv_mask))
          ∷ (codes "timeBase", json.string (codes "1/48000"))
          ∷ (codes "receiverRtcpEventLog", json.boolean false)
          ∷ (codes "bitRate", json.number opus_bitrate)
          ∷ (codes "channels", json.number 2)
          ∷ [])

  unfoldable pub send_offer :
      Text → StreamOffer → ℕ → ℕ → Control → Option (Result Trouble StreamAnswer) × Control
  send_offer transport_id offer now timeout s =
      let (seq_num, s') = new_request_id s in
      let (channel, sent) =
        send_json json local_id s'.channel transport_id ns_webrtc
          (build_offer_payload seq_num offer) in
      let (result, left) =
        wait_for_json_message json ns_webrtc (now + timeout) (offer_reply json) s'.incoming in
      if sent
      then (result, record s' { channel = channel; incoming = left })
      else (some (err dispatcher_gone), record s' { channel = channel })
