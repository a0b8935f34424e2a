-- ===== src/Mirroring/Launch.antt =====
-- LAUNCH and STOP of src/mirroring.rs.
pub mod Status
pub mod Session
use chromecast_sink.Base.{
  ℕ, ◌+◌, Bool, true, false, Option, none, some, List, [], ◌∷◌, ◌++◌, codes, ◌==◌, same_text,
  if◌then◌else◌,
}
use chromecast_sink.Base.Result.{Result, ok, err, ◌>>=◌}
use chromecast_sink.Json.{Json, get_str, get_u64}
use chromecast_sink.Channel.Utf8.{Text}
use chromecast_sink.Channel.Dispatcher.{platform_receiver_id}
use chromecast_sink.Channel.Handle.{CastChannel, ns_receiver, send_json, close_transport}
use chromecast_sink.Mirroring.Replies.{ok_or, is_some_text, is_some_number}
use chromecast_sink.Mirroring.{
  StreamMode, app_id, MirroringSession, Trouble, dispatcher_gone, no_transport_id, no_session_id,
  launch_rejected, Control, new_request_id, wait_for_json_message,
}

module _ (json : Json) where
  abbrev pub launch_payload : Text → ℕ → json.Value
  launch_payload app request_id = json.object (
      (codes "type", json.string (codes "LAUNCH"))
      ∷ (codes "requestId", json.number request_id)
      ∷ (codes "appId", json.string app)
      ∷ (codes "language", json.string (codes "en-US"))
      ∷ (codes "supportedAppTypes", json.array (json.string (codes "WEB") ∷ []))
      ∷ [])

  unfoldable pub find_app : Text → List json.Value → Option json.Value
  find_app app [] = none
  find_app app (v ∷ vs) =
      let rest = find_app app vs in
      if is_some_text (get_str json v (codes "appId")) app then some v else rest

  unfoldable pub session_of : json.Value → Result Trouble MirroringSession
  session_of app = do
    transport_id ← ok_or (get_str json app (codes "transportId")) no_transport_id
    session_id ← ok_or (get_str json app (codes "sessionId")) no_session_id
    ok (record { transport_id = transport_id; session_id = session_id })

  abbrev pub applications : json.Value → Option (List json.Value)
  applications v = elim (json.pointer v (codes "/status/applications")) [
    | none ↦ none
    | some a ↦ json.as_array a
  ]

  abbrev pub session_if : Option json.Value → Option (Result Trouble MirroringSession)
  session_if none = none
  session_if (some a) = some (session_of a)

  -- The session of the first application with this identifier.
  abbrev pub first_app : Text → Option (List json.Value) → Option (Result Trouble MirroringSession)
  first_app app none = none
  first_app app (some apps) = session_if (find_app app apps)

  -- The predicate of the wait.
  unfoldable pub launch_reply : Text → ℕ → json.Value → Option (Result Trouble MirroringSession)
  launch_reply app request_id v =
      if is_some_number (get_u64 json v (codes "requestId")) request_id
      then if is_some_text (get_str json v (codes "type")) (codes "RECEIVER_STATUS")
        then first_app app (applications v)
        else if is_some_text (get_str json v (codes "type")) (codes "LAUNCH_ERROR")
        then some (err launch_rejected)
        else none
      else none

  abbrev pub stop_payload : ℕ → Text → json.Value
  stop_payload request_id session_id = json.object (
      (codes "type", json.string (codes "STOP"))
      ∷ (codes "requestId", json.number request_id)
      ∷ (codes "sessionId", json.string session_id)
      ∷ [])

module _ (json : Json) (local_id : Text) where
  unfoldable pub launch_mirroring :
      StreamMode → ℕ → ℕ → Control → Option (Result Trouble MirroringSession) × Control
  launch_mirroring mode now timeout s =
      let (request_id, s') = new_request_id s in
      let (channel, sent) =
        send_json json local_id s'.channel platform_receiver_id ns_receiver
          (launch_payload json (app_id mode) request_id) in
      let (result, left) =
        wait_for_json_message json ns_receiver (now + timeout)
          (launch_reply json (app_id mode) request_id) s'.incoming in
      if sent
      then (result, record s' { channel = channel; incoming = left })
      else (some (err dispatcher_gone), record s' { channel = channel })

  unfoldable pub send_stop : Control → Text → Control
  send_stop s session_id =
      let (request_id, s') = new_request_id s in
      record s' {
        channel =
            (send_json json local_id s'.channel platform_receiver_id ns_receiver
              (stop_payload json request_id session_id)).0;
      }

  -- `Drop`
  unfoldable pub drop_session : Control → MirroringSession → Control
  drop_session s session =
      let stopped = send_stop s session.session_id in
      let closed = (close_transport json local_id stopped.channel session.transport_id).0 in
      record stopped { channel = (close_transport json local_id closed platform_receiver_id).0 }
