-- ===== src/Pipeline/Transcript.antt =====
-- What a session of src/pipeline.rs says on the control channel.
use mathlib.Core.Option.{some-injective}
use mathlib.Core.Path.{subst}
use chromecast_sink.Base.{
  ℕ, ◌+◌, ◌≡◌, refl, ap, ◌∙◌, sym, u64, Bool, true, false, not, Option, none, some, List, [], ◌∷◌,
  replicate, if◌then◌else◌, Bool-cases, inl, inr,
}
use chromecast_sink.Base.Result.{Result, ok, err}
use chromecast_sink.Json.{Json}
use chromecast_sink.Channel.Utf8.{Text}
use chromecast_sink.Channel.Message.{CastMessage}
use chromecast_sink.Channel.Dispatcher.{platform_receiver_id}
use chromecast_sink.Channel.Handle.{
  CastChannel, ns_receiver, ns_webrtc, ns_connection, message, build_connect_payload, close_payload,
  send, send_json, connect_transport, close_transport, drop_channel,
}
use chromecast_sink.Discovery.{Device}
use chromecast_sink.Mirroring.{
  app_id, MirroringSession, StreamAnswer, Trouble, Control, new_request_id,
}
use chromecast_sink.Mirroring.Launch.{
  launch_mirroring, launch_payload, stop_payload, send_stop, drop_session,
}
use chromecast_sink.Mirroring.Offer.{build_offer_payload, send_offer}
use chromecast_sink.Pipeline.{
  sink_created, no_sink, Answers, World, Failure, happens, fail, close_channel, end_session,
  leave_sink, leave_session, stream, start_stream, answered, negotiate, launched, with_channel,
  opened, run_with_device, contains_zero, session_timeout, mode_of,
}

-- A channel just opened, whose dispatcher takes six messages.
abbrev pub fresh_channel : CastChannel
fresh_channel = record { answers = replicate 6 true; outbound = []; stop = false; joined = false }

module _ (json : Json) (local_id : Text) (hex_encode : List ℕ → Text) where
  -- LAUNCH, CONNECT, OFFER; STOP and the two CLOSEs.
  abbrev pub transcript : Device → Answers → MirroringSession → List CastMessage
  transcript device a session =
      message json local_id platform_receiver_id ns_receiver
        (launch_payload json (app_id (mode_of device)) a.counter)
      ∷ message json local_id session.transport_id ns_connection
          (build_connect_payload json local_id)
      ∷ message json local_id session.transport_id ns_webrtc
          (build_offer_payload json local_id hex_encode (u64 (a.counter + 1)) a.offer)
      ∷ message json local_id platform_receiver_id ns_receiver
          (stop_payload json (u64 (u64 (a.counter + 1) + 1)) session.session_id)
      ∷ message json local_id session.transport_id ns_connection (close_payload json local_id)
      ∷ message json local_id platform_receiver_id ns_connection (close_payload json local_id)
      ∷ []

  abbrev IsSaid : List CastMessage → World → Type 0
  IsSaid said w =
      (r : Result Failure (Unit {0})) → w.outcome ≡ some r → w.control.channel.outbound ≡ said

  else-IsSaid :
      (said : List CastMessage) (b : Bool) (x y : World)
      → b ≡ false
      → IsSaid said y
      → IsSaid said (if b then x else y)
  else-IsSaid said true x y h k = cc
  else-IsSaid said false x y h k = k

  abbrev final : Control → MirroringSession → List CastMessage
  final control session = (drop_session json local_id control session).channel.outbound

  started-IsSaid :
      (device : Device) (a : Answers) (session : MirroringSession) (w : World)
      (answer : StreamAnswer)
      → IsSaid
          (final w.control session)
          (start_stream json local_id hex_encode device a session w answer)
  unfolding start_stream stream leave_session leave_sink end_session close_channel fail drop_channel
  started-IsSaid device a session w answer r e =
      elim (Bool-cases (contains_zero answer.send_indexes)) [
        | inr refused ↦ rw (refused, start_stream) refl
        | inl accepted ↦ elim (Bool-cases a.socket_bound) [
          | inr unbound ↦ rw (accepted, unbound, start_stream) refl
          | inl bound ↦ elim (Bool-cases a.handler_set) [
            | inr unset ↦ rw (accepted, bound, unset, start_stream) refl
            | inl set ↦ rw (accepted, bound, set, start_stream) refl
          ]
        ]
      ]

  answered-IsSaid :
      (device : Device) (a : Answers) (session : MirroringSession) (w : World)
      (answer : Option (Result Trouble StreamAnswer))
      → w.outcome ≡ none
      → IsSaid
          (final w.control session)
          (answered json local_id hex_encode device a session w answer)
  unfolding answered start_stream stream leave_session leave_sink end_session close_channel fail
      drop_channel
  answered-IsSaid device a session w none o r e = cc
  answered-IsSaid device a session w (some (err t)) o r e = refl
  answered-IsSaid device a session w (some (ok answer)) o r e =
      started-IsSaid device a session w answer r e

  with_channel-IsSaid :
      (device : Device) (a : Answers) (session : MirroringSession)
      → a.sink_made ≡ true
      → (launch_mirroring json local_id
          (mode_of device)
          a.launch_at
          session_timeout
          (opened json local_id hex_encode fresh_channel a).control).0
        ≡ some (ok session)
      → IsSaid (transcript device a session) (
          with_channel json local_id hex_encode device a
            (opened json local_id hex_encode fresh_channel a))
  unfolding with_channel launched negotiate launch_mirroring send_offer drop_session send_stop
      new_request_id send_json send connect_transport close_transport
  with_channel-IsSaid device a session sink launch =
      let w = opened json local_id hex_encode fresh_channel a in
      let (result, control) =
        launch_mirroring json local_id (mode_of device) a.launch_at session_timeout w.control in
      let w' = happens (record w { control = control }) (sink_created ∷ []) in
      else-IsSaid (transcript device a session) (not a.sink_made) (fail (close_channel w) no_sink)
        (launched json local_id hex_encode device a w' result) (ap not sink)
        (subst
          (λ x.
            IsSaid (transcript device a session) (launched json local_id hex_encode device a w' x))
          (sym launch) (answered-IsSaid device a session _ _ refl))

-- The whole conversation of a session that is launched, if the dispatcher takes its messages: LAUNCH,
-- CONNECT and OFFER, and then, however the session ends, STOP for the application that was launched
-- and a CLOSE for each of the two virtual connections, in this order, each once and nothing else,
-- with request numbers that follow one another.
pub run_with_device-outbound :
    (json : Json) (local_id : Text) (hex_encode : List ℕ → Text) (device : Device) (a : Answers)
    (session : MirroringSession) (w : World) (r : Result Failure (Unit {0}))
    → a.connected ≡ some fresh_channel
    → a.sink_made ≡ true
    → (launch_mirroring json local_id
        (mode_of device)
        a.launch_at
        session_timeout
        (opened json local_id hex_encode fresh_channel a).control).0
      ≡ some (ok session)
    → run_with_device json local_id hex_encode device a ≡ some w
    → w.outcome ≡ some r
    → w.control.channel.outbound ≡ transcript json local_id hex_encode device a session
unfolding run_with_device
run_with_device-outbound json local_id hex_encode device a session w r made sink launch e o =
    let f = some-injective _ _ (rw (made, run_with_device) at e) in
    subst
      (λ (v : World).
        v.control.channel.outbound ≡ transcript json local_id hex_encode device a session)
      f
      (with_channel-IsSaid json local_id hex_encode device a session sink launch r
        (ap (λ (v : World). v.outcome) f ∙ o))
