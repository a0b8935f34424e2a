-- ===== src/Pipeline/Tidy.antt =====
-- The parts of a session of src/pipeline.rs are set up and torn down in an order that works.
use mathlib.Core.Option.{some-injective}
use mathlib.Core.Path.{subst}
use chromecast_sink.Base.{
  ℕ, ◌≡◌, refl, ap, ◌∙◌, Bool, true, false, not, Option, none, some, List, [], ◌∷◌, ◌++◌,
  Bool-cases, Option-cases, inl, inr, if◌then◌else◌,
}
use chromecast_sink.Base.Result.{Result, ok, err}
use chromecast_sink.Json.{Json}
use chromecast_sink.Channel.Utf8.{Text}
use chromecast_sink.Channel.Handle.{CastChannel, connect_transport}
use chromecast_sink.Mirroring.Offer.{send_offer}
use chromecast_sink.Discovery.{Device}
use chromecast_sink.Mirroring.{MirroringSession, StreamAnswer, Trouble}
use chromecast_sink.Mirroring.Launch.{launch_mirroring}
use chromecast_sink.Pipeline.{
  sink_created, session_launched, sender_bound, sender_started, monitor_spawned, captured,
  sender_stopped, session_dropped, channel_dropped, monitor_joined, sink_dropped, sender_dropped,
  Answers, World, Failure, happens, fail, close_channel, end_session, leave_sink, leave_session,
  stream, start_stream, config_of, answered, negotiate, launched, with_channel, opened,
  run_with_device, contains_zero, no_handler, no_sink, dispatcher_gone, session_timeout, mode_of,
}
use chromecast_sink.Pipeline.Held.{
  Held, nothing_held, follow_one, follow, Holds, extend, happens-Holds,
}

abbrev with_sink : Held
with_sink = record nothing_held { channel = true; sink = true }

abbrev with_session : Held
with_session = record with_sink { session = true }

leave_sink-Holds :
    (w : World) (e : Failure) → Holds w with_sink → Holds (leave_sink w e) nothing_held
unfolding leave_sink fail close_channel follow_one
leave_sink-Holds w e h =
    happens-Holds (happens w (sink_dropped ∷ [])) (record nothing_held { channel = true })
      (channel_dropped ∷ []) (happens-Holds w with_sink (sink_dropped ∷ []) h)

module _ (json : Json) (local_id : Text) (hex_encode : List ℕ → Text) where
  leave_session-Holds :
      (w : World) (session : MirroringSession) (e : Failure)
      → Holds w with_session
      → Holds (leave_session json local_id hex_encode w session e) nothing_held
  unfolding leave_session end_session follow_one
  leave_session-Holds w session e h =
      leave_sink-Holds (end_session json local_id hex_encode w session) e
        (happens-Holds w with_session (session_dropped ∷ []) h)

  stream-Holds :
      (a : Answers) (session : MirroringSession) (w : World)
      → Holds w (record with_session { sender = true; sending = true })
      → Holds (stream json local_id hex_encode a session w) nothing_held
  unfolding stream end_session close_channel follow_one
  stream-Holds a session w h =
      let streamed = w.events ++ (monitor_spawned ∷ captured ∷ sender_stopped ∷ []) in
      let unloaded = streamed ++ (session_dropped ∷ []) in
      let closed = unloaded ++ (channel_dropped ∷ []) in
      extend (record nothing_held { sink = true; sender = true; monitor = true }) closed
        (monitor_joined ∷ sink_dropped ∷ sender_dropped ∷ [])
        (extend (record with_sink { sender = true; monitor = true }) unloaded (channel_dropped ∷ [])
          (extend (record with_session { sender = true; monitor = true }) streamed
            (session_dropped ∷ [])
            (extend (record with_session { sender = true; sending = true }) w.events
              (monitor_spawned ∷ captured ∷ sender_stopped ∷ []) h)))

  start_stream-Holds :
      (device : Device) (a : Answers) (session : MirroringSession) (w : World)
      (answer : StreamAnswer)
      → Holds w with_session
      → Holds (start_stream json local_id hex_encode device a session w answer) nothing_held
  unfolding start_stream stream end_session close_channel follow_one
  start_stream-Holds device a session w answer h =
      elim (Bool-cases (contains_zero answer.send_indexes)) [
        | inr refused ↦ rw (refused, start_stream) (leave_session-Holds w session _ h)
        | inl accepted ↦ elim (Bool-cases a.socket_bound) [
          | inr unbound ↦ rw (accepted, unbound, start_stream) (leave_session-Holds w session _ h)
          | inl bound ↦ elim (Bool-cases a.handler_set) [
            | inr unset ↦
                rw (accepted, bound, unset, start_stream)
                  (leave_session-Holds
                    (happens (record w { config = some (config_of device a answer) })
                      (sender_bound ∷ sender_started ∷ sender_stopped ∷ sender_dropped ∷ []))
                    session no_handler
                    (happens-Holds w with_session
                      (sender_bound ∷ sender_started ∷ sender_stopped ∷ sender_dropped ∷ []) h))
            | inl set ↦
                rw (accepted, bound, set, start_stream)
                  (stream-Holds a session
                    (happens (record w { config = some (config_of device a answer) })
                      (sender_bound ∷ sender_started ∷ []))
                    (happens-Holds w with_session (sender_bound ∷ sender_started ∷ []) h))
          ]
        ]
      ]

  -- Tidied up, or not over.
  abbrev IsSettled : World → Type 0
  IsSettled w = (r : Result Failure (Unit {0})) → w.outcome ≡ some r → Holds w nothing_held

  if-IsSettled :
      (b : Bool) (x y : World) → IsSettled x → IsSettled y → IsSettled (if b then x else y)
  if-IsSettled true x y h k = h
  if-IsSettled false x y h k = k

  answered-IsSettled :
      (device : Device) (a : Answers) (session : MirroringSession) (w : World)
      (answer : Option (Result Trouble StreamAnswer))
      → Holds w with_session
      → w.outcome ≡ none
      → IsSettled (answered json local_id hex_encode device a session w answer)
  unfolding answered
  answered-IsSettled device a session w none h o r e = cc
  answered-IsSettled device a session w (some (err t)) h o r e = leave_session-Holds w session _ h
  answered-IsSettled device a session w (some (ok answer)) h o r e =
      start_stream-Holds device a session w answer h

  negotiate-IsSettled :
      (device : Device) (a : Answers) (w : World) (session : MirroringSession)
      → Holds w with_session
      → w.outcome ≡ none
      → IsSettled (negotiate json local_id hex_encode device a w session)
  unfolding negotiate
  negotiate-IsSettled device a w session h o =
      let (channel, sent) =
        connect_transport json local_id w.control.channel session.transport_id in
      let w' = record w { control = record w.control { channel = channel } } in
      let (answer, control) =
        send_offer json local_id hex_encode session.transport_id a.offer a.offer_at session_timeout
          w'.control in
      if-IsSettled sent
        (answered json local_id hex_encode device a session (record w' { control = control })
          answer)
        (leave_session json local_id hex_encode w' session dispatcher_gone)
        (answered-IsSettled device a session (record w' { control = control }) answer h o)
        (λ r e. leave_session-Holds w' session dispatcher_gone h)

  launched-IsSettled :
      (device : Device) (a : Answers) (w : World)
      (result : Option (Result Trouble MirroringSession))
      → Holds w with_sink
      → w.outcome ≡ none
      → IsSettled (launched json local_id hex_encode device a w result)
  unfolding launched follow_one
  launched-IsSettled device a w none h o r e = cc
  launched-IsSettled device a w (some (err t)) h o r e = leave_sink-Holds w _ h
  launched-IsSettled device a w (some (ok session)) h o r e =
      negotiate-IsSettled device a (happens w (session_launched ∷ [])) session
        (happens-Holds w with_sink (session_launched ∷ []) h) o r e

  with_channel-IsSettled :
      (device : Device) (a : Answers) (channel : CastChannel)
      → IsSettled (
          with_channel json local_id hex_encode device a
            (opened json local_id hex_encode channel a))
  unfolding with_channel fail close_channel follow_one
  with_channel-IsSettled device a channel =
      let w = opened json local_id hex_encode channel a in
      let (session, control) =
        launch_mirroring json local_id (mode_of device) a.launch_at session_timeout w.control in
      let w' = happens (record w { control = control }) (sink_created ∷ []) in
      if-IsSettled (not a.sink_made) (fail (close_channel w) no_sink)
        (launched json local_id hex_encode device a w' session) (λ r e. refl)
        (launched-IsSettled device a w' session refl refl)

-- Whatever the calls answer, when a session is over everything that was set up has been torn down, in
-- an order that works: its last messages are sent while the channel is open, after the threads that
-- send have stopped; the channel is closed before the monitor is joined, which else would wait
-- forever; the capture loop has run between, with the sink, the sender and the monitor there, or not
-- at all; and nothing is torn down twice.
pub run_with_device-follow :
    (json : Json) (local_id : Text) (hex_encode : List ℕ → Text) (device : Device) (a : Answers)
    (w : World) (r : Result Failure (Unit {0}))
    → run_with_device json local_id hex_encode device a ≡ some w
    → w.outcome ≡ some r
    → follow (some nothing_held) w.events ≡ some nothing_held
unfolding run_with_device
run_with_device-follow json local_id hex_encode device a w r e o = elim (Option-cases a.connected) [
  | inl failed ↦ let f : none ≡ some w = rw (failed, run_with_device) at e in cc
  | inr (channel, made) ↦
      let f = some-injective _ _ (rw (made, run_with_device) at e) in
      subst (λ v. follow (some nothing_held) v.events ≡ some nothing_held) f
        (with_channel-IsSettled json local_id hex_encode device a channel r
          (ap (λ (v : World). v.outcome) f ∙ o))
]
