-- ===== src/Pipeline/Success.antt =====
-- When a session of src/pipeline.rs ends without an error.
use chromecast_sink.Base.{
  ℕ, ◌≡◌, refl, ap, ◌∙◌, Bool, true, false, not, Option, none, some, List, if◌then◌else◌,
  Bool-cases, Option-cases, inl, inr, arith,
}
use chromecast_sink.Base.Result.{Result, ok, err}
use chromecast_sink.Json.{Json}
use chromecast_sink.Channel.Utf8.{Text}
use chromecast_sink.Channel.Handle.{CastChannel, connect_transport}
use chromecast_sink.Discovery.{Device}
use chromecast_sink.Mirroring.{Trouble, StreamAnswer, MirroringSession}
use chromecast_sink.Pipeline.{
  no_sink, Failure, Answers, World, run_with_device, fail, leave_sink, leave_session, stream,
  start_stream, answered, negotiate, launched, with_channel, opened, contains_zero,
}

-- Every part of the session was there, and the capture loop ended without an error.
abbrev pub AllWent : Answers → Type 0
AllWent a =
    (a.sink_made ≡ true)
    × (a.socket_bound ≡ true)
    × (a.handler_set ≡ true)
    × (a.captured_well ≡ true)

module _ (json : Json) (local_id : Text) (hex_encode : List ℕ → Text) (a : Answers) where
  abbrev IsGood : World → Type 0
  IsGood w = w.outcome ≡ some (ok tt) → a.sink_made ≡ true → AllWent a

  test-IsGood :
      (b : Bool) (x y : World) → IsGood x → (b ≡ false → IsGood y) → IsGood (if b then x else y)
  test-IsGood true x y h k = h
  test-IsGood false x y h k = k refl

  waits-IsGood : (w : World) → w.outcome ≡ none → IsGood w
  waits-IsGood w waits ended made = cc

  leave_session-IsGood :
      (w : World) (session : MirroringSession) (e : Failure)
      → IsGood (leave_session json local_id hex_encode w session e)
  unfolding leave_session leave_sink fail
  leave_session-IsGood w session e ended made = absurd (cc)

  fail-IsGood : (w : World) (e : Failure) → IsGood (fail w e)
  unfolding fail
  fail-IsGood w e ended made = absurd (cc)

  leave_sink-IsGood : (w : World) (e : Failure) → IsGood (leave_sink w e)
  unfolding leave_sink fail
  leave_sink-IsGood w e ended made = absurd (cc)

  stream-IsGood :
      (session : MirroringSession) (w : World)
      → a.socket_bound ≡ true
      → a.handler_set ≡ true
      → IsGood (stream json local_id hex_encode a session w)
  unfolding stream
  stream-IsGood session w bound set ended made = ground arith

  start_stream-IsGood :
      (device : Device) (session : MirroringSession) (w : World) (answer : StreamAnswer)
      → IsGood (start_stream json local_id hex_encode device a session w answer)
  unfolding start_stream
  start_stream-IsGood device session w answer =
      test-IsGood (not (contains_zero answer.send_indexes)) _ _ (leave_session-IsGood w session _)
        λ accepted. test-IsGood (not a.socket_bound) _ _ (leave_session-IsGood w session _) λ bound.
          test-IsGood (not a.handler_set) _ _ (leave_session-IsGood _ session _)
            λ set. stream-IsGood session _ (ground arith) (ground arith)

  answered-IsGood :
      (device : Device) (session : MirroringSession) (w : World)
      (answer : Option (Result Trouble StreamAnswer))
      → w.outcome ≡ none
      → IsGood (answered json local_id hex_encode device a session w answer)
  unfolding answered
  answered-IsGood device session w none waits = waits-IsGood w waits
  answered-IsGood device session w (some (err e)) waits = leave_session-IsGood w session _
  answered-IsGood device session w (some (ok answer)) waits =
      start_stream-IsGood device session w answer

  negotiate-IsGood :
      (device : Device) (w : World) (session : MirroringSession)
      → w.outcome ≡ none
      → IsGood (negotiate json local_id hex_encode device a w session)
  unfolding negotiate
  negotiate-IsGood device w session waits =
      let (channel, sent) =
        connect_transport json local_id w.control.channel session.transport_id in
      elim (Bool-cases sent) [
        | inl taken ↦ rw taken (answered-IsGood device session _ _ waits)
        | inr gone ↦ rw gone (leave_session-IsGood _ session _)
      ]

  launched-IsGood :
      (device : Device) (w : World) (session : Option (Result Trouble MirroringSession))
      → w.outcome ≡ none
      → IsGood (launched json local_id hex_encode device a w session)
  unfolding launched
  launched-IsGood device w none waits = waits-IsGood w waits
  launched-IsGood device w (some (err e)) waits = leave_sink-IsGood w _
  launched-IsGood device w (some (ok session)) waits = negotiate-IsGood device _ session waits

  with_channel-IsGood :
      (device : Device) (w : World)
      → w.outcome ≡ none
      → IsGood (with_channel json local_id hex_encode device a w)
  unfolding with_channel
  with_channel-IsGood device w waits =
      test-IsGood (not a.sink_made) _ _ (fail-IsGood _ _) λ made. launched-IsGood device _ _ waits

  without_sink :
      (device : Device) (w : World)
      → a.sink_made ≡ false
      → (with_channel json local_id hex_encode device a w).outcome ≡ some (err no_sink)
  unfolding with_channel fail
  without_sink device w none_made = ground arith

  -- A session ends without an error only if the connection was opened, the sink, the socket and the
  -- signal handler were made, and the capture loop ended without one.
  pub run_with_device-AllWent :
      (device : Device) (w : World)
      → run_with_device json local_id hex_encode device a ≡ some w
      → w.outcome ≡ some (ok tt)
      → (ch : CastChannel) × (a.connected ≡ some ch) × AllWent a
  unfolding run_with_device
  run_with_device-AllWent device w e ended = elim (Option-cases a.connected) [
    | inl nothing ↦ absurd (ground arith)
    | inr (ch, there) ↦ (ch, there, went ch there)
  ]
    where
      went : (ch : CastChannel) → a.connected ≡ some ch → AllWent a
      went ch there =
          let start = opened json local_id hex_encode ch a in
          let same : with_channel json local_id hex_encode device a start ≡ w = ground arith in
          let over = ap (λ (v : World). v.outcome) same ∙ ended in
          elim (Bool-cases a.sink_made) [
            | inl made ↦ with_channel-IsGood device start refl over made
            | inr none_made ↦ absurd (cc (without_sink device start none_made, over))
          ]
