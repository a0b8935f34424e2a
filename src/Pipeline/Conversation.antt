-- ===== src/Pipeline/Conversation.antt =====
-- A session of src/pipeline.rs over a connection of src/cast_channel.rs: what its receiver is sent.
use chromecast_sink.Base.{
  ℕ, ◌≡◌, refl, ap, ◌∙◌, sym, true, false, Option, some, List, [], ◌∷◌, ◌++◌, take, replicate,
}
use chromecast_sink.Base.Result.{Result, ok}
use chromecast_sink.Json.{Json}
use chromecast_sink.Channel.Utf8.{Text}
use chromecast_sink.Channel.Message.{CastMessage}
use chromecast_sink.Channel.Handle.{CastChannel}
use chromecast_sink.Channel.Dispatcher.{Session, Tick, dispatcher}
use chromecast_sink.Channel.Dispatcher.Forwarded.{rounds_read}
use chromecast_sink.Channel.Dispatcher.Outgoing.{of_caller, of_caller-append, arrived}
use chromecast_sink.Channel.Dispatcher.Written.{Begins}
use chromecast_sink.Channel.Dispatcher.Delivered.{IsDelivered}
use chromecast_sink.Channel.Connect.{Network, connect_message, connect}
use chromecast_sink.Channel.Connect.Opened.{connect-eq-ok, connect-dispatcher}
use chromecast_sink.Discovery.{Device}
use chromecast_sink.Mirroring.{MirroringSession}
use chromecast_sink.Mirroring.Launch.{launch_mirroring}
use chromecast_sink.Pipeline.{
  Answers, World, Failure, opened, run_with_device, session_timeout, mode_of,
}
use chromecast_sink.Pipeline.Transcript.{fresh_channel, transcript, run_with_device-outbound}

module _ (json : Json) (local_id : Text) (hex_encode : List ℕ → Text) where
  -- No message of a session is the dispatcher's own.
  of_caller-transcript :
      (device : Device) (a : Answers) (session : MirroringSession)
      → of_caller (transcript json local_id hex_encode device a session)
        ≡ transcript json local_id hex_encode device a session
  of_caller-transcript device a session = refl

  -- The channel of the connection, whose dispatcher takes six messages.
  connected_channel :
      (n : Network) (addr : ℕ) (ch : CastChannel) (s : Session)
      → connect json local_id n ≡ ok (addr, ch, s)
      → n.taken ≡ replicate 6 true
      → ch ≡ fresh_channel
  connected_channel n addr ch s e taken =
      (connect-eq-ok json local_id n addr ch s e).0
      ∙ ap (λ answers. record { answers = answers; outbound = []; stop = false; joined = false })
          taken

  -- Of a session that is launched over a connection that opens, if the dispatcher takes its messages
  -- and gets what was enqueued: leaving the heartbeats out, the first message written is the CONNECT
  -- of the connection; this and then the LAUNCH, CONNECT, OFFER, STOP and two CLOSEs of the session are
  -- in this order what is written, each once and nothing else, but for one message at most that is
  -- lost when a write fails in a round, and one in the last flush, and what is never received; all of
  -- it is written if no write fails.
  pub conversation :
      (json_type : Text → Option Text) (n : Network) (addr : ℕ) (ch : CastChannel) (s : Session)
      (device : Device) (a : Answers) (session : MirroringSession) (w : World)
      (r : Result Failure (Unit {0})) (ticks : List Tick) (late : List CastMessage)
      → connect json local_id n ≡ ok (addr, ch, s)
      → n.taken ≡ replicate 6 true
      → a.connected ≡ some ch
      → a.sink_made ≡ true
      → (launch_mirroring json local_id
          (mode_of device)
          a.launch_at
          session_timeout
          (opened json local_id hex_encode fresh_channel a).control).0
        ≡ some (ok session)
      → run_with_device json local_id hex_encode device a ≡ some w
      → w.outcome ≡ some r
      → arrived (take (rounds_read json_type local_id ticks s) ticks) ++ late
        ≡ w.control.channel.outbound
      → let d = dispatcher json_type local_id ticks late s in
        Begins (connect_message json local_id) d
        × IsDelivered d
            (connect_message json local_id ∷ transcript json local_id hex_encode device a session)
  conversation json_type n addr ch s device a session w r ticks late e taken made sink launch run o
        all =
      let same = connected_channel n addr ch s e taken in
      let got = arrived (take (rounds_read json_type local_id ticks s) ticks) in
      let said =
        run_with_device-outbound json local_id hex_encode device a session w r (made ∙ ap some same)
          sink launch run o in
      let same_words : of_caller got ++ of_caller late
          ≡ transcript json local_id hex_encode device a session =
        sym (of_caller-append got late)
        ∙ ap of_caller (all ∙ said)
        ∙ of_caller-transcript device a session in
      rw same_words at (connect-dispatcher json local_id json_type n addr ch s ticks late e)
