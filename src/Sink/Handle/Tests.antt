-- ===== src/Sink/Handle/Tests.antt =====
-- The life of a sink of src/virtual_sink.rs at concrete answers.
use chromecast_sink.Base.{◌≡◌, ap, true, none, some, List, [], ◌∷◌, ◌++◌, replicate, codes}
use chromecast_sink.Base.Result.{ok}
use chromecast_sink.Sink.{Event, streaming, stream_error, other_state, run_pw_thread}
use chromecast_sink.Sink.Ready.{first_message}
use chromecast_sink.Sink.Handle.{
  spawned, quit_sent, joined, message, drop_sink, await_ready, sink_of, new_sink, ready_of,
  take_all,
}
use chromecast_sink.Sink.Handle.Life.{
  sink_ring, ran, made_by, new_sink-spawn_sink, new_sink_lem, sink_life,
}

-- The stream runs, and fails later
abbrev events : List Event
events = streaming ∷ stream_error ∷ []

new_sink_lem_example :
    let thread = run_pw_thread true true true (other_state ∷ []) events in
    new_sink (codes "Nest") (ready_of true (first_message thread))
    ≡ made_by (codes "Nest") true (ran true true true (other_state ∷ []) events)
new_sink_lem_example = new_sink_lem (codes "Nest") true true true true (other_state ∷ []) events

made : (new_sink (codes "Nest") (message true)).0 ≡ ok (sink_of (codes "Nest") sink_ring)
unfolding await_ready
made = ap (λ r. r.0) (new_sink-spawn_sink (codes "Nest") (message true))

sink_life_test :
    ((take_all 3 (sink_of (codes "Nest") sink_ring)).1 ≡ some sink_ring ∷ replicate 2 none)
    × ((new_sink (codes "Nest") (message true)).1
          ++ drop_sink (take_all 3 (sink_of (codes "Nest") sink_ring)).0
        ≡ spawned ∷ quit_sent ∷ joined ∷ [])
sink_life_test = sink_life (codes "Nest") (message true) (sink_of (codes "Nest") sink_ring) 2 made
