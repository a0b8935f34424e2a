-- ===== src/Sink/Handle/Life.antt =====
-- From `VirtualSink::new` of src/virtual_sink.rs to the drop of the sink.
use chromecast_sink.Base.{
  ℕ, zero, suc, ◌*◌, ◌-◌, ◌≡◌, refl, sym, ap, ◌∙◌, Bool, true, false, ◌&&◌, none, some, List, [],
  ◌∷◌, ◌++◌, replicate, if◌then◌else◌, arith,
}
use mathlib.Core.Path.{ap₂}
use chromecast_sink.Base.Result.{Result, ok, err, ok-injective}
use chromecast_sink.Ring.{AudioRing, channel, is_power_of_two, power_of_two_loop}
use chromecast_sink.Sink.{Event, run_pw_thread}
use chromecast_sink.Sink.Ready.{ran_first, first_message, run_pw_thread-first_message}
use chromecast_sink.Sink.Handle.{
  ring_capacity_frames, Effect, spawned, quit_sent, joined, VirtualSink, SinkError, thread_failed,
  not_started, Ready, drop_sink, sink_of, spawn_sink, await_ready, new_sink, take_consumer,
  ready_of, take_all,
}

-- The ring of every sink.
abbrev pub sink_ring : AudioRing
sink_ring = record {
  buf = replicate (ring_capacity_frames * 2) 0;
  capacity = ring_capacity_frames;
  channels = 2;
  sample_mask = ring_capacity_frames * 2 - 1;
  reserved = 0;
  write = 0;
  read = 0;
  closed = false;
}

channel_made : channel ring_capacity_frames 2 ≡ some sink_ring
unfolding channel is_power_of_two power_of_two_loop
channel_made = refl

-- That the stream ran before anything failed.
abbrev pub ran : Bool → Bool → Bool → List Event → List Event → Bool
ran inited registered connected early events =
    inited && (registered && (if connected then ran_first (early ++ events) else ran_first early))

pub new_sink-spawn_sink :
    (device_name : List ℕ) (ready : Ready)
    → new_sink device_name ready ≡ spawn_sink (sink_of device_name sink_ring) ready
unfolding new_sink
new_sink-spawn_sink device_name ready = rw (channel_made, new_sink) refl

-- By whether the first message is in time, and whether it is an Ok.
abbrev pub made_by : List ℕ → Bool → Bool → Result SinkError VirtualSink × List Effect
made_by device_name in_time ok_first =
    if in_time && ok_first
    then (ok (sink_of device_name sink_ring), spawned ∷ [])
    else (err (if in_time then thread_failed else not_started), spawned ∷ quit_sent ∷ joined ∷ [])

spawn_sink-made_by :
    (device_name : List ℕ) (in_time ok_first : Bool)
    → spawn_sink (sink_of device_name sink_ring) (ready_of in_time (some ok_first))
      ≡ made_by device_name in_time ok_first
unfolding await_ready drop_sink
spawn_sink-made_by device_name true true = refl
spawn_sink-made_by device_name true false = refl
spawn_sink-made_by device_name false true = refl
spawn_sink-made_by device_name false false = refl

-- Whatever the stream does and however long it takes: `new` gives a sink exactly if the first message
-- is in time and says that the stream ran before anything failed; in every other case it is an error,
-- and the thread has been told to quit and joined.
pub new_sink_lem :
    (device_name : List ℕ) (in_time inited registered connected : Bool) (early events : List Event)
    → let thread = run_pw_thread inited registered connected early events in
      new_sink device_name (ready_of in_time (first_message thread))
      ≡ made_by device_name in_time (ran inited registered connected early events)
new_sink_lem device_name in_time inited registered connected early events =
    let thread = run_pw_thread inited registered connected early events in
    let first = (run_pw_thread-first_message inited registered connected early events).1 in
    new_sink-spawn_sink device_name (ready_of in_time (first_message thread))
    ∙ ap (λ m. spawn_sink (sink_of device_name sink_ring) (ready_of in_time m)) first
    ∙ spawn_sink-made_by device_name in_time (ran inited registered connected early events)

take_all-consumed :
    (n : ℕ) (s : VirtualSink) → s.consumer ≡ none → (take_all n s).1 ≡ replicate n none
unfolding take_all take_consumer
take_all-consumed zero s e = refl
take_all-consumed (suc n) s e =
    ground (arith, take_all-consumed n (record s { consumer = none }) refl)

take_all-held :
    (n : ℕ) (s : VirtualSink)
    → ((take_all n s).0.quit_tx ≡ s.quit_tx) × ((take_all n s).0.thread ≡ s.thread)
unfolding take_all take_consumer
take_all-held zero s = (refl, refl)
take_all-held (suc n) s = take_all-held n (record s { consumer = none })

spawn_sink-eq-ok :
    (s s' : VirtualSink) (ready : Ready)
    → (spawn_sink s ready).0 ≡ ok s'
    → (s' ≡ s) × ((spawn_sink s ready).1 ≡ spawned ∷ [])
unfolding await_ready
spawn_sink-eq-ok s s' (Ready.message true) e = (sym (ok-injective e), refl)
spawn_sink-eq-ok s s' (Ready.message false) e = absurd (cc)
spawn_sink-eq-ok s s' Ready.timed_out e = absurd (cc)
spawn_sink-eq-ok s s' Ready.disconnected e = absurd (cc)

life_of :
    (s : VirtualSink) (n : ℕ)
    → s.quit_tx ≡ true
    → s.thread ≡ true
    → ((take_all (suc n) s).1 ≡ s.consumer ∷ replicate n none)
      × (drop_sink (take_all (suc n) s).0 ≡ quit_sent ∷ joined ∷ [])
unfolding drop_sink take_all take_consumer
life_of s n q t =
    let (hq, ht) = take_all-held n (record s { consumer = none }) in
    (
      ap (λ later. s.consumer ∷ later) (take_all-consumed n (record s { consumer = none }) refl),
      rw (hq, ht, q, t) refl,
    )

-- From `new` to the drop, however often the ring's consumer is asked for: it is handed out once, at
-- the first call, and the thread is spawned, told to quit and joined, in this order and each once.
pub sink_life :
    (device_name : List ℕ) (ready : Ready) (s : VirtualSink) (n : ℕ)
    → (new_sink device_name ready).0 ≡ ok s
    → ((take_all (suc n) s).1 ≡ some sink_ring ∷ replicate n none)
      × ((new_sink device_name ready).1 ++ drop_sink (take_all (suc n) s).0
          ≡ spawned ∷ quit_sent ∷ joined ∷ [])
sink_life device_name ready s n made =
    let eq = new_sink-spawn_sink device_name ready in
    let (same, effects) =
      spawn_sink-eq-ok (sink_of device_name sink_ring) s ready (ap (λ r. r.0) (sym eq) ∙ made) in
    let (taken, dropped) = life_of s n (ap (λ t. t.quit_tx) same) (ap (λ t. t.thread) same) in
    (
      taken ∙ ap (λ t. t.consumer ∷ replicate n none) same,
      ap₂ ◌++◌ (ap (λ r. r.1) eq ∙ effects) dropped,
    )
