-- ===== src/Sink/Handle.antt =====
-- `VirtualSink` of src/virtual_sink.rs: the caller's handle on the thread that owns the stream.
pub mod Life
mod Tests
use chromecast_sink.Base.{
  ℕ, zero, suc, ◌+◌, ◌*◌, ◌≡◌, refl, Bool, true, false, Option, none, some, List, [], ◌∷◌, ◌++◌,
  if◌then◌else◌, arith, inl, inr, ◌⊎◌, append_assoc,
}
use chromecast_sink.Base.Result.{Result, ok, err}
use chromecast_sink.Ring.{AudioRing, channel}
use chromecast_sink.Sink.{Event, SinkThread, run_pw_thread, sanitize_sink_name}
use chromecast_sink.Sink.Ready.{ran_first, first_message, run_pw_thread-first_message}

abbrev pub ring_capacity_frames : ℕ
ring_capacity_frames = 8192

-- In nanoseconds.
abbrev pub ready_timeout : ℕ
ready_timeout = 10_000_000_000

-- What a handle does to its thread.
pub data Effect : Type 0 where
  spawned quit_sent joined : Effect

-- Of `quit_tx` and of the thread's handle, whether they are still held.
pub record VirtualSink : Type 0 where
  pub sink_name : List ℕ
  pub consumer : Option AudioRing
  pub quit_tx : Bool
  pub thread : Bool

pub data SinkError : Type 0 where
  no_ring thread_failed not_started thread_died : SinkError

-- `ready_rx.recv_timeout(..)`: a message, `true` for `Ok(())`, or one of its two errors.
pub data Ready : Type 0 where
  message : Bool → Ready
  timed_out disconnected : Ready

-- `Drop`.
pub drop_sink : VirtualSink → List Effect
drop_sink s = (if s.quit_tx then quit_sent ∷ [] else []) ++ (if s.thread then joined ∷ [] else [])

abbrev pub sink_of : List ℕ → AudioRing → VirtualSink
sink_of device_name ring = record {
  sink_name = sanitize_sink_name device_name;
  consumer = some ring;
  quit_tx = true;
  thread = true;
}

-- With the handle: an early return drops it.
pub await_ready : VirtualSink → Ready → Result SinkError VirtualSink × List Effect
await_ready s (message true) = (ok s, [])
await_ready s (message false) = (err thread_failed, drop_sink s)
await_ready s timed_out = (err not_started, drop_sink s)
await_ready s disconnected = (err thread_died, drop_sink s)

-- With the thread.
abbrev pub spawn_sink : VirtualSink → Ready → Result SinkError VirtualSink × List Effect
spawn_sink s ready = let (r, effects) = await_ready s ready in (r, spawned ∷ effects)

-- `VirtualSink::new`. The assertions of `audio_ring::channel` are `no_ring`.
pub new_sink : List ℕ → Ready → Result SinkError VirtualSink × List Effect
new_sink device_name ready = elim (channel ring_capacity_frames 2) [
  | none ↦ (err no_ring, [])
  | some ring ↦ spawn_sink (sink_of device_name ring) ready
]

pub take_consumer : VirtualSink → VirtualSink × Option AudioRing
take_consumer s = (record s { consumer = none }, s.consumer)

-- What `recv_timeout` gives, when the thread's messages are sent at these times, none before the
-- deadline, and the thread drops its sender at the end.
abbrev pub ready_of : Bool → Option Bool → Ready
ready_of in_time none = if in_time then disconnected else timed_out
ready_of in_time (some m) = if in_time then message m else timed_out

-- `n` calls of `take_consumer`, and what they return.
pub take_all : ℕ → VirtualSink → VirtualSink × List (Option AudioRing)
take_all zero s = (s, [])
take_all (suc n) s =
    let (s', taken) = take_consumer s in let (s'', later) = take_all n s' in (s'', taken ∷ later)
