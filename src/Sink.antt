-- ===== src/Sink.antt =====
-- src/virtual_sink.rs: the name of the sink, the thread that owns the stream as PipeWire's callbacks
-- drive it, and the bytes that `process` takes from a buffer.
pub mod Name
pub mod Ready
pub mod Slice
pub mod Handle
mod Tests
use mathlib.Core.List.{foldl}
use chromecast_sink.Base.{
  ℕ, ◌+◌, ◌-◌, ◌%◌, ◌^◌, min, Bool, true, false, not, ◌&&◌, ◌||◌, Option, none, some, List, [], ◌∷◌,
  ◌++◌, length, take, drop, ltb, leb, ◌==◌, if◌then◌else◌,
}

-- A character is its code point.
abbrev pub underscore : ℕ
underscore = 0x5f

abbrev pub is_upper : ℕ → Bool
is_upper c = leb 0x41 c && leb c 0x5a

abbrev pub is_ascii_alphanumeric : ℕ → Bool
is_ascii_alphanumeric c = (leb 0x30 c && leb c 0x39) || (is_upper c || (leb 0x61 c && leb c 0x7a))

-- `to_lowercase` of an ASCII character.
abbrev pub to_lowercase : ℕ → ℕ
to_lowercase c = if is_upper c then c + 0x20 else c

-- "chromecast_sink"
abbrev pub name_stem : List ℕ
name_stem =
    0x63 ∷ 0x68 ∷ 0x72 ∷ 0x6f ∷ 0x6d ∷ 0x65 ∷ 0x63 ∷ 0x61 ∷ 0x73 ∷ 0x74 ∷ 0x5f ∷ 0x73 ∷ 0x69 ∷ 0x6e
    ∷ 0x6b ∷ []

-- `for c in device_name.chars()`
pub sanitize_loop : List ℕ → Bool → List ℕ → List ℕ
sanitize_loop out prev_us [] = out
sanitize_loop out prev_us (c ∷ cs) =
    let kept = sanitize_loop (out ++ (to_lowercase c ∷ [])) false cs in
    let marked = sanitize_loop (out ++ (underscore ∷ [])) true cs in
    let skipped = sanitize_loop out prev_us cs in
    if is_ascii_alphanumeric c then kept else if not prev_us then marked else skipped

-- `while out.ends_with('_') { out.pop(); }`
pub pop_underscores : List ℕ → List ℕ
pop_underscores [] = []
pop_underscores (c ∷ cs) = elim (pop_underscores cs) [
  | [] ↦ if c == underscore then [] else c ∷ []
  | d ∷ ds ↦ c ∷ d ∷ ds
]

pub sanitize_sink_name : List ℕ → List ℕ
sanitize_sink_name device_name =
    pop_underscores (sanitize_loop (name_stem ++ (underscore ∷ [])) true device_name)

-- What the main loop reports: a new state of the stream, or that the caller wants it to quit.
pub data Event : Type 0 where
  streaming stream_error unconnected other_state quit : Event

-- `ready` holds what is sent on `ready_tx`, `true` for `Ok(())`, in order; `closed` whether the ring
-- is closed.
pub record SinkThread : Type 0 where
  pub signalled : Bool
  pub shutdown : Bool
  pub ready : List Bool
  pub closed : Bool

-- `if !signalled.swap(true) { ready_tx.send(..) }`
abbrev pub signal : Bool → SinkThread → SinkThread
signal ok s =
    if s.signalled
    then record s { signalled = true }
    else record s { signalled = true; ready = s.ready ++ (ok ∷ []) }

-- `state_changed`, and the callback of `quit_rx`.
pub on_event : SinkThread → Event → SinkThread
on_event s streaming = signal true s
on_event s stream_error = record (signal false s) { closed = true }
on_event s unconnected = if s.signalled && not s.shutdown then record s { closed = true } else s
on_event s other_state = s
on_event s quit = record s { shutdown = true }

-- A step that failed: its error is sent and the thread ends.
abbrev pub give_up : SinkThread → SinkThread
give_up s = record s { ready = s.ready ++ (false ∷ []); closed = true }

-- Behind `mainloop.run()`.
abbrev pub loop_ended : SinkThread → SinkThread
loop_ended s = record (signal false s) { closed = true }

abbrev pub unsignalled : SinkThread
unsignalled = record { signalled = false; shutdown = false; ready = []; closed = false }

-- `inited`, `registered` and `connected` are whether these steps succeed; `early` is what is
-- reported during the connect, `events` what the main loop reports until it ends.
pub run_pw_thread : Bool → Bool → Bool → List Event → List Event → SinkThread
run_pw_thread inited registered connected early events =
    if not inited
    then give_up unsignalled
    else if not registered
    then give_up unsignalled
    else if not connected
    then give_up (foldl on_event unsignalled early)
    else loop_ended (foldl on_event (foldl on_event unsignalled early) events)

-- The part of a buffer that `process` hands to the ring, `none` where it skips the buffer.
unfoldable pub process_slice : List ℕ → ℕ → ℕ → Option (List ℕ)
process_slice slice chunk_offset size =
    let offset = chunk_offset % length slice in
    let end = min (min (offset + size) (2 ^ 64 - 1)) (length slice) in
    if length slice == 0
    then none
    else if ltb offset end
    then some (take (end - offset) (drop offset slice))
    else none
