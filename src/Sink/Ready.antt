-- ===== src/Sink/Ready.antt =====
-- What the caller of `VirtualSink::new` of src/virtual_sink.rs is told about the sink.
use mathlib.Core.List.{foldl}
use chromecast_sink.Base.{
  ◌≡◌, refl, Bool, true, false, Option, none, some, List, [], ◌∷◌, ◌++◌, if◌then◌else◌, arith, inl,
  inr, ◌⊎◌, ◌&&◌,
}
use chromecast_sink.Sink.{
  Event, streaming, stream_error, unconnected, other_state, quit, SinkThread, on_event, give_up,
  loop_ended, unsignalled, run_pw_thread,
}

-- Whether the stream ran before it failed.
abbrev pub ran_first : List Event → Bool
ran_first [] = false
ran_first (streaming ∷ es) = true
ran_first (stream_error ∷ es) = false
ran_first (_ ∷ es) = ran_first es

abbrev pub first_message : SinkThread → Option Bool
first_message s = elim s.ready [ [] ↦ none | m ∷ ms ↦ some m ]

abbrev IsTold : SinkThread → Bool → Type 0
IsTold s b = (s.signalled ≡ true) × (first_message s ≡ some b)

events-IsTold :
    (s : SinkThread) (b : Bool) (es : List Event) → IsTold s b → IsTold (foldl on_event s es) b
unfolding on_event
events-IsTold s b [] h = h
events-IsTold s b (streaming ∷ es) h = events-IsTold _ b es (ground arith)
events-IsTold s b (stream_error ∷ es) h = events-IsTold _ b es (ground arith)
events-IsTold s b (unconnected ∷ es) h = events-IsTold _ b es (ground arith)
events-IsTold s b (other_state ∷ es) h = events-IsTold _ b es h
events-IsTold s b (quit ∷ es) h = events-IsTold _ b es h

-- The message, once the stream is known to run or to have failed, and until then none.
abbrev IsListening : SinkThread → Bool → Type 0
IsListening s b = IsTold s b ⊎ ((s.signalled ≡ false) × (s.ready ≡ []) × (b ≡ false))

events-IsListening :
    (s : SinkThread) (es : List Event)
    → s.signalled ≡ false
    → s.ready ≡ []
    → IsListening (foldl on_event s es) (ran_first es)
unfolding on_event
events-IsListening s [] n r = inr (n, r, refl)
events-IsListening s (streaming ∷ es) n r = inl (events-IsTold _ true es (ground arith))
events-IsListening s (stream_error ∷ es) n r = inl (events-IsTold _ false es (ground arith))
events-IsListening s (unconnected ∷ es) n r = events-IsListening _ es (ground arith) (ground arith)
events-IsListening s (other_state ∷ es) n r = events-IsListening s es n r
events-IsListening s (quit ∷ es) n r = events-IsListening _ es n r

give_up_tells : (s : SinkThread) (b : Bool) → IsListening s b → first_message (give_up s) ≡ some b
give_up_tells s b (inl (n, m)) = by_ready s.ready m
  where
    by_ready :
        (ready : List Bool)
        → (elim ready [ [] ↦ none | m ∷ ms ↦ some m ]) ≡ some b
        → (elim (ready ++ (false ∷ [])) [ [] ↦ none | m ∷ ms ↦ some m ]) ≡ some b
    by_ready [] h = cc
    by_ready (m ∷ ms) h = h
give_up_tells s b (inr (n, r, e)) = ground arith

loop_ended_tells :
    (s : SinkThread) (b : Bool) → IsListening s b → first_message (loop_ended s) ≡ some b
loop_ended_tells s b (inl (n, m)) = ground arith
loop_ended_tells s b (inr (n, r, e)) = ground arith

foldl-append :
    (s : SinkThread) (a b : List Event)
    → foldl on_event (foldl on_event s a) b ≡ foldl on_event s (a ++ b)
foldl-append s [] b = refl
foldl-append s (e ∷ a) b = foldl-append (on_event s e) a b

-- However set-up goes and whatever the stream reports, when the thread ends the ring is closed and
-- the first message to the caller is an Ok exactly if set-up reached the stream and the stream ran
-- before it failed; there always is one.
pub run_pw_thread-first_message :
    (inited registered connected : Bool) (early events : List Event)
    → let s = run_pw_thread inited registered connected early events in
      (s.closed ≡ true)
      × (first_message s
          ≡ some (
              inited
              && (registered
                  && (if connected then ran_first (early ++ events) else ran_first early))))
unfolding run_pw_thread
run_pw_thread-first_message false r c early events = (refl, refl)
run_pw_thread-first_message true false c early events = (refl, refl)
run_pw_thread-first_message true true false early events = (
  refl,
  give_up_tells (foldl on_event unsignalled early) _
      (events-IsListening unsignalled early refl refl),
)
run_pw_thread-first_message true true true early events =
    rw (foldl-append unsignalled early events) (
      refl,
      loop_ended_tells (foldl on_event unsignalled (early ++ events)) _
          (events-IsListening unsignalled (early ++ events) refl refl),
    )
