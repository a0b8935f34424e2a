-- ===== src/Channel/Dispatcher/Outgoing.antt =====
-- The order of what `dispatcher` writes for the caller.
use chromecast_sink.Base.{
  ℕ, zero, suc, ◌≡◌, refl, ap, ◌∙◌, sym, Bool, ◌||◌, Option, none, some, List, [], ◌∷◌, ◌++◌, map,
  take, next_answer, length, append-nil, append_assoc, same_text, if◌then◌else◌, arith, Bool-cases,
  Option-cases, inl, inr,
}
use chromecast_sink.Base.Result.{Result, ok, err}
use chromecast_sink.Channel.Error.{Error, Fallible}
use chromecast_sink.Channel.Utf8.{Text}
use chromecast_sink.Channel.Message.{CastMessage, decode_cast_message}
use chromecast_sink.Channel.Frame.{take_frame}
use chromecast_sink.Channel.Dispatcher.{
  ns_heartbeat, write, ReadResult, bytes, would_block, Tick, Session, ping, pong, handle,
  frames_loop, handle_frames, take_read, drain, heartbeat, round, rounds, flush, dispatcher,
}
use chromecast_sink.Channel.Dispatcher.Incoming.{tried}
use chromecast_sink.Channel.Dispatcher.Forwarded.{rounds_read}

-- The messages that are not the dispatcher's own: those of another namespace than the heartbeat's.
abbrev pub of_caller : List CastMessage → List CastMessage
of_caller [] = []
of_caller (m ∷ ms) = if same_text m.namespace ns_heartbeat then of_caller ms else m ∷ of_caller ms

abbrev pub arrived : List Tick → List CastMessage
arrived [] = []
arrived (t ∷ ts) = t.enqueued ++ arrived ts

-- What `write_message` was called with for the caller, and then what waits.
abbrev pub in_order : Session → List CastMessage
in_order s = of_caller (tried s) ++ of_caller s.queue

pub of_caller-append : (a b : List CastMessage) → of_caller (a ++ b) ≡ of_caller a ++ of_caller b
of_caller-append [] b = refl
of_caller-append (m ∷ a) b = ground (arith, of_caller-append a b)

pub tried-append :
    (w : List (CastMessage × Bool)) (m : CastMessage) (sent : Bool)
    → of_caller (map (λ x. x.0) (w ++ ((m, sent) ∷ [])))
      ≡ of_caller (map (λ x. x.0) w) ++ of_caller (m ∷ [])
tried-append [] m sent = refl
tried-append (x ∷ w) m sent = ground (arith, tried-append w m sent)

abbrev Keeps : Session → Session → Type 0
Keeps s s' = (of_caller (tried s') ≡ of_caller (tried s)) × (s'.queue ≡ s.queue)

module _ (json_type : Text → Option Text) (local_id : Text) where
  handle-Keeps : (s : Session) (r : Fallible CastMessage) → Keeps s (handle json_type local_id s r)
  unfolding handle
  handle-Keeps s (err e) = (refl, refl)
  handle-Keeps s (ok msg) = ground (
    arith,
    append-nil (of_caller (tried s)),
    tried-append s.wire (pong json_type local_id msg.source) (next_answer s.answers),
  )

  by_frame :
      (P : Session → Type 0) (n : ℕ) (s : Session)
      → ((acc : List ℕ) → P (record s { acc = acc }))
      → ((acc body : List ℕ)
          → P
              (frames_loop json_type local_id n
                (handle json_type local_id (record s { acc = acc }) (decode_cast_message body))).0)
      → P s
      → (r : Result Error (Option (List ℕ) × List ℕ)) → take_frame s.acc ≡ r
      → P (frames_loop json_type local_id (suc n) s).0
  unfolding frames_loop
  by_frame P n s shrunk later h (err x) e = rw (e, frames_loop) h
  by_frame P n s shrunk later h (ok (none, acc)) e = rw (e, frames_loop) (shrunk acc)
  by_frame P n s shrunk later h (ok (some body, acc)) e = rw (e, frames_loop) (later acc body)

  -- What handling a body keeps, whatever the buffer, the loop over the frames keeps.
  pub frames_loop_keeps :
      (P : Session → Type 0)
      → ((s : Session) (acc : List ℕ) → P s → P (record s { acc = acc }))
      → ((s : Session) (r : Fallible CastMessage) → P s → P (handle json_type local_id s r))
      → (n : ℕ) (s : Session) → P s
      → P (frames_loop json_type local_id n s).0
  unfolding frames_loop
  frames_loop_keeps P shrink step zero s h = h
  frames_loop_keeps P shrink step (suc n) s h =
      by_frame P n s (λ acc. shrink s acc h)
        (λ acc body.
          frames_loop_keeps P shrink step n _
            (step (record s { acc = acc }) (decode_cast_message body) (shrink s acc h)))
        h (take_frame s.acc) refl

  frames_loop-Keeps : (n : ℕ) (s : Session) → Keeps s (frames_loop json_type local_id n s).0
  frames_loop-Keeps n s =
      frames_loop_keeps (Keeps s) (λ s' acc h. h)
        (λ s' r h. let (w, q) = handle-Keeps s' r in (w ∙ h.0, q ∙ h.1)) n s (refl, refl)

  drain-in_order :
      (d : Bool) (s : Session) (msgs : List CastMessage)
      → in_order (drain json_type local_id d s msgs) ≡ of_caller (tried s) ++ of_caller msgs
  unfolding drain
  drain-in_order d s [] = refl
  drain-in_order d s (msg ∷ rest) = ground (
    arith,
    drain-in_order d (write s msg).0 rest,
    tried-append s.wire msg (next_answer s.answers),
    append_assoc (of_caller (tried s)) (of_caller (msg ∷ [])) (of_caller rest),
  )

  heartbeat-in_order :
      (t : Tick) (s : Session) → in_order (heartbeat json_type local_id t s) ≡ in_order s
  unfolding heartbeat
  heartbeat-in_order t s = ground (
    arith,
    append-nil (of_caller (tried s)),
    tried-append s.wire (ping json_type local_id) (next_answer s.answers),
  )

  flush-in_order :
      (s : Session) (msgs : List CastMessage)
      → in_order (flush json_type local_id s msgs) ≡ of_caller (tried s) ++ of_caller msgs
  unfolding flush
  flush-in_order s [] = refl
  flush-in_order s (msg ∷ rest) = ground (
    arith,
    flush-in_order (write s msg).0 rest,
    tried-append s.wire msg (next_answer s.answers),
    append_assoc (of_caller (tried s)) (of_caller (msg ∷ [])) (of_caller rest),
  )

  round-in_order :
      (t : Tick) (s : Session)
      → in_order (round json_type local_id t s).0 ≡ in_order s ++ of_caller t.enqueued
  unfolding round handle_frames
  round-in_order t s =
      let (h, _) = handle_frames json_type local_id s in
      let (w, q) = frames_loop-Keeps (length s.acc) s in
      ground (
        arith,
        of_caller-append s.queue t.enqueued,
        append_assoc (of_caller (tried s)) (of_caller s.queue) (of_caller t.enqueued),
        drain-in_order t.disconnected h (h.queue ++ t.enqueued),
        heartbeat-in_order t (drain json_type local_id t.disconnected h (h.queue ++ t.enqueued)),
      )

  take_read-in_order :
      (s read : Session) (t : Tick)
      → take_read json_type local_id s t ≡ some read
      → in_order read ≡ in_order s
  unfolding take_read
  take_read-in_order s read t e = by_read t.read refl
    where
      by_read : (r : ReadResult) → t.read ≡ r → in_order read ≡ in_order s
      by_read (bytes chunk) h = ground arith
      by_read would_block h = ground arith
      by_read ReadResult.end_of_file h = ground arith
      by_read ReadResult.unexpected_eof h = ground arith
      by_read ReadResult.failed h = ground arith

  rounds-in_order :
      (ticks : List Tick) (s : Session)
      → in_order (rounds json_type local_id ticks s)
        ≡ in_order s ++ of_caller (arrived (take (rounds_read json_type local_id ticks s) ticks))
  unfolding rounds
  rounds-in_order [] s = sym (append-nil (in_order s))
  rounds-in_order (t ∷ ts) s =
      let s' : Session = record s { stop = s.stop || t.stopped } in
      elim (Bool-cases s'.stop) [
        | inl halted ↦ ground (arith, append-nil (in_order s))
        | inr go ↦ elim (Option-cases (take_read json_type local_id s' t)) [
          | inl over ↦ ground (arith, append-nil (in_order s))
          | inr (read, e) ↦
              let next = (round json_type local_id t read).0 in
              let behind = arrived (take (rounds_read json_type local_id ts next) ts) in
              ground (
                arith,
                take_read-in_order s' read t,
                round-in_order t read,
                rounds-in_order ts next,
                append-nil t.enqueued,
                of_caller-append t.enqueued behind,
                append_assoc (in_order s) (of_caller t.enqueued) (of_caller behind),
              )
        ]
      ]

  -- Over a whole session, whatever was read, answered and failed: what write_message was called with,
  -- and then what was never received, is what the caller enqueued, in its order, each once.
  pub dispatcher-in_order :
      (ticks : List Tick) (late : List CastMessage) (s : Session)
      → in_order (dispatcher json_type local_id ticks late s)
        ≡ in_order s
          ++ (of_caller (arrived (take (rounds_read json_type local_id ticks s) ticks))
              ++ of_caller late)
  unfolding dispatcher
  dispatcher-in_order ticks late s =
      let ended = rounds json_type local_id ticks s in
      let before = arrived (take (rounds_read json_type local_id ticks s) ticks) in
      flush-in_order ended (ended.queue ++ late)
      ∙ ap (λ t. of_caller (tried ended) ++ t) (of_caller-append ended.queue late)
      ∙ sym (append_assoc (of_caller (tried ended)) (of_caller ended.queue) (of_caller late))
      ∙ ap (λ t. t ++ of_caller late) (rounds-in_order ticks s)
      ∙ append_assoc (in_order s) (of_caller before) (of_caller late)
