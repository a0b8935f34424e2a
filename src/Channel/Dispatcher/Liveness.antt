-- ===== src/Channel/Dispatcher/Liveness.antt =====
-- The clocks of `dispatcher` of src/cast_channel.rs: a channel that falls silent is given up, and a
-- session that goes on has pinged in time.
use chromecast_sink.Base.{
  ℕ, zero, suc, ◌+◌, ◌-◌, ◌≤◌, ◌<◌, ◌≡◌, refl, sym, ◌∙◌, Bool, true, false, ◌||◌, Option, none,
  some, List, [], ◌∷◌, ◌++◌, length, leb, All, if◌then◌else◌, arith, Bool-cases, inl, inr, ◌⊎◌,
}
use chromecast_sink.Base.Result.{Result, ok, err}
use chromecast_sink.Channel.Error.{Error, Fallible}
use chromecast_sink.Channel.Utf8.{Text}
use chromecast_sink.Channel.Message.{CastMessage, decode_cast_message}
use chromecast_sink.Channel.Frame.{take_frame}
use chromecast_sink.Channel.Dispatcher.{
  heartbeat_interval, liveness_timeout, write, would_block, Tick, Session, handle, frames_loop,
  handle_frames, take_read, drain, heartbeat, round, rounds,
}

abbrev SameClocks : Session → Session → Type 0
SameClocks s s' = (s'.last_rx ≡ s.last_rx) × (s'.last_ping ≡ s.last_ping)

module _ (json_type : Text → Option Text) (local_id : Text) where
  handle-SameClocks :
      (s : Session) (r : Fallible CastMessage) → SameClocks s (handle json_type local_id s r)
  unfolding handle
  handle-SameClocks s (err e) = (refl, refl)
  handle-SameClocks s (ok msg) = ground arith

  loop_round-SameClocks :
      (n : ℕ)
      → ((s' : Session) → SameClocks s' (frames_loop json_type local_id n s').0)
      → (s : Session) (r : Result Error (Option (List ℕ) × List ℕ)) → take_frame s.acc ≡ r
      → SameClocks s (frames_loop json_type local_id (suc n) s).0
  unfolding frames_loop
  loop_round-SameClocks n later s (err x) e = rw (e, frames_loop) (refl, refl)
  loop_round-SameClocks n later s (ok (none, acc)) e = rw (e, frames_loop) (refl, refl)
  loop_round-SameClocks n later s (ok (some body, acc)) e =
      let opened : Session = record s { acc = acc } in
      let (w, q) = handle-SameClocks opened (decode_cast_message body) in
      let (w', q') = later (handle json_type local_id opened (decode_cast_message body)) in
      rw (e, frames_loop) (w' ∙ w, q' ∙ q)

  frames_loop-SameClocks :
      (n : ℕ) (s : Session) → SameClocks s (frames_loop json_type local_id n s).0
  unfolding frames_loop
  frames_loop-SameClocks zero s = (refl, refl)
  frames_loop-SameClocks (suc n) s =
      loop_round-SameClocks n (frames_loop-SameClocks n) s (take_frame s.acc) refl

  drain-SameClocks :
      (d : Bool) (s : Session) (msgs : List CastMessage)
      → SameClocks s (drain json_type local_id d s msgs)
  unfolding drain
  drain-SameClocks d s [] = (refl, refl)
  drain-SameClocks d s (msg ∷ rest) = ground (arith, drain-SameClocks d (write s msg).0 rest)

  heartbeat_clocks :
      (t : Tick) (s : Session)
      → let s' = heartbeat json_type local_id t s in
        (s'.last_rx ≡ s.last_rx)
        × (t.ping_checked_at ≤ t.ping_at → t.ping_checked_at < s'.last_ping + heartbeat_interval)
  unfolding heartbeat
  heartbeat_clocks t s = ground arith

  -- Where a round ends the session no clock matters any more; where it does not, data came less than
  -- ten seconds before its check, and a ping went less than five seconds before its own.
  round_clocks :
      (t : Tick) (s : Session)
      → let (s', ends) = round json_type local_id t s in
        (ends ≡ true)
        ⊎ ((s'.last_rx ≡ s.last_rx)
            × (t.live_at < s.last_rx + liveness_timeout)
            × (t.ping_checked_at ≤ t.ping_at
                → t.ping_checked_at < s'.last_ping + heartbeat_interval))
  unfolding round handle_frames
  round_clocks t s =
      let (handled, broken) = frames_loop json_type local_id (length s.acc) s in
      let msgs = handled.queue ++ t.enqueued in
      let drained = drain json_type local_id t.disconnected handled msgs in
      let h = frames_loop-SameClocks (length s.acc) s in
      let d = drain-SameClocks t.disconnected handled msgs in
      let b = heartbeat_clocks t drained in
      let alive =
        leb liveness_timeout (t.live_at - (heartbeat json_type local_id t drained).last_rx) in
      elim (Bool-cases broken) [
        | inl framing ↦ inl (rw framing refl)
        | inr whole ↦ elim (Bool-cases alive) [
          | inl dead ↦ inl (rw whole dead)
          | inr live ↦ inr (rw whole (b.0 ∙ d.0 ∙ h.0, ground arith, b.1))
        ]
      ]

  -- Nothing is read in the round, since nothing arrives.
  abbrev pub IsSilent : Tick → Type 0
  IsSilent t = t.read ≡ would_block

  abbrev asked : Tick → Session → Session
  asked t s = record s { stop = s.stop || t.stopped }

  read_nothing : (t : Tick) (s : Session) → IsSilent t → take_read json_type local_id s t ≡ some s
  unfolding take_read
  read_nothing t s e = ground arith

  silent_round :
      (t : Tick) (more : List Tick) (s : Session)
      → IsSilent t
      → rounds json_type local_id (t ∷ more) s ≡ (
          if (asked t s).stop
          then asked t s
          else if (round json_type local_id t (asked t s)).1
          then (round json_type local_id t (asked t s)).0
          else rounds json_type local_id more (round json_type local_id t (asked t s)).0)
  unfolding rounds
  silent_round t more s e = rw (read_nothing t (asked t s) e) refl

  -- Rounds that differ only behind a round are the same if that round ends the session.
  same_behind :
      (t : Tick) (a b : List Tick) (s : Session)
      → IsSilent t
      → ((round json_type local_id t (asked t s)).1 ≡ true)
        ⊎ (rounds json_type local_id a (round json_type local_id t (asked t s)).0
            ≡ rounds json_type local_id b (round json_type local_id t (asked t s)).0)
      → rounds json_type local_id (t ∷ a) s ≡ rounds json_type local_id (t ∷ b) s
  same_behind t a b s e (inl ends) =
      silent_round t a s e ∙ rw ends refl ∙ sym (silent_round t b s e)
  same_behind t a b s e (inr same) =
      silent_round t a s e ∙ rw same refl ∙ sym (silent_round t b s e)

  -- A channel that stays silent is given up: the first round whose check is ten seconds after the
  -- last data is the last, whatever the rounds in between and those that could follow meet.
  pub silent_ends :
      (quiet : List Tick) (t : Tick) (more : List Tick) (s : Session)
      → All IsSilent quiet
      → IsSilent t
      → s.last_rx + liveness_timeout ≤ t.live_at
      → rounds json_type local_id (quiet ++ (t ∷ more)) s
        ≡ rounds json_type local_id (quiet ++ (t ∷ [])) s
  silent_ends [] t more s silent now late = elim (round_clocks t (asked t s)) [
    | inl ends ↦ same_behind t more [] s now (inl ends)
    | inr (rx, live, pinged) ↦ absurd (omega arith)
  ]
  silent_ends (q ∷ quiet) t more s silent now late = elim (round_clocks q (asked q s)) [
    | inl ends ↦ same_behind q (quiet ++ (t ∷ more)) (quiet ++ (t ∷ [])) s silent.0 (inl ends)
    | inr (rx, live, pinged) ↦ same_behind q (quiet ++ (t ∷ more)) (quiet ++ (t ∷ [])) s silent.0 (
        inr (
          silent_ends quiet t more (round json_type local_id q (asked q s)).0 silent.1 now
            (omega arith)))
  ]

  -- In a round that goes on, data came less than ten seconds before its check and, by a clock that
  -- does not go back, a ping was sent less than five seconds before the look at it.
  pub round_in_time :
      (t : Tick) (s : Session)
      → (round json_type local_id t s).1 ≡ false
      → t.ping_checked_at ≤ t.ping_at
      → (t.live_at < (round json_type local_id t s).0.last_rx + liveness_timeout)
        × (t.ping_checked_at < (round json_type local_id t s).0.last_ping + heartbeat_interval)
  round_in_time t s goes_on forward = elim (round_clocks t s) [
    | inl ends ↦ absurd (cc)
    | inr (rx, live, pinged) ↦ (omega arith, pinged forward)
  ]
