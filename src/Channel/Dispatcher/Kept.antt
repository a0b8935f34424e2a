-- ===== src/Channel/Dispatcher/Kept.antt =====
-- The calls of `write_message` that succeed, through the rounds of `dispatcher`.
use chromecast_sink.Base.{
  ◌≡◌, refl, ap, ◌∙◌, sym, ◌⊎◌, Bool, true, false, ◌||◌, Option, none, some, List, [], ◌∷◌, ◌++◌,
  next_answer, if◌then◌else◌, arith, Bool-cases, Option-cases, inl, inr,
}
use mathlib.Core.Path.{subst}
use chromecast_sink.Channel.Utf8.{Text}
use chromecast_sink.Channel.Message.{CastMessage}
use chromecast_sink.Channel.Dispatcher.{
  write, ReadResult, bytes, would_block, Tick, Session, handle_frames, take_read, drain, heartbeat,
  round, rounds, dispatcher,
}
use chromecast_sink.Channel.Dispatcher.Outgoing.{of_caller}
use chromecast_sink.Channel.Dispatcher.Written.{
  Whole, IsCut, Begins, Still, handle_frames-Still, heartbeat-Still, drain_sent, drain_failed,
  written_sent, written_failed, drain-Whole, flush-IsFlushed,
}

module _ (json_type : Text → Option Text) (local_id : Text) where
  take_read-Still :
      (s read : Session) (t : Tick)
      → take_read json_type local_id s t ≡ some read
      → Still json_type local_id s read
  unfolding take_read
  take_read-Still s read t e = by_read t.read refl
    where
      by_read : (r : ReadResult) → t.read ≡ r → Still json_type local_id s read
      by_read (bytes chunk) h = ground arith
      by_read would_block h = ground arith
      by_read ReadResult.end_of_file h = ground arith
      by_read ReadResult.unexpected_eof h = ground arith
      by_read ReadResult.failed h = ground arith

  Still-Whole : (s s' : Session) → Still json_type local_id s s' → Whole s → Whole s'
  Still-Whole s s' (t, w, p) h = t ∙ h ∙ sym w

  Still-either :
      (s s' : Session) → Still json_type local_id s s' → Whole s ⊎ IsCut s → Whole s' ⊎ IsCut s'
  Still-either s s' k (inl h) = inl (Still-Whole s s' k h)
  Still-either s s' (t, w, p) (inr (halts, (lost, one, e))) =
      inr (p ∙ halts, (lost, one, t ∙ e ∙ ap (λ x. x ++ lost) (sym w)))

  round-either :
      (t : Tick) (s : Session)
      → Whole s
      → let s' = (round json_type local_id t s).0 in Whole s' ⊎ IsCut s'
  unfolding round
  round-either t s h =
      let (handled, broken) = handle_frames json_type local_id s in
      let msgs = handled.queue ++ t.enqueued in
      let drained = drain json_type local_id t.disconnected handled msgs in
      let beaten = heartbeat json_type local_id t drained in
      let fine : Whole handled =
        Still-Whole s handled (handle_frames-Still json_type local_id s) h in
      let late : Whole beaten ⊎ IsCut beaten =
        Still-either drained beaten (heartbeat-Still json_type local_id t drained)
          (drain-Whole json_type local_id t.disconnected handled msgs fine) in
      elim (Bool-cases broken) [ inl bad ↦ rw bad (inl fine) | inr good ↦ rw good late ]

  abbrev asked : Tick → Session → Session
  asked t s = record s { stop = s.stop || t.stopped }

  -- The rounds by what the first does: nothing, an end, or a round.
  rounds_halted :
      (t : Tick) (ts : List Tick) (s : Session)
      → s.stop || t.stopped ≡ true
      → rounds json_type local_id (t ∷ ts) s ≡ asked t s
  unfolding rounds
  rounds_halted t ts s e = ground arith

  rounds_over :
      (t : Tick) (ts : List Tick) (s : Session)
      → take_read json_type local_id (asked t s) t ≡ none
      → rounds json_type local_id (t ∷ ts) s ≡ asked t s
  unfolding rounds
  rounds_over t ts s e = ground arith

  rounds_read_on :
      (t : Tick) (ts : List Tick) (s read : Session)
      → s.stop || t.stopped ≡ false
      → take_read json_type local_id (asked t s) t ≡ some read
      → let (next, ends) = round json_type local_id t read in
        rounds json_type local_id (t ∷ ts) s
        ≡ (if ends then next else rounds json_type local_id ts next)
  unfolding rounds
  rounds_read_on t ts s read e f = ground arith

  asked-either :
      (t : Tick) (s : Session) → Whole s ⊎ IsCut s → Whole (asked t s) ⊎ IsCut (asked t s)
  asked-either t s (inl h) = inl h
  asked-either t s (inr (halts, cut)) = inr (ground arith, cut)

  asked-Whole :
      (t : Tick) (s : Session) → s.stop || t.stopped ≡ false → Whole s ⊎ IsCut s → Whole (asked t s)
  asked-Whole t s e (inl h) = h
  asked-Whole t s e (inr (halts, cut)) = absurd (ground arith)

  -- What a round keeps, the rounds keep.
  rounds_keep :
      (P : Session → Type 0)
      → ((t : Tick) (s : Session) → P s → P (asked t s))
      → ((t : Tick) (s read : Session)
          → s.stop || t.stopped ≡ false
          → take_read json_type local_id (asked t s) t ≡ some read
          → P s
          → P (round json_type local_id t read).0)
      → (ticks : List Tick) (s : Session) → P s
      → P (rounds json_type local_id ticks s)
  unfolding rounds
  rounds_keep P ask step [] s h = h
  rounds_keep P ask step (t ∷ ts) s h = elim (Bool-cases (s.stop || t.stopped)) [
    | inl halted ↦ subst P (sym (rounds_halted t ts s halted)) (ask t s h)
    | inr go ↦ elim (Option-cases (take_read json_type local_id (asked t s) t)) [
      | inl over ↦ subst P (sym (rounds_over t ts s over)) (ask t s h)
      | inr (read, e) ↦
          let (next, ends) = round json_type local_id t read in
          let now : P next = step t s read go e h in
          let later : P (rounds json_type local_id ts next) = rounds_keep P ask step ts next now in
          subst P (sym (rounds_read_on t ts s read go e))
            (elim (Bool-cases ends) [ inl over ↦ rw over now | inr on ↦ rw on later ])
    ]
  ]

  pub rounds-either :
      (ticks : List Tick) (s : Session)
      → Whole s ⊎ IsCut s
      → let s' = rounds json_type local_id ticks s in Whole s' ⊎ IsCut s'
  rounds-either ticks s h =
      rounds_keep (λ x. Whole x ⊎ IsCut x) asked-either
        (λ t x read go e v. round-either t read (
          Still-Whole (asked t x) read (take_read-Still (asked t x) read t e)
            (asked-Whole t x go v)))
        ticks s h

  drain-Begins :
      (d : Bool) (s : Session) (msgs : List CastMessage) (first : CastMessage)
      → Begins first s
      → Begins first (drain json_type local_id d s msgs)
  unfolding drain
  drain-Begins d s [] first h = h
  drain-Begins d s (m ∷ msgs) first (rest, e) = elim (Bool-cases (next_answer s.answers)) [
    | inl sent ↦ subst (Begins first) (sym (drain_sent json_type local_id d s m msgs sent)) (
        drain-Begins d (write s m).0 msgs first (
          rest ++ of_caller (m ∷ []),
          written_sent json_type local_id s m sent ∙ ap (λ t. t ++ of_caller (m ∷ [])) e,
        ))
    | inr failed ↦
        subst (Begins first) (sym (drain_failed json_type local_id d s m msgs failed))
          (rest, written_failed json_type local_id s m failed ∙ e)
  ]

  round-Begins :
      (t : Tick) (s : Session) (first : CastMessage)
      → Begins first s
      → Begins first (round json_type local_id t s).0
  unfolding round
  round-Begins t s first (rest, e) =
      let (handled, broken) = handle_frames json_type local_id s in
      let msgs = handled.queue ++ t.enqueued in
      let drained = drain json_type local_id t.disconnected handled msgs in
      let early : Begins first handled = (rest, (handle_frames-Still json_type local_id s).1 ∙ e) in
      let (more, f) = drain-Begins t.disconnected handled msgs first early in
      let late : Begins first (heartbeat json_type local_id t drained) =
        (more, (heartbeat-Still json_type local_id t drained).1 ∙ f) in
      elim (Bool-cases broken) [ inl bad ↦ rw bad early | inr good ↦ rw good late ]

  -- The first message that is written stays the first.
  pub dispatcher-Begins :
      (ticks : List Tick) (late : List CastMessage) (s : Session) (first : CastMessage)
      → Begins first s
      → Begins first (dispatcher json_type local_id ticks late s)
  unfolding dispatcher
  dispatcher-Begins ticks late s first h =
      let ended = rounds json_type local_id ticks s in
      let (rest, e) =
        rounds_keep (Begins first) (λ t x v. v)
          (λ t x read go f (more, v).
            round-Begins t read first (more, (take_read-Still (asked t x) read t f).1 ∙ v))
          ticks s h in
      let (second, lost, one, w, t) =
        flush-IsFlushed json_type local_id ended (ended.queue ++ late) in
      (rest ++ second, w ∙ ap (λ x. x ++ second) e)
