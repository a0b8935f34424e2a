-- ===== src/Channel/Dispatcher/Written.antt =====
-- The calls of `write_message` that succeed, through the parts of a round of `dispatcher`.
use chromecast_sink.Base.{
  ◌≡◌, refl, ap, ◌∙◌, sym, ◌⊎◌, ◌≤◌, Bool, true, false, Option, List, [], ◌∷◌, ◌++◌, map,
  next_answer, length, append-nil, append_assoc, ◌&&◌, if◌then◌else◌, arith, Bool-cases, inl, inr,
}
use mathlib.Core.Path.{subst}
use chromecast_sink.Channel.Error.{Fallible}
use chromecast_sink.Base.Result.{ok, err}
use chromecast_sink.Channel.Utf8.{Text}
use chromecast_sink.Channel.Message.{CastMessage}
use chromecast_sink.Channel.Dispatcher.{
  write, Tick, Session, ping, pong, handle, handle_frames, drain, heartbeat, flush,
}
use chromecast_sink.Channel.Dispatcher.Incoming.{tried}
use chromecast_sink.Channel.Dispatcher.Outgoing.{of_caller, tried-append, frames_loop_keeps}

-- The messages whose `write_message` succeeded.
abbrev pub sent_of : List (CastMessage × Bool) → List CastMessage
sent_of [] = []
sent_of ((m, sent) ∷ w) = if sent then m ∷ sent_of w else sent_of w

abbrev pub written : Session → List CastMessage
written s = of_caller (sent_of s.wire)

-- Every `write_message` succeeded.
abbrev pub all_sent : List (CastMessage × Bool) → Bool
all_sent [] = true
all_sent ((m, sent) ∷ w) = sent && all_sent w

sent-append :
    (w : List (CastMessage × Bool)) (m : CastMessage) (sent : Bool)
    → of_caller (sent_of (w ++ ((m, sent) ∷ [])))
      ≡ of_caller (sent_of w) ++ (if sent then of_caller (m ∷ []) else [])
sent-append [] m true = refl
sent-append [] m false = refl
sent-append ((x, b) ∷ w) m sent = ground (arith, sent-append w m sent)

pub sent_of-all_sent :
    (w : List (CastMessage × Bool)) → all_sent w ≡ true → sent_of w ≡ map (λ x. x.0) w
sent_of-all_sent [] h = refl
sent_of-all_sent ((m, sent) ∷ w) h = ground (arith, h, sent_of-all_sent w)

last_sent :
    (w : List (CastMessage × Bool)) (m : CastMessage) (sent : Bool)
    → all_sent (w ++ ((m, sent) ∷ [])) ≡ true
    → sent ≡ true
last_sent [] m sent h = ground arith
last_sent ((x, b) ∷ w) m sent h = ground (arith, last_sent w m sent)

-- Nothing of the caller's was lost; or the last call was, and the loop is to stop.
abbrev pub Whole : Session → Type 0
Whole s = of_caller (tried s) ≡ written s

abbrev pub IsCut : Session → Type 0
IsCut s =
    (s.stop ≡ true)
    × ((lost : List CastMessage) × (length lost ≤ 1) × (of_caller (tried s) ≡ written s ++ lost))

-- The first message written for the caller.
abbrev pub Begins : CastMessage → Session → Type 0
Begins first s = (rest : List CastMessage) × (written s ≡ first ∷ rest)

-- Behind `s`, whose calls are `tried s`: some were written, and then at most one was lost.
abbrev IsFlushed : Session → Session → Type 0
IsFlushed s s' =
    (second lost : List CastMessage) × (length lost ≤ 1)
    × (written s' ≡ written s ++ second)
    × (of_caller (tried s') ≡ of_caller (tried s) ++ (second ++ lost))

module _ (json_type : Text → Option Text) (local_id : Text) where
  abbrev pub Still : Session → Session → Type 0
  Still s s' =
      (of_caller (tried s') ≡ of_caller (tried s)) × (written s' ≡ written s) × (s'.stop ≡ s.stop)

  handle-Still : (s : Session) (r : Fallible CastMessage) → Still s (handle json_type local_id s r)
  unfolding handle
  handle-Still s (err e) = (refl, refl, refl)
  handle-Still s (ok msg) = ground (
    arith,
    append-nil (of_caller (tried s)),
    append-nil (written s),
    tried-append s.wire (pong json_type local_id msg.source) (next_answer s.answers),
    sent-append s.wire (pong json_type local_id msg.source) (next_answer s.answers),
  )

  pub handle_frames-Still : (s : Session) → Still s (handle_frames json_type local_id s).0
  unfolding handle_frames
  handle_frames-Still s =
      frames_loop_keeps json_type local_id (Still s) (λ s' acc h. h)
        (λ s' r h. let (t, w, p) = handle-Still s' r in (t ∙ h.0, w ∙ h.1, p ∙ h.2)) (length s.acc)
        s (refl, refl, refl)

  pub heartbeat-Still : (t : Tick) (s : Session) → Still s (heartbeat json_type local_id t s)
  unfolding heartbeat
  heartbeat-Still t s = ground (
    arith,
    append-nil (of_caller (tried s)),
    append-nil (written s),
    tried-append s.wire (ping json_type local_id) (next_answer s.answers),
    sent-append s.wire (ping json_type local_id) (next_answer s.answers),
  )

  of_caller-one : (m : CastMessage) → length (of_caller (m ∷ [])) ≤ 1
  of_caller-one m = ground arith

  -- `drain` and `flush` by the answer of the first write.
  pub drain_sent :
      (d : Bool) (s : Session) (m : CastMessage) (msgs : List CastMessage)
      → next_answer s.answers ≡ true
      → drain json_type local_id d s (m ∷ msgs) ≡ drain json_type local_id d (write s m).0 msgs
  unfolding drain
  drain_sent d s m msgs e = ground arith

  pub drain_failed :
      (d : Bool) (s : Session) (m : CastMessage) (msgs : List CastMessage)
      → next_answer s.answers ≡ false
      → drain json_type local_id d s (m ∷ msgs) ≡ record (write s m).0 { queue = msgs; stop = true }
  unfolding drain
  drain_failed d s m msgs e = ground arith

  flush_sent :
      (s : Session) (m : CastMessage) (msgs : List CastMessage)
      → next_answer s.answers ≡ true
      → flush json_type local_id s (m ∷ msgs) ≡ flush json_type local_id (write s m).0 msgs
  unfolding flush
  flush_sent s m msgs e = ground arith

  flush_failed :
      (s : Session) (m : CastMessage) (msgs : List CastMessage)
      → next_answer s.answers ≡ false
      → flush json_type local_id s (m ∷ msgs) ≡ record (write s m).0 { queue = msgs }
  unfolding flush
  flush_failed s m msgs e = ground arith

  pub written_sent :
      (s : Session) (m : CastMessage)
      → next_answer s.answers ≡ true
      → written (write s m).0 ≡ written s ++ of_caller (m ∷ [])
  written_sent s m e = ground (arith, sent-append s.wire m (next_answer s.answers))

  pub written_failed :
      (s : Session) (m : CastMessage)
      → next_answer s.answers ≡ false
      → written (write s m).0 ≡ written s
  written_failed s m e =
      ground (arith, append-nil (written s), sent-append s.wire m (next_answer s.answers))

  pub drain-Whole :
      (d : Bool) (s : Session) (msgs : List CastMessage)
      → Whole s
      → Whole (drain json_type local_id d s msgs) ⊎ IsCut (drain json_type local_id d s msgs)
  unfolding drain
  drain-Whole d s [] h = inl h
  drain-Whole d s (m ∷ msgs) h = elim (Bool-cases (next_answer s.answers)) [
    | inl sent ↦
        subst (λ t. Whole t ⊎ IsCut t) (sym (drain_sent d s m msgs sent))
          (drain-Whole d (write s m).0 msgs (
            tried-append s.wire m (next_answer s.answers)
            ∙ ap (λ t. t ++ of_caller (m ∷ [])) h
            ∙ sym (written_sent s m sent)))
    | inr failed ↦
        subst (λ t. Whole t ⊎ IsCut t) (sym (drain_failed d s m msgs failed))
          (inr (
            refl,
            (
              of_caller (m ∷ []),
              of_caller-one m,
              tried-append s.wire m (next_answer s.answers)
                  ∙ ap (λ t. t ++ of_caller (m ∷ [])) (h ∙ sym (written_failed s m failed)),
            ),
          ))
  ]

  pub flush-IsFlushed :
      (s : Session) (msgs : List CastMessage) → IsFlushed s (flush json_type local_id s msgs)
  unfolding flush
  flush-IsFlushed s [] = ([], [], omega arith, sym (append-nil _), sym (append-nil _))
  flush-IsFlushed s (m ∷ msgs) = elim (Bool-cases (next_answer s.answers)) [
    | inl sent ↦
        let (second, lost, one, w, t) = flush-IsFlushed (write s m).0 msgs in
        subst (IsFlushed s) (sym (flush_sent s m msgs sent)) (
          of_caller (m ∷ []) ++ second,
          lost,
          one,
          w
              ∙ ap (λ x. x ++ second) (written_sent s m sent)
              ∙ append_assoc (written s) (of_caller (m ∷ [])) second,
          t
              ∙ ap (λ x. x ++ (second ++ lost)) (tried-append s.wire m (next_answer s.answers))
              ∙ append_assoc (of_caller (tried s)) (of_caller (m ∷ [])) (second ++ lost)
              ∙ ap (λ x. of_caller (tried s) ++ x)
                  (sym (append_assoc (of_caller (m ∷ [])) second lost)),
        )
    | inr failed ↦ subst (IsFlushed s) (sym (flush_failed s m msgs failed)) (
      [],
      of_caller (m ∷ []),
      of_caller-one m,
      written_failed s m failed ∙ sym (append-nil (written s)),
      tried-append s.wire m (next_answer s.answers),
    )
  ]

  -- `flush` leaves messages behind only where it fails.
  pub flush-all_sent :
      (s : Session) (msgs : List CastMessage)
      → all_sent (flush json_type local_id s msgs).wire ≡ true
      → (flush json_type local_id s msgs).queue ≡ []
  unfolding flush
  flush-all_sent s [] h = refl
  flush-all_sent s (m ∷ msgs) h = elim (Bool-cases (next_answer s.answers)) [
    | inl sent ↦
        let e = flush_sent s m msgs sent in
        ap (λ (t : Session). t.queue) e
        ∙ flush-all_sent (write s m).0 msgs (subst (λ (t : Session). all_sent t.wire ≡ true) e h)
    | inr failed ↦
        let last : next_answer s.answers ≡ true =
          last_sent s.wire m (next_answer s.answers)
            (subst (λ (t : Session). all_sent t.wire ≡ true) (flush_failed s m msgs failed) h) in
        absurd (cc)
  ]
