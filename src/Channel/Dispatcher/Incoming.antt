-- ===== src/Channel/Dispatcher/Incoming.antt =====
-- What `dispatcher` makes of the bytes that it reads: what it forwards, and which PONGs it answers.
use chromecast_sink.Base.{
  ℕ, zero, suc, ◌≡◌, refl, ap, ◌∙◌, sym, Bool, true, Option, none, some, List, [], ◌∷◌, ◌++◌, map,
  length, append-nil, append_assoc, same_text, if◌then◌else◌, arith, Bool-cases, inl, inr,
}
use chromecast_sink.Base.Result.{Result, ok, err}
use chromecast_sink.Channel.Error.{Error, Fallible}
use chromecast_sink.Channel.Utf8.{Text}
use chromecast_sink.Channel.Message.{CastMessage, decode_cast_message}
use chromecast_sink.Channel.Frame.{take_frame, take_frames_loop, take_frames}
use chromecast_sink.Channel.Dispatcher.{
  ns_heartbeat, write, ping_type, Tick, Session, payload_type_is, pong, handle, frames_loop,
  handle_frames, drain, heartbeat, round,
}

abbrev pub tried : Session → List CastMessage
tried s = map (λ w. w.0) s.wire

module _ (json_type : Text → Option Text) (local_id : Text) where
  -- What the caller gets of a body, and what the peer is answered.
  abbrev pub for_caller : Fallible CastMessage → List CastMessage
  for_caller (err e) = []
  for_caller (ok msg) = if same_text msg.namespace ns_heartbeat then [] else msg ∷ []

  abbrev pub answer_to : Fallible CastMessage → List CastMessage
  answer_to (err e) = []
  answer_to (ok msg) =
      if same_text msg.namespace ns_heartbeat
      then if payload_type_is json_type local_id msg.payload ping_type
        then pong json_type local_id msg.source ∷ []
        else []
      else []

  abbrev pub all_for_caller : List (List ℕ) → List CastMessage
  all_for_caller [] = []
  all_for_caller (b ∷ bs) = for_caller (decode_cast_message b) ++ all_for_caller bs

  abbrev pub all_answers : List (List ℕ) → List CastMessage
  all_answers [] = []
  all_answers (b ∷ bs) = answer_to (decode_cast_message b) ++ all_answers bs

  pub map-append-tried :
      (w v : List (CastMessage × Bool))
      → map (λ x. x.0) (w ++ v) ≡ map (λ x. x.0) w ++ map (λ x. x.0) v
  map-append-tried [] v = refl
  map-append-tried (x ∷ w) v = ap (λ t. x.0 ∷ t) (map-append-tried w v)

  -- What handling a body does: it forwards, answers, and leaves the buffer.
  record IsHandled (s s' : Session) (news answers : List CastMessage) : Type 0 where
    forwards : s'.forwarded ≡ s.forwarded ++ news
    writes : tried s' ≡ tried s ++ answers

  handle_lem :
      (s : Session) (r : Fallible CastMessage)
      → IsHandled s (handle json_type local_id s r) (for_caller r) (answer_to r)
        × ((handle json_type local_id s r).acc ≡ s.acc)
  unfolding handle
  handle_lem s (err e) =
      (record { forwards = sym (append-nil _); writes = sym (append-nil _) }, refl)
  handle_lem s (ok msg) = elim (Bool-cases (same_text msg.namespace ns_heartbeat)) [
    | inl is_heartbeat ↦
        elim (Bool-cases (payload_type_is json_type local_id msg.payload ping_type)) [
          | inl is_ping ↦
              rw (is_heartbeat, is_ping)
                (record { forwards = sym (append-nil _); writes = map-append-tried s.wire _ }, refl)
          | inr not_ping ↦
              rw (is_heartbeat, not_ping)
                (record { forwards = sym (append-nil _); writes = sym (append-nil _) }, refl)
        ]
    | inr not_heartbeat ↦
        rw not_heartbeat (record { forwards = refl; writes = sym (append-nil _) }, refl)
  ]

  both :
      (s s' s'' : Session) (a b c d : List CastMessage)
      → IsHandled s s' a b
      → IsHandled s' s'' c d
      → IsHandled s s'' (a ++ c) (b ++ d)
  both s s' s'' a b c d h k = record {
    forwards = k.forwards ∙ ap (λ t. t ++ c) h.forwards ∙ append_assoc s.forwarded a c;
    writes = k.writes ∙ ap (λ t. t ++ d) h.writes ∙ append_assoc (tried s) b d;
  }

  abbrev MatchesFrames : ℕ → Session → Type 0
  MatchesFrames n s =
      let t = take_frames_loop n s.acc in
      let (s', broken) = frames_loop json_type local_id n s in
      IsHandled s s' (all_for_caller t.bodies) (all_answers t.bodies)
      × (s'.acc ≡ t.left)
      × (broken ≡ t.broken)

  nothing-IsHandled :
      (s s' : Session) → s'.forwarded ≡ s.forwarded → s'.wire ≡ s.wire → IsHandled s s' [] []
  nothing-IsHandled s s' f w = record {
    forwards = f ∙ sym (append-nil s.forwarded);
    writes = ap (map (λ x. x.0)) w ∙ sym (append-nil (tried s));
  }

  loop_round :
      (n : ℕ)
      → ((s : Session) → MatchesFrames n s)
      → (s : Session) (r : Result Error (Option (List ℕ) × List ℕ)) → take_frame s.acc ≡ r
      → MatchesFrames (suc n) s
  unfolding frames_loop take_frames_loop handle
  loop_round n later s (err x) e =
      rw (e, frames_loop, take_frames_loop) (nothing-IsHandled s s refl refl, refl, refl)
  loop_round n later s (ok (none, acc)) e =
      rw (e, frames_loop, take_frames_loop) (nothing-IsHandled s _ refl refl, refl, refl)
  loop_round n later s (ok (some body, acc)) e =
      let opened : Session = record s { acc = acc } in
      let (h, same) = handle_lem opened (decode_cast_message body) in
      let next = handle json_type local_id opened (decode_cast_message body) in
      let (k, left, broken) = rw same at (later next) in
      rw (e, frames_loop, take_frames_loop)
        (
          both s next _ _ _ _ _ (record { forwards = h.forwards; writes = h.writes }) k,
          left,
          broken,
        )

  frames_loop_lem : (n : ℕ) (s : Session) → MatchesFrames n s
  unfolding frames_loop take_frames_loop
  frames_loop_lem zero s = (nothing-IsHandled s s refl refl, refl, refl)
  frames_loop_lem (suc n) s = loop_round n (frames_loop_lem n) s (take_frame s.acc) refl

  -- Of the frames complete in the buffer the dispatcher forwards each message of another namespace
  -- than the heartbeat's, answers each PING with a PONG to its source, in order, drops what does
  -- not decode, and leaves what `take_frames` leaves.
  pub handle_frames_lem :
      (s : Session)
      → let t = take_frames s.acc in
        let (s', broken) = handle_frames json_type local_id s in
        (s'.forwarded ≡ s.forwarded ++ all_for_caller t.bodies)
        × (tried s' ≡ tried s ++ all_answers t.bodies)
        × (s'.acc ≡ t.left)
        × (broken ≡ t.broken)
  unfolding handle_frames take_frames
  handle_frames_lem s =
      let (h, left, broken) = frames_loop_lem (length s.acc) s in
      (h.forwards, h.writes, left, broken)

  drain_keeps :
      (d : Bool) (s : Session) (msgs : List CastMessage)
      → ((drain json_type local_id d s msgs).forwarded ≡ s.forwarded)
        × ((drain json_type local_id d s msgs).acc ≡ s.acc)
  unfolding drain
  drain_keeps d s [] = (refl, refl)
  drain_keeps d s (msg ∷ rest) = ground (arith, drain_keeps d (write s msg).0 rest)

  heartbeat_keeps :
      (t : Tick) (s : Session)
      → ((heartbeat json_type local_id t s).forwarded ≡ s.forwarded)
        × ((heartbeat json_type local_id t s).acc ≡ s.acc)
  unfolding heartbeat
  heartbeat_keeps t s = ground arith

  pub round_lem :
      (t : Tick) (s : Session)
      → let f = take_frames s.acc in
        ((round json_type local_id t s).0.forwarded ≡ s.forwarded ++ all_for_caller f.bodies)
        × ((round json_type local_id t s).0.acc ≡ f.left)
        × (f.broken ≡ true → (round json_type local_id t s).1 ≡ true)
  unfolding round
  round_lem t s =
      let (h, hb) = handle_frames json_type local_id s in
      ground (
        arith,
        handle_frames_lem s,
        drain_keeps t.disconnected h (h.queue ++ t.enqueued),
        heartbeat_keeps t (drain json_type local_id t.disconnected h (h.queue ++ t.enqueued)),
      )
