-- ===== src/Channel/Frame/Stream.antt =====
-- Framing of a stream: the frames that come off do not depend on how the bytes were split into reads.
use chromecast_sink.Base.{
  ℕ, zero, suc, ◌≤◌, ◌≡◌, refl, ap, ◌∙◌, true, false, none, some, List, [], ◌∷◌, ◌++◌, append_assoc,
  append-nil, length, All, arith, inl, inr, Bool-cases,
}
use chromecast_sink.Base.Result.{ok, err}
use chromecast_sink.Channel.Error.{Error}
use chromecast_sink.Channel.Frame.{
  max_body_size, frame, take_frame, with_body, with_bodies, receive, take_frames,
}
use chromecast_sink.Channel.Frame.Laws.{
  take_frame-frame, take_frame-some, take_frame-some-append, take_frame-err-append,
}
use chromecast_sink.Channel.Frame.Loop.{
  complete, partial, unframed, outcome, too_short, loop_complete, stopped, loop_partial,
  loop_unframed, loop-fuel,
}

take_frames_complete :
    (acc body acc' : List ℕ)
    → take_frame acc ≡ ok (some body, acc')
    → take_frames acc ≡ with_body body (take_frames acc')
unfolding take_frames
take_frames_complete acc body acc' e =
    let shorter = take_frame-some acc body acc' e in
    loop-fuel (length acc) (suc (length acc)) acc (omega arith) (omega arith)
    ∙ loop_complete (length acc) acc body acc' e
    ∙ ap (with_body body) (loop-fuel (length acc) (length acc') acc' (omega arith) (omega arith))

pub take_frames_partial :
    (acc : List ℕ) → take_frame acc ≡ ok (none, acc) → take_frames acc ≡ stopped acc false
unfolding take_frames
take_frames_partial acc e = loop_partial (length acc) acc e

take_frames_unframed :
    (acc : List ℕ) (x : Error) → take_frame acc ≡ err x → take_frames acc ≡ stopped acc true
unfolding take_frames
take_frames_unframed acc x e =
    loop-fuel (length acc) (suc (length acc)) acc (omega arith) (omega arith)
    ∙ loop_unframed (length acc) acc x e

-- Bytes that come later only add frames behind those that are complete.
take_frames-append :
    (n : ℕ) (acc more : List ℕ)
    → length acc ≤ n
    → (take_frames acc).broken ≡ false
    → take_frames (acc ++ more)
      ≡ with_bodies (take_frames acc).bodies (take_frames ((take_frames acc).left ++ more))
take_frames-append zero [] more h sound = rw (take_frames_partial [] (too_short [] (omega arith)))
take_frames-append zero (b ∷ bs) more h sound = absurd (omega arith)
take_frames-append (suc n) acc more h sound = elim (outcome acc) [
  | complete body acc' e ↦
      let shorter = take_frame-some acc body acc' e in
      rw
        (
          take_frames_complete (acc ++ more) body (acc' ++ more)
              (take_frame-some-append acc more body acc' e),
          take_frames_complete acc body acc' e,
        )
        (ap (with_body body) (
          take_frames-append n acc' more (omega arith)
            (rw (take_frames_complete acc body acc' e) at sound)))
  | partial e ↦ rw (take_frames_partial acc e)
  | unframed x e ↦ cc (rw (take_frames_unframed acc x e) at sound)
]

take_frames_broken-append :
    (n : ℕ) (acc more : List ℕ)
    → length acc ≤ n
    → (take_frames acc).broken ≡ true
    → ((take_frames (acc ++ more)).bodies ≡ (take_frames acc).bodies)
      × ((take_frames (acc ++ more)).broken ≡ true)
take_frames_broken-append zero [] more h bad =
    cc (rw (take_frames_partial [] (too_short [] (omega arith))) at bad)
take_frames_broken-append zero (b ∷ bs) more h bad = absurd (omega arith)
take_frames_broken-append (suc n) acc more h bad = elim (outcome acc) [
  | complete body acc' e ↦
      let shorter = take_frame-some acc body acc' e in
      let (same, still) =
        take_frames_broken-append n acc' more (omega arith)
          (rw (take_frames_complete acc body acc' e) at bad) in
      rw
        (
          take_frames_complete (acc ++ more) body (acc' ++ more)
              (take_frame-some-append acc more body acc' e),
          take_frames_complete acc body acc' e,
        )
        (ap (λ t. body ∷ t) same, still)
  | partial e ↦ cc (rw (take_frames_partial acc e) at bad)
  | unframed x e ↦
      rw
        (
          take_frames_unframed (acc ++ more) x (take_frame-err-append acc more x e),
          take_frames_unframed acc x e,
        )
        (refl, refl)
]

-- What is left behind complete frames holds no complete frame.
pub take_frames_left :
    (n : ℕ) (acc : List ℕ)
    → length acc ≤ n
    → (take_frames acc).broken ≡ false
    → take_frame (take_frames acc).left ≡ ok (none, (take_frames acc).left)
take_frames_left zero [] h sound =
    rw (take_frames_partial [] (too_short [] (omega arith))) (too_short [] (omega arith))
take_frames_left zero (b ∷ bs) h sound = absurd (omega arith)
take_frames_left (suc n) acc h sound = elim (outcome acc) [
  | complete body acc' e ↦
      let shorter = take_frame-some acc body acc' e in
      rw (take_frames_complete acc body acc' e)
        (take_frames_left n acc' (omega arith) (rw (take_frames_complete acc body acc' e) at sound))
  | partial e ↦ rw (take_frames_partial acc e) e
  | unframed x e ↦ cc (rw (take_frames_unframed acc x e) at sound)
]

abbrev pub joined : List (List ℕ) → List ℕ
joined [] = []
joined (c ∷ cs) = c ++ joined cs

receive_lem :
    (chunks : List (List ℕ)) (acc : List ℕ)
    → take_frame acc ≡ ok (none, acc)
    → let whole = take_frames (acc ++ joined chunks) in
      ((receive chunks acc).bodies ≡ whole.bodies)
      × ((receive chunks acc).broken ≡ whole.broken)
      × (whole.broken ≡ false → (receive chunks acc).left ≡ whole.left)
unfolding receive
receive_lem [] acc h = rw (append-nil, take_frames_partial acc h) (refl, refl, λ _. refl)
receive_lem (c ∷ cs) acc h = elim (Bool-cases (take_frames (acc ++ c)).broken) [
  | inl bad ↦ ground (
    arith,
    append_assoc acc c (joined cs),
    take_frames_broken-append (length (acc ++ c)) (acc ++ c) (joined cs) (omega arith) bad,
  )
  | inr sound ↦ ground (
    arith,
    append_assoc acc c (joined cs),
    take_frames-append (length (acc ++ c)) (acc ++ c) (joined cs) (omega arith) sound,
    receive_lem cs (take_frames (acc ++ c)).left
        (take_frames_left (length (acc ++ c)) (acc ++ c) (omega arith) sound),
  )
]

-- Where no frame is complete at first, reading a stream in any chunks takes the same frames off as
-- reading it at once, and stops on the same broken framing.
pub receive-eq-take_frames :
    (chunks : List (List ℕ)) (acc : List ℕ)
    → take_frame acc ≡ ok (none, acc)
    → let whole = take_frames (acc ++ joined chunks) in
      ((receive chunks acc).bodies ≡ whole.bodies) × ((receive chunks acc).broken ≡ whole.broken)
receive-eq-take_frames chunks acc h =
    let (bodies, broken, left) = receive_lem chunks acc h in (bodies, broken)

-- The frames of several bodies, one behind the other.
abbrev pub frames : List (List ℕ) → List ℕ
frames [] = []
frames (b ∷ bs) = frame b ++ frames bs

abbrev pub FitsFrame : List ℕ → Type 0
FitsFrame body = length body ≤ max_body_size

take_frames-frames :
    (bodies : List (List ℕ))
    → All FitsFrame bodies
    → take_frames (frames bodies) ≡ record { bodies = bodies; left = []; broken = false }
take_frames-frames [] h = take_frames_partial [] (too_short [] (omega arith))
take_frames-frames (b ∷ bs) (hb, hbs) =
    take_frames_complete _ b (frames bs) (take_frame-frame b (frames bs) hb)
    ∙ ap (with_body b) (take_frames-frames bs hbs)

-- However a peer's frames are split into reads, their bodies come out in order, each once, and
-- nothing is left behind.
pub receive-frames :
    (chunks bodies : List (List ℕ))
    → All FitsFrame bodies
    → joined chunks ≡ frames bodies
    → receive chunks [] ≡ record { bodies = bodies; left = []; broken = false }
receive-frames chunks bodies h e =
    ground (arith, receive_lem chunks [] (too_short [] (omega arith)), take_frames-frames bodies h)
