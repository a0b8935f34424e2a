-- ===== src/Channel/Frame/Loop.antt =====
-- The loop around take_frame of src/cast_channel.rs, by the outcome of each round.
use chromecast_sink.Base.{
  ℕ, zero, suc, ◌≤◌, ◌<◌, ◌≡◌, refl, ap, ◌∙◌, sym, Bool, true, false, Option, none, some, List, [],
  ◌∷◌, length, arith,
}
use chromecast_sink.Base.Result.{Result, ok, err}
use chromecast_sink.Channel.Error.{Error}
use chromecast_sink.Channel.Frame.{take_frame, Taken, with_body, take_frames_loop}
use chromecast_sink.Channel.Frame.Laws.{take_frame-none, take_frame-some}

-- The three outcomes of `take_frame`.
pub data Outcome (acc : List ℕ) : Type 0 where
  complete : (body acc' : List ℕ) → take_frame acc ≡ ok (some body, acc') → Outcome acc
  partial : take_frame acc ≡ ok (none, acc) → Outcome acc
  unframed : (e : Error) → take_frame acc ≡ err e → Outcome acc

pub outcome : (acc : List ℕ) → Outcome acc
outcome acc = by_result (take_frame acc) refl
  where
    by_result : (r : Result Error (Option (List ℕ) × List ℕ)) → take_frame acc ≡ r → Outcome acc
    by_result (ok (some body, acc')) e = complete body acc' e
    by_result (ok (none, acc')) e =
        partial (e ∙ ap (λ t. ok (none, t)) (take_frame-none acc acc' e).0)
    by_result (err x) e = unframed x e

pub too_short : (acc : List ℕ) → length acc < 4 → take_frame acc ≡ ok (none, acc)
unfolding take_frame
too_short acc h = ground arith

pub loop_complete :
    (n : ℕ) (acc body acc' : List ℕ)
    → take_frame acc ≡ ok (some body, acc')
    → take_frames_loop (suc n) acc ≡ with_body body (take_frames_loop n acc')
unfolding take_frames_loop
loop_complete n acc body acc' e = rw (e, take_frames_loop)

abbrev pub stopped : List ℕ → Bool → Taken
stopped acc b = record { bodies = []; left = acc; broken = b }

pub loop_partial :
    (n : ℕ) (acc : List ℕ)
    → take_frame acc ≡ ok (none, acc)
    → take_frames_loop n acc ≡ stopped acc false
unfolding take_frames_loop
loop_partial zero acc e = refl
loop_partial (suc n) acc e = rw (e, take_frames_loop)

pub loop_unframed :
    (n : ℕ) (acc : List ℕ) (x : Error)
    → take_frame acc ≡ err x
    → take_frames_loop (suc n) acc ≡ stopped acc true
unfolding take_frames_loop
loop_unframed n acc x e = rw (e, take_frames_loop)

pub loop-fuel :
    (n m : ℕ) (acc : List ℕ)
    → length acc ≤ n
    → length acc ≤ m
    → take_frames_loop n acc ≡ take_frames_loop m acc
loop-fuel n m [] p q =
    loop_partial n [] (too_short [] (omega arith))
    ∙ sym (loop_partial m [] (too_short [] (omega arith)))
loop-fuel zero m (b ∷ bs) p q = absurd (omega arith)
loop-fuel (suc n) zero (b ∷ bs) p q = absurd (omega arith)
loop-fuel (suc n) (suc m) (b ∷ bs) p q = elim (outcome (b ∷ bs)) [
  | complete body acc' e ↦
      let shorter = take_frame-some (b ∷ bs) body acc' e in
      loop_complete n _ body acc' e
      ∙ ap (with_body body) (loop-fuel n m acc' (omega arith) (omega arith))
      ∙ sym (loop_complete m _ body acc' e)
  | partial e ↦ loop_partial (suc n) _ e ∙ sym (loop_partial (suc m) _ e)
  | unframed x e ↦ loop_unframed n _ x e ∙ sym (loop_unframed m _ x e)
]

-- `take_frames` by the outcome at the front of the buffer.
