-- ===== src/Channel/Frame/Laws.antt =====
-- `take_frame` on every buffer.
use chromecast_sink.Base.{
  ℕ, ◌+◌, ◌^◌, ◌≤◌, ◌<◌, ◌≡◌, refl, none, some, List, [], ◌∷◌, ◌++◌, length, length-append,
  length-take, length-drop, drop, take-append, drop-append, take-append_le, drop-append_le, arith,
}
use chromecast_sink.Base.Result.{ok, err}
use chromecast_sink.Channel.Error.{Error, frame_too_large}
use chromecast_sink.Channel.Frame.{max_body_size, frame, declared_len, take_frame}

pub declared_len-frame :
    (body rest : List ℕ) → length body < 2 ^ 32 → declared_len (frame body ++ rest) ≡ length body
declared_len-frame body rest h = omega arith

-- A complete frame comes off the front, and what follows is kept.
pub take_frame-frame :
    (body rest : List ℕ)
    → length body ≤ max_body_size
    → take_frame (frame body ++ rest) ≡ ok (some body, rest)
unfolding take_frame
take_frame-frame body rest h = ground (
  arith,
  declared_len-frame body rest (omega arith),
  length-append body rest,
  take-append body rest,
  drop-append body rest,
)

-- Where no frame is complete the buffer is unchanged, and short: a peer cannot make it grow.
pub take_frame-none :
    (acc acc' : List ℕ)
    → take_frame acc ≡ ok (none, acc')
    → (acc' ≡ acc) × (length acc < 4 + max_body_size)
unfolding take_frame
take_frame-none acc acc' e = ground arith

-- A frame that comes off is within the maximum, and was in front of the buffer.
pub take_frame-some :
    (acc body acc' : List ℕ)
    → take_frame acc ≡ ok (some body, acc')
    → (length acc ≡ 4 + length body + length acc')
      × (length body ≡ declared_len acc)
      × (length body ≤ max_body_size)
unfolding take_frame
take_frame-some acc body acc' e = ground (
  arith,
  length-take (declared_len acc) (drop 4 acc),
  length-drop (declared_len acc) (drop 4 acc),
  length-drop 4 acc,
)

-- The framing is given up exactly where four bytes declare more than the maximum.
pub take_frame-err :
    (acc : List ℕ)
    → (take_frame acc ≡ err frame_too_large → (4 ≤ length acc) × (max_body_size < declared_len acc))
      × (4 ≤ length acc → max_body_size < declared_len acc → take_frame acc ≡ err frame_too_large)
unfolding take_frame
take_frame-err acc = ((λ e. ground arith), (λ p q. ground arith))

declared_len-append :
    (acc more : List ℕ) → 4 ≤ length acc → declared_len (acc ++ more) ≡ declared_len acc
declared_len-append (a ∷ b ∷ c ∷ d ∷ acc) more h = refl
declared_len-append [] more h = absurd (omega arith)
declared_len-append (a ∷ []) more h = absurd (omega arith)
declared_len-append (a ∷ b ∷ []) more h = absurd (omega arith)
declared_len-append (a ∷ b ∷ c ∷ []) more h = absurd (omega arith)

-- What a buffer starts with is not changed by bytes that come later.
pub take_frame-some-append :
    (acc more body acc' : List ℕ)
    → take_frame acc ≡ ok (some body, acc')
    → take_frame (acc ++ more) ≡ ok (some body, acc' ++ more)
unfolding take_frame
take_frame-some-append acc more body acc' e = ground (
  arith,
  declared_len-append acc more,
  length-append acc more,
  length-drop 4 acc,
  drop-append_le 4 acc more,
  take-append_le (declared_len acc) (drop 4 acc) more,
  drop-append_le (declared_len acc) (drop 4 acc) more,
)

pub take_frame-err-append :
    (acc more : List ℕ) (x : Error) → take_frame acc ≡ err x → take_frame (acc ++ more) ≡ err x
unfolding take_frame
take_frame-err-append acc more x e =
    ground (arith, declared_len-append acc more, length-append acc more)
