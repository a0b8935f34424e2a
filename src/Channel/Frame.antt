-- ===== src/Channel/Frame.antt =====
-- The length-prefix framing of src/cast_channel.rs: what `write_message` puts on the wire, and
-- `take_frame`.
pub mod Laws
pub mod Loop
pub mod Stream
use chromecast_sink.Base.{
  ℕ, zero, suc, ◌+◌, ◌^◌, Bool, true, false, Option, none, some, List, [], ◌∷◌, ◌++◌, length,
  get_or, take, drop, be32, from_be32, u32, ltb, if◌then◌else◌,
}
use chromecast_sink.Base.Result.{ok, err}
use chromecast_sink.Channel.Error.{Fallible, frame_too_large}
use chromecast_sink.Channel.Message.{CastMessage, encode_cast_message}

abbrev pub max_body_size : ℕ
max_body_size = 65536

-- The bytes of the two `write_all` calls.
abbrev pub frame : List ℕ → List ℕ
frame body = be32 (u32 (length body)) ++ body

pub message_bytes : CastMessage → List ℕ
message_bytes msg = frame (encode_cast_message msg)

abbrev pub declared_len : List ℕ → ℕ
declared_len acc = from_be32 (get_or acc 0 0) (get_or acc 1 0) (get_or acc 2 0) (get_or acc 3 0)

-- The frame, if one is complete, with what is left in `acc`.
unfoldable pub take_frame : List ℕ → Fallible (Option (List ℕ) × List ℕ)
take_frame acc =
    if ltb (length acc) 4
    then ok (none, acc)
    else if ltb max_body_size (declared_len acc)
    then err frame_too_large
    else if ltb (length acc) (4 + declared_len acc)
    then ok (none, acc)
    else ok (some (take (declared_len acc) (drop 4 acc)), drop (declared_len acc) (drop 4 acc))

-- What the loop around `take_frame` makes of `acc`: the bodies in order, what is left, and whether
-- the framing is broken.
pub record Taken : Type 0 where
  pub bodies : List (List ℕ)
  pub left : List ℕ
  pub broken : Bool

abbrev pub with_body : List ℕ → Taken → Taken
with_body body t = record t { bodies = body ∷ t.bodies }

-- `loop { take_frame … }`. Out of fuel it stops with what is left, as at an incomplete frame.
unfoldable pub take_frames_loop : ℕ → List ℕ → Taken
take_frames_loop zero acc = record { bodies = []; left = acc; broken = false }
take_frames_loop (suc fuel) acc = elim (take_frame acc) [
  | err e ↦ record { bodies = []; left = acc; broken = true }
  | ok (none, acc') ↦ record { bodies = []; left = acc'; broken = false }
  | ok (some body, acc') ↦ with_body body (take_frames_loop fuel acc')
]

-- A frame takes four bytes at least.
unfoldable pub take_frames : List ℕ → Taken
take_frames acc = take_frames_loop (length acc) acc

abbrev pub with_bodies : List (List ℕ) → Taken → Taken
with_bodies bs t = record t { bodies = bs ++ t.bodies }

-- The reads of a session, each appended to `acc` and followed by the loop; a broken framing ends it.
unfoldable pub receive : List (List ℕ) → List ℕ → Taken
receive [] acc = record { bodies = []; left = acc; broken = false }
receive (chunk ∷ chunks) acc =
    let t = take_frames (acc ++ chunk) in
    let rest = receive chunks t.left in if t.broken then t else with_bodies t.bodies rest
