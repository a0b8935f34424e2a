-- ===== src/Channel/Varint.antt =====
-- `write_varint` and `read_varint` of src/cast_channel.rs.
pub mod RoundTrip
pub mod Read
use mathlib.Core.Logic.{dite}
use mathlib.Core.WellFounded.{Acc}
use chromecast_sink.Base.{
  ℕ, ◌+◌, ◌*◌, ◌/◌, ◌%◌, ◌^◌, ◌≤◌, ◌<◌, bit_and, bit_or, u8, u64, List, [], ◌∷◌, ◌++◌, ◌==◌, leb,
  if◌then◌else◌, dec_le, arith,
}
use chromecast_sink.Base.Order.{lt_wf}
use chromecast_sink.Base.Result.{ok, err}
use chromecast_sink.Channel.Error.{Fallible, varint_overruns, varint_too_long}

shifted-lt : (v : ℕ) → 0x80 ≤ v → v / 2 ^ 7 < v
shifted-lt v h = omega arith

-- `while v >= 0x80 { push; v >>= 7 }`, then the last push.
write_varint_loop : List ℕ → (v : ℕ) → Acc ◌<◌ v → List ℕ
write_varint_loop buf v (Acc.intro _ below) =
    dite (dec_le 0x80 v)
      (λ more.
        write_varint_loop (buf ++ (bit_or (u8 (bit_and v 0x7f)) 0x80 ∷ [])) (v / 2 ^ 7)
          (below _ (shifted-lt v more)))
      (λ _. buf ++ (u8 v ∷ []))

pub write_varint : List ℕ → ℕ → List ℕ
write_varint buf v = write_varint_loop buf v (lt_wf.apply v)

-- The list is `data` from `pos` on. `shift` stays at most 63, so `<<` is defined.
unfoldable pub read_varint_loop : ℕ → ℕ → List ℕ → Fallible (ℕ × List ℕ)
read_varint_loop result shift [] = err varint_overruns
read_varint_loop result shift (b ∷ rest) =
    let result' = bit_or result (u64 (bit_and b 0x7f * 2 ^ shift)) in
    let more =
      if leb 64 (shift + 7)
      then err varint_too_long
      else read_varint_loop result' (shift + 7) rest in
    if bit_and b 0x80 == 0 then ok (result', rest) else more

unfoldable pub read_varint : List ℕ → Fallible (ℕ × List ℕ)
read_varint bytes = read_varint_loop 0 0 bytes
