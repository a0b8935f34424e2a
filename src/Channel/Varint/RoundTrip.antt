-- ===== src/Channel/Varint/RoundTrip.antt =====
-- What `write_varint` writes, `read_varint` reads back; both stay within ten bytes.
use mathlib.Core.WellFounded.{Acc}
use mathlib.Core.Logic.{dif_pos}
use native.Mathlib.Nat.{pow-le-pow_right, div-add-mod}
use native.Mathlib.Bridge.{le_prop}
use native.Mathlib.Numerals.{towards_suc}
use chromecast_sink.Base.{
  ℕ, ◌+◌, ◌*◌, ◌/◌, ◌%◌, ◌^◌, ◌≤◌, ◌<◌, ◌≡◌, refl, ap, ◌∙◌, sym, bit_and, bit_or, u8, List, [], ◌∷◌,
  ◌++◌, append-nil, append_assoc, arith, dec_le,
}
use chromecast_sink.Base.Order.{lt_wf}
use chromecast_sink.Base.Bits.{bit_and-mask, bit_and-top, bit_or-shifted}
use chromecast_sink.Base.Result.{ok}
use chromecast_sink.Channel.Varint.{
  shifted-lt, write_varint_loop, write_varint, read_varint_loop, read_varint,
}

-- The group of seven bits that is pushed with the continuation bit.
group_byte : (v : ℕ) → bit_or (u8 (bit_and v 0x7f)) 0x80 ≡ v % 128 + 128
group_byte v = omega (
  arith,
  bit_and-mask 7 v 0x7f refl,
  ap (λ (t : ℕ). bit_or (u8 t) 0x80) (bit_and-mask 7 v 0x7f refl),
  bit_or-shifted 7 1 (u8 (v % 128)) (omega arith),
)

write_last :
    (buf : List ℕ) (v : ℕ) (w : Acc ◌<◌ v) → v < 128 → write_varint_loop buf v w ≡ buf ++ (v ∷ [])
unfolding write_varint_loop
write_last buf v (Acc.intro _ below) h = ground arith

write_more :
    (buf : List ℕ) (v : ℕ) (below : (m : ℕ) → m < v → Acc ◌<◌ m) (more : 128 ≤ v)
    → write_varint_loop buf v (Acc.intro v below)
      ≡ write_varint_loop (buf ++ ((v % 128 + 128) ∷ [])) (v / 128) (below _ (shifted-lt v more))
unfolding write_varint_loop
write_more buf v below more =
    dif_pos (dec_le 0x80 v) le_prop more _ _
    ∙ ap (λ b. write_varint_loop (buf ++ (b ∷ [])) (v / 128) (below _ (shifted-lt v more)))
        (group_byte v)

write-append :
    (v : ℕ) (w : Acc ◌<◌ v) (buf more : List ℕ)
    → write_varint_loop (buf ++ more) v w ≡ buf ++ write_varint_loop more v w
write-append v (Acc.intro _ below) buf more = elim (dec_le 128 v) [
  | yes p ↦
      rw
        (
          write_more (buf ++ more) v below p,
          write_more more v below p,
          append_assoc buf more ((v % 128 + 128) ∷ []),
        )
        (write-append _ (below _ (shifted-lt v p)) buf (more ++ ((v % 128 + 128) ∷ [])))
  | no p ↦
      rw
        (
          write_last (buf ++ more) v (Acc.intro v below) (omega arith),
          write_last more v (Acc.intro v below) (omega arith),
        )
        (append_assoc buf more (v ∷ []))
]

shift_seven : (s : ℕ) → 2 ^ (s + 7) ≡ 128 * 2 ^ s
shift_seven s = simp towards_suc (omega arith)

-- A last byte, and a byte with the continuation bit, under the read loop.
read_last :
    (v result shift : ℕ) (rest : List ℕ)
    → v < 128
    → result < 2 ^ shift
    → v * 2 ^ shift < 2 ^ 64
    → read_varint_loop result shift (v ∷ rest) ≡ ok (result + v * 2 ^ shift, rest)
unfolding read_varint_loop
read_last v result shift rest h low fits =
    ground (arith, bit_and-mask 7 v 0x7f refl, bit_and-top v, bit_or-shifted shift v result low)

read_more :
    (g result shift : ℕ) (rest : List ℕ)
    → g < 128
    → result < 2 ^ shift
    → g * 2 ^ shift < 2 ^ 64
    → shift + 7 < 64
    → read_varint_loop result shift ((g + 128) ∷ rest)
      ≡ read_varint_loop (result + g * 2 ^ shift) (shift + 7) rest
unfolding read_varint_loop
read_more g result shift rest h low fits small = ground (
  arith,
  bit_and-mask 7 (g + 128) 0x7f refl,
  bit_and-top (g + 128),
  bit_or-shifted shift g result low,
)

-- A group that is not the last stands below bit 57.
room_left : (v shift : ℕ) → 128 ≤ v → v * 2 ^ shift < 2 ^ 64 → shift + 7 < 64
room_left v shift h fits = elim (dec_le 57 shift) [
  | yes p ↦ absurd (grind (arith, pow-le-pow_right {n = 2} (omega arith) {i = 57} {j = shift} p))
  | no p ↦ omega arith
]

split_group : (v s : ℕ) → v * 2 ^ s ≡ v % 128 * 2 ^ s + v / 128 * 2 ^ (s + 7)
split_group v s = omega (
  arith,
  shift_seven s,
  ap (λ (t : ℕ). t * 2 ^ s) (div-add-mod v 128),
  ap (λ (t : ℕ). v / 128 * t) (shift_seven s),
)

group_fits : (g result s : ℕ) → g < 128 → result < 2 ^ s → result + g * 2 ^ s < 2 ^ (s + 7)
group_fits g result s h low = grind (arith, shift_seven s)

read-write_loop :
    (v : ℕ) (w : Acc ◌<◌ v) (result shift : ℕ) (rest : List ℕ)
    → result < 2 ^ shift
    → v * 2 ^ shift < 2 ^ 64
    → read_varint_loop result shift (write_varint_loop [] v w ++ rest)
      ≡ ok (result + v * 2 ^ shift, rest)
read-write_loop v (Acc.intro _ below) result shift rest low fits = elim (dec_le 128 v) [
  | yes p ↦
      rw
        (
          write_more [] v below p,
          write-append _ (below _ (shifted-lt v p)) ((v % 128 + 128) ∷ []) [],
        )
        (read_more (v % 128) result shift _ (omega arith) low (omega (arith, split_group v shift))
            (room_left v shift p fits)
          ∙ read-write_loop (v / 128) (below _ (shifted-lt v p)) (result + v % 128 * 2 ^ shift)
              (shift + 7) rest (group_fits (v % 128) result shift (omega arith) low)
              (omega (arith, split_group v shift))
          ∙ ap (λ (t : ℕ). ok (t, rest)) (omega (arith, split_group v shift)))
  | no p ↦
      rw (write_last [] v (Acc.intro v below) (omega arith))
        (read_last v result shift rest (omega arith) low fits)
]

-- `read_varint` reads back every u64 that `write_varint` wrote, and stops right behind it.
pub read_varint-write_varint :
    (v : ℕ) (rest : List ℕ) → v < 2 ^ 64 → read_varint (write_varint [] v ++ rest) ≡ ok (v, rest)
unfolding read_varint write_varint
read_varint-write_varint v rest h =
    read-write_loop v (lt_wf.apply v) 0 0 rest (omega arith) (omega arith)
    ∙ ap (λ (t : ℕ). ok (t, rest)) (omega arith)

-- `write_varint` appends to its buffer.
pub write_varint-append : (buf : List ℕ) (v : ℕ) → write_varint buf v ≡ buf ++ write_varint [] v
unfolding write_varint
write_varint-append buf v =
    ap (λ b. write_varint_loop b v (lt_wf.apply v)) (sym (append-nil buf))
    ∙ write-append v (lt_wf.apply v) buf []
