-- ===== src/Channel/Utf8.antt =====
-- `String::from_utf8_lossy`, as `decode_cast_message` of src/cast_channel.rs calls it.
-- A Rust string is the list of its UTF-8 bytes.
use chromecast_sink.Base.{
  ℕ, ◌≡◌, refl, Bool, true, false, ◌&&◌, Option, none, some, List, [], ◌∷◌, ◌++◌, append_assoc, ltb,
  leb, if◌then◌else◌, arith,
}

abbrev pub Text : Type 0
Text = List ℕ

-- Bounds of a continuation byte, both included.
abbrev Range : Type 0
Range = ℕ × ℕ

in_range : Range → ℕ → Bool
in_range (lo, hi) b = leb lo b && leb b hi

abbrev tail_byte : Range
tail_byte = (0x80, 0xbf)

-- The continuation bytes that a first byte asks for; `none` for a byte that begins no character.
lead : ℕ → Option (List Range)
lead b =
    if ltb b 0x80
    then some []
    else if ltb b 0xc2
    then none
    else if ltb b 0xe0
    then some (tail_byte ∷ [])
    else if ltb b 0xe1
    then some ((0xa0, 0xbf) ∷ tail_byte ∷ [])
    else if ltb b 0xed
    then some (tail_byte ∷ tail_byte ∷ [])
    else if ltb b 0xee
    then some ((0x80, 0x9f) ∷ tail_byte ∷ [])
    else if ltb b 0xf0
    then some (tail_byte ∷ tail_byte ∷ [])
    else if ltb b 0xf1
    then some ((0x90, 0xbf) ∷ tail_byte ∷ tail_byte ∷ [])
    else if ltb b 0xf4
    then some (tail_byte ∷ tail_byte ∷ tail_byte ∷ [])
    else if ltb b 0xf5
    then some ((0x80, 0x8f) ∷ tail_byte ∷ tail_byte ∷ [])
    else none

-- U+FFFD
abbrev replacement : Text
replacement = 0xef ∷ 0xbf ∷ 0xbd ∷ []

-- What a byte makes known: the bytes to output, and the character that is left open, as the bytes
-- seen of it and the bounds of those to come.
abbrev Decoded : Type 0
Decoded = Text × Text × List Range

advance : Text → List Range → Decoded
advance seen [] = (seen, [], [])
advance seen (r ∷ rs) = ([], seen, r ∷ rs)

start : ℕ → Decoded
start b = elim (lead b) [ none ↦ (replacement, [], []) | some rs ↦ advance (b ∷ []) rs ]

restart : Decoded → Decoded
restart (out, seen, rs) = (replacement ++ out, seen, rs)

step : Text → List Range → ℕ → Decoded
step seen [] b = start b
step seen (r ∷ rs) b = if in_range r b then advance (seen ++ (b ∷ [])) rs else restart (start b)

flush : List Range → Text
flush [] = []
flush (r ∷ rs) = replacement

lossy_loop : Text → List Range → List ℕ → Text
lossy_loop seen rs [] = flush rs
lossy_loop seen rs (b ∷ bs) =
    let (out, seen', rs') = step seen rs b in out ++ lossy_loop seen' rs' bs

pub from_utf8_lossy : List ℕ → Text
unfolding lossy_loop step start restart advance flush lead in_range
from_utf8_lossy bytes = lossy_loop [] [] bytes

-- Well-formed UTF-8 (Unicode table 3-7), with the bounds of the continuation bytes to come.
is_utf8_from : List Range → List ℕ → Bool
is_utf8_from [] [] = true
is_utf8_from (r ∷ rs) [] = false
is_utf8_from [] (b ∷ bs) = elim (lead b) [ none ↦ false | some rs ↦ is_utf8_from rs bs ]
is_utf8_from (r ∷ rs) (b ∷ bs) = in_range r b && is_utf8_from rs bs

unfoldable pub is_utf8 : List ℕ → Bool
unfolding is_utf8_from lead in_range
is_utf8 bytes = is_utf8_from [] bytes

-- The bytes seen of an open character; there are none where no character is open.
abbrev opened : List Range → Text → Text
opened [] seen = []
opened (r ∷ rs) seen = seen

abbrev PassesAll : List ℕ → Type 0
PassesAll bs =
    (seen : Text) (rs : List Range)
    → is_utf8_from rs bs ≡ true
    → lossy_loop (opened rs seen) rs bs ≡ opened rs seen ++ bs

first_byte_passes :
    (b : ℕ) (bs : List ℕ) (o : Option (List Range))
    → PassesAll bs
    → lead b ≡ o
    → is_utf8_from [] (b ∷ bs) ≡ true
    → lossy_loop [] [] (b ∷ bs) ≡ b ∷ bs
unfolding lossy_loop is_utf8_from step start advance
first_byte_passes b bs none ih e v = ground arith
first_byte_passes b bs (some []) ih e v = ground (arith, ih [] [])
first_byte_passes b bs (some (r ∷ rs)) ih e v = ground (arith, ih (b ∷ []) (r ∷ rs))

lossy_loop_passes : (bs : List ℕ) → PassesAll bs
unfolding lossy_loop is_utf8_from step advance flush
lossy_loop_passes [] seen [] v = refl
lossy_loop_passes [] seen (r ∷ rs) v = cc
lossy_loop_passes (b ∷ bs) seen [] v = first_byte_passes b bs (lead b) (lossy_loop_passes bs) refl v
lossy_loop_passes (b ∷ bs) seen (r ∷ []) v =
    ground (arith, lossy_loop_passes bs [] [], append_assoc seen (b ∷ []) bs)
lossy_loop_passes (b ∷ bs) seen (r ∷ r' ∷ rs) v =
    ground (arith, lossy_loop_passes bs (seen ++ (b ∷ [])) (r' ∷ rs), append_assoc seen (b ∷ []) bs)

-- Well-formed text passes unchanged.
pub from_utf8_lossy_valid : (s : Text) → is_utf8 s ≡ true → from_utf8_lossy s ≡ s
unfolding from_utf8_lossy is_utf8
from_utf8_lossy_valid s v = lossy_loop_passes s [] [] v
