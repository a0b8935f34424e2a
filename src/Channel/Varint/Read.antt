-- ===== src/Channel/Varint/Read.antt =====
-- `read_varint` on any input, well formed or not.
use chromecast_sink.Base.{
  ℕ, ◌+◌, ◌*◌, ◌^◌, ◌≤◌, ◌<◌, ◌≡◌, ◌≢◌, bit_and, bit_or, u64, List, [], ◌∷◌, ◌++◌, length, arith,
}
use chromecast_sink.Base.Bits.{bit_or-lt}
use chromecast_sink.Base.Result.{ok, err}
use chromecast_sink.Channel.Error.{unfinished}
use chromecast_sink.Channel.Varint.{read_varint_loop, read_varint}

abbrev joined : ℕ → ℕ → ℕ → ℕ
joined result shift b = bit_or result (u64 (bit_and b 0x7f * 2 ^ shift))

-- After `j` bytes `shift` is `7 * j`, at most 63.
read_loop_takes :
    (bytes : List ℕ) (result shift j v : ℕ) (rest : List ℕ)
    → shift ≡ 7 * j
    → j ≤ 9
    → result < 2 ^ 64
    → read_varint_loop result shift bytes ≡ ok (v, rest)
    → (v < 2 ^ 64) × (length rest < length bytes) × (length bytes + j ≤ length rest + 10)
unfolding read_varint_loop
read_loop_takes [] result shift j v rest hs hj low e = cc
read_loop_takes (b ∷ bs) result shift j v rest hs hj low e = ground (
  arith,
  bit_or-lt 64 result (u64 (bit_and b 0x7f * 2 ^ shift)) low,
  read_loop_takes bs (joined result shift b) (shift + 7) (j + 1) v rest,
)

-- What `read_varint` accepts is a u64 in one to ten bytes.
pub read_varint_takes :
    (bytes : List ℕ) (v : ℕ) (rest : List ℕ)
    → read_varint bytes ≡ ok (v, rest)
    → (v < 2 ^ 64) × (length rest < length bytes) × (length bytes ≤ length rest + 10)
unfolding read_varint
read_varint_takes bytes v rest e = ground (arith, read_loop_takes bytes 0 0 0 v rest)

read_loop-append :
    (bytes more : List ℕ) (result shift v : ℕ) (rest : List ℕ)
    → read_varint_loop result shift bytes ≡ ok (v, rest)
    → read_varint_loop result shift (bytes ++ more) ≡ ok (v, rest ++ more)
unfolding read_varint_loop
read_loop-append [] more result shift v rest e = cc
read_loop-append (b ∷ bs) more result shift v rest e =
    ground (arith, read_loop-append bs more (joined result shift b) (shift + 7) v rest)

-- Bytes behind the number do not change it.
pub read_varint-append :
    (bytes more : List ℕ) (v : ℕ) (rest : List ℕ)
    → read_varint bytes ≡ ok (v, rest)
    → read_varint (bytes ++ more) ≡ ok (v, rest ++ more)
unfolding read_varint
read_varint-append bytes more v rest e = read_loop-append bytes more 0 0 v rest e

read_loop-ne-unfinished :
    (bytes : List ℕ) (result shift : ℕ) → read_varint_loop result shift bytes ≢ err unfinished
unfolding read_varint_loop
read_loop-ne-unfinished [] result shift e = cc
read_loop-ne-unfinished (b ∷ bs) result shift e =
    ground (arith, read_loop-ne-unfinished bs (joined result shift b) (shift + 7))

pub read_varint-ne-unfinished : (bytes : List ℕ) → read_varint bytes ≢ err unfinished
unfolding read_varint
read_varint-ne-unfinished bytes = read_loop-ne-unfinished bytes 0 0
