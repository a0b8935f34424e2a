-- ===== src/Channel/Message.antt =====
-- The hand-written protobuf codec of src/cast_channel.rs: `CastMessage`, `encode_cast_message` and
-- `decode_cast_message`.
pub mod Fields
pub mod RoundTrip
pub mod Total
use mathlib.Core.List.{foldl}
use chromecast_sink.Base.{
  ℕ, zero, suc, ◌+◌, ◌*◌, ◌/◌, ◌%◌, ◌^◌, bit_and, bit_or, u8, u32, List, [], ◌∷◌, ◌++◌, length,
  take, drop, ltb, ◌==◌, if◌then◌else◌,
}
use chromecast_sink.Base.Result.{ok, err, ◌>>=◌}
use chromecast_sink.Channel.Error.{Fallible, field_overruns, unsupported_wire, unfinished}
use chromecast_sink.Channel.Varint.{write_varint, read_varint}
use chromecast_sink.Channel.Utf8.{Text, from_utf8_lossy}

pub record CastMessage : Type 0 where
  pub source : Text
  pub destination : Text
  pub namespace : Text
  pub payload : Text

abbrev pub empty_message : CastMessage
empty_message = record { source = []; destination = []; namespace = []; payload = [] }

pub write_string : List ℕ → ℕ → Text → List ℕ
write_string buf tag s = write_varint (write_varint buf (bit_or (tag * 2 ^ 3) 2)) (length s) ++ s

pub write_varint_field : List ℕ → ℕ → ℕ → List ℕ
write_varint_field buf tag v = write_varint (write_varint buf (tag * 2 ^ 3)) v

pub encode_cast_message : CastMessage → List ℕ
encode_cast_message msg =
    let buf = write_varint_field [] 1 0 in
    let buf = write_string buf 2 msg.source in
    let buf = write_string buf 3 msg.destination in
    let buf = write_string buf 4 msg.namespace in
    let buf = write_varint_field buf 5 0 in write_string buf 6 msg.payload

-- `match tag` on a length-delimited field.
pub set_field : ℕ → List ℕ → CastMessage → CastMessage
set_field tag slice msg =
    if tag == 2
    then record msg { source = from_utf8_lossy slice }
    else if tag == 3
    then record msg { destination = from_utf8_lossy slice }
    else if tag == 4
    then record msg { namespace = from_utf8_lossy slice }
    else if tag == 6
    then record msg { payload = from_utf8_lossy slice }
    else msg

pub take_slice : CastMessage → ℕ → List ℕ → Fallible (CastMessage × List ℕ)
take_slice msg tag bytes = do
  (len, left) ← read_varint bytes
  if ltb (length left) len
      then err field_overruns
      else ok (set_field tag (take len left) msg, drop len left)

pub skip_varint : CastMessage → List ℕ → Fallible (CastMessage × List ℕ)
skip_varint msg bytes = do (_, left) ← read_varint bytes; ok (msg, left)

-- `match wire`
pub decode_value : CastMessage → ℕ → ℕ → List ℕ → Fallible (CastMessage × List ℕ)
decode_value msg tag wire bytes =
    if wire == 0
    then skip_varint msg bytes
    else if wire == 2
    then take_slice msg tag bytes
    else err (unsupported_wire wire tag)

-- One round of the `while pos < data.len()` loop, on `data` from `pos` on.
pub decode_field : CastMessage → List ℕ → Fallible (CastMessage × List ℕ)
decode_field msg bytes = do
  (key, left) ← read_varint bytes
  decode_value msg (u32 (key / 2 ^ 3)) (u8 (bit_and key 0x7)) left

decode_loop : ℕ → CastMessage → List ℕ → Fallible CastMessage
decode_loop fuel msg [] = ok msg
decode_loop zero msg (b ∷ bs) = err unfinished
decode_loop (suc fuel) msg (b ∷ bs) = do
  (msg', left) ← decode_field msg (b ∷ bs)
  decode_loop fuel msg' left

-- A round takes a byte at least, so the rounds never outnumber the bytes.
pub decode_cast_message : List ℕ → Fallible CastMessage
decode_cast_message bytes = decode_loop (length bytes) empty_message bytes
