-- ===== src/Channel/Error.antt =====
-- The errors that the codec and the framing of src/cast_channel.rs report.
use chromecast_sink.Base.{ℕ}
use chromecast_sink.Base.Result.{Result}

-- `unfinished` is no error of the source: a loop of the model ran out of fuel.
pub data Error : Type 0 where
  varint_overruns varint_too_long field_overruns frame_too_large unfinished : Error
  unsupported_wire : ℕ → ℕ → Error

abbrev pub Fallible : Type 0 → Type 0
Fallible A = Result Error A
