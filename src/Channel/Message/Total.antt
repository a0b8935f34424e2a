-- ===== src/Channel/Message/Total.antt =====
-- `decode_cast_message` ends on every input, and what it accepts is used up to the last byte.
use chromecast_sink.Base.{
  ℕ, zero, suc, ◌≤◌, ◌≡◌, ◌≢◌, refl, List, [], ◌∷◌, ◌⊎◌, inl, inr, length, arith,
}
use chromecast_sink.Base.Result.{Result, ok, err}
use chromecast_sink.Channel.Error.{Error, unfinished}
use chromecast_sink.Channel.Varint.{read_varint}
use chromecast_sink.Channel.Varint.Read.{read_varint-ne-unfinished}
use chromecast_sink.Channel.Message.{
  CastMessage, empty_message, take_slice, skip_varint, decode_value, decode_field, decode_loop,
  decode_cast_message,
}
use chromecast_sink.Channel.Message.Fields.{decode_field_takes}

Result-cases {ℓ} :
    {A : Type ℓ} (r : Result Error A) → ((a : A) × (r ≡ ok a)) ⊎ ((e : Error) × (r ≡ err e))
Result-cases (ok a) = inl (a, refl)
Result-cases (err e) = inr (e, refl)

decode_value-ne-unfinished :
    (msg : CastMessage) (tag wire : ℕ) (bytes : List ℕ)
    → decode_value msg tag wire bytes ≢ err unfinished
unfolding decode_value take_slice skip_varint
decode_value-ne-unfinished msg tag wire bytes e = ground (arith, read_varint-ne-unfinished bytes)

decode_field-ne-unfinished :
    (msg : CastMessage) (bytes : List ℕ) → decode_field msg bytes ≢ err unfinished
unfolding decode_field
decode_field-ne-unfinished msg bytes e = elim (Result-cases (read_varint bytes)) [
  | inl ((key, left), r) ↦ decode_value-ne-unfinished msg _ _ left (rw r at e)
  | inr (x, r) ↦ read_varint-ne-unfinished bytes (ground arith)
]

decode_loop-ne-unfinished :
    (fuel : ℕ) (msg : CastMessage) (bytes : List ℕ)
    → length bytes ≤ fuel
    → decode_loop fuel msg bytes ≢ err unfinished
unfolding decode_loop
decode_loop-ne-unfinished fuel msg [] h e = cc
decode_loop-ne-unfinished zero msg (b ∷ bs) h e = absurd (omega arith)
decode_loop-ne-unfinished (suc fuel) msg (b ∷ bs) h e =
    elim (Result-cases (decode_field msg (b ∷ bs))) [
      | inl ((msg', left), r) ↦
          decode_loop-ne-unfinished fuel msg' left
            (omega (arith, decode_field_takes msg (b ∷ bs) msg' left r)) (rw r at e)
      | inr (x, r) ↦ decode_field-ne-unfinished msg (b ∷ bs) (ground arith)
    ]

-- The decoder ends on every input: with a message or with one of the source's errors.
pub decode_cast_message-ne-unfinished :
    (bytes : List ℕ) → decode_cast_message bytes ≢ err unfinished
unfolding decode_cast_message
decode_cast_message-ne-unfinished bytes =
    decode_loop-ne-unfinished (length bytes) empty_message bytes (omega arith)
