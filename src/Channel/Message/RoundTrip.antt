-- ===== src/Channel/Message/RoundTrip.antt =====
-- `encode_cast_message` writes six fields, and `decode_cast_message` reads them back.
use mathlib.Core.List.{foldl}
use chromecast_sink.Base.{
  ℕ, ◌+◌, ◌*◌, ◌^◌, ◌<◌, ◌≡◌, ap, ◌∙◌, List, [], ◌∷◌, ◌++◌, append_assoc, append-nil, length, true,
  arith,
}
use chromecast_sink.Base.Bits.{bit_or-shifted, bit_or_comm}
use chromecast_sink.Base.Result.{ok}
use chromecast_sink.Channel.Varint.{write_varint}
use chromecast_sink.Channel.Varint.RoundTrip.{write_varint-append}
use chromecast_sink.Channel.Utf8.{Text, is_utf8, from_utf8_lossy_valid}
use chromecast_sink.Channel.Message.{
  CastMessage, empty_message, write_string, write_varint_field, encode_cast_message, set_field,
  decode_cast_message,
}
use chromecast_sink.Channel.Message.Fields.{
  Field, number, chunk, encode_field, encode_fields, apply_field, decode_cast_message-encode_fields,
}

abbrev fields_of : CastMessage → List Field
fields_of msg =
    number 1 0
    ∷ chunk 2 msg.source
    ∷ chunk 3 msg.destination
    ∷ chunk 4 msg.namespace
    ∷ number 5 0
    ∷ chunk 6 msg.payload
    ∷ []

write_string-eq :
    (buf : List ℕ) (tag : ℕ) (s : Text) → write_string buf tag s ≡ buf ++ encode_field (chunk tag s)
unfolding write_string encode_field
write_string-eq buf tag s =
    rw
      (
        bit_or_comm (tag * 2 ^ 3) 2,
        bit_or-shifted 3 tag 2 (omega arith),
        write_varint-append (write_varint buf (2 + tag * 2 ^ 3)) (length s),
        write_varint-append buf (2 + tag * 2 ^ 3),
        append_assoc,
        append_assoc,
      )
      (ap (λ (k : ℕ). buf ++ (write_varint [] k ++ (write_varint [] (length s) ++ s)))
        (omega arith))

write_varint_field-eq :
    (buf : List ℕ) (tag v : ℕ) → write_varint_field buf tag v ≡ buf ++ encode_field (number tag v)
unfolding write_varint_field encode_field
write_varint_field-eq buf tag v = rw (
  write_varint-append (write_varint buf (tag * 2 ^ 3)) v,
  write_varint-append buf (tag * 2 ^ 3),
  append_assoc,
)

encode_cast_message-fields :
    (msg : CastMessage) → encode_cast_message msg ≡ encode_fields (fields_of msg)
unfolding encode_cast_message encode_fields
encode_cast_message-fields msg =
    simp (write_string-eq, write_varint_field-eq, append_assoc, append-nil)

-- A string that fits its length prefix.
abbrev IsString : Text → Type 0
IsString s = (is_utf8 s ≡ true) × (length s < 2 ^ 64)

pub record IsSendable (msg : CastMessage) : Type 0 where
  pub source_string : IsString msg.source
  pub destination_string : IsString msg.destination
  pub namespace_string : IsString msg.namespace
  pub payload_string : IsString msg.payload

fold-fields_of :
    (msg : CastMessage) → IsSendable msg → foldl apply_field empty_message (fields_of msg) ≡ msg
unfolding set_field
fold-fields_of msg h = simp (
  from_utf8_lossy_valid _ h.source_string.0,
  from_utf8_lossy_valid _ h.destination_string.0,
  from_utf8_lossy_valid _ h.namespace_string.0,
  from_utf8_lossy_valid _ h.payload_string.0,
)

-- `decode_cast_message` reads back every message whose fields are Rust strings.
pub decode_cast_message-encode_cast_message :
    (msg : CastMessage) → IsSendable msg → decode_cast_message (encode_cast_message msg) ≡ ok msg
decode_cast_message-encode_cast_message msg h =
    ap decode_cast_message (encode_cast_message-fields msg)
    ∙ decode_cast_message-encode_fields (fields_of msg) (omega arith)
    ∙ ap ok (fold-fields_of msg h)
