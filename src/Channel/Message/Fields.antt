-- ===== src/Channel/Message/Fields.antt =====
-- `decode_cast_message` against protobuf fields as data: it folds them, whatever their number,
-- order and tags, and so reads back what `encode_cast_message` writes.
use mathlib.Core.List.{foldl}
use chromecast_sink.Base.{
  ℕ, zero, suc, ◌+◌, ◌*◌, ◌^◌, ◌≤◌, ◌<◌, ◌≡◌, refl, ◌∙◌, List, [], ◌∷◌, ◌++◌, append_assoc, length,
  length-append, take-append, drop-append, length-drop, All, arith,
}
use chromecast_sink.Base.Bits.{bit_and-mask}
use chromecast_sink.Base.Result.{ok, >>=-eq-ok}
use chromecast_sink.Channel.Varint.{write_varint, read_varint}
use chromecast_sink.Channel.Varint.RoundTrip.{read_varint-write_varint}
use chromecast_sink.Channel.Varint.Read.{read_varint_takes}
use chromecast_sink.Channel.Message.{
  CastMessage, empty_message, set_field, take_slice, skip_varint, decode_value, decode_field,
  decode_loop, decode_cast_message,
}

-- A protobuf field of wire type 0 or 2, with its tag.
pub data Field : Type 0 where
  number : ℕ → ℕ → Field
  chunk : ℕ → List ℕ → Field

abbrev pub IsField : Field → Type 0
IsField (number tag v) = (tag < 2 ^ 29) × (v < 2 ^ 64)
IsField (chunk tag s) = (tag < 2 ^ 29) × (length s < 2 ^ 64)

unfoldable pub encode_field : Field → List ℕ
encode_field (number tag v) = write_varint [] (tag * 8) ++ write_varint [] v
encode_field (chunk tag s) = write_varint [] (tag * 8 + 2) ++ (write_varint [] (length s) ++ s)

unfoldable pub encode_fields : List Field → List ℕ
encode_fields [] = []
encode_fields (f ∷ fs) = encode_field f ++ encode_fields fs

-- What a field does to the message.
abbrev pub apply_field : CastMessage → Field → CastMessage
apply_field msg (number tag v) = msg
apply_field msg (chunk tag s) = set_field tag s msg

decode_field-number :
    (msg : CastMessage) (tag v : ℕ) (rest : List ℕ)
    → IsField (number tag v)
    → decode_field msg (encode_field (number tag v) ++ rest) ≡ ok (msg, rest)
unfolding encode_field decode_field decode_value skip_varint
decode_field-number msg tag v rest (ht, hv) = ground (
  arith,
  append_assoc (write_varint [] (tag * 8)) (write_varint [] v) rest,
  read_varint-write_varint (tag * 8) (write_varint [] v ++ rest),
  bit_and-mask 3 (tag * 8) 0x7 refl,
  read_varint-write_varint v rest,
)

decode_field-chunk :
    (msg : CastMessage) (tag : ℕ) (s rest : List ℕ)
    → IsField (chunk tag s)
    → decode_field msg (encode_field (chunk tag s) ++ rest) ≡ ok (set_field tag s msg, rest)
unfolding encode_field decode_field decode_value take_slice
decode_field-chunk msg tag s rest (ht, hs) = ground (
  arith,
  append_assoc (write_varint [] (tag * 8 + 2)) (write_varint [] (length s) ++ s) rest,
  append_assoc (write_varint [] (length s)) s rest,
  read_varint-write_varint (tag * 8 + 2) (write_varint [] (length s) ++ (s ++ rest)),
  bit_and-mask 3 (tag * 8 + 2) 0x7 refl,
  read_varint-write_varint (length s) (s ++ rest),
  length-append s rest,
  take-append s rest,
  drop-append s rest,
)

-- One round of the decoder on one field, whatever follows it.
pub decode_field-encode_field :
    (msg : CastMessage) (f : Field) (rest : List ℕ)
    → IsField f
    → decode_field msg (encode_field f ++ rest) ≡ ok (apply_field msg f, rest)
decode_field-encode_field msg (number tag v) rest h = decode_field-number msg tag v rest h
decode_field-encode_field msg (chunk tag s) rest h = decode_field-chunk msg tag s rest h

take_slice_takes :
    (msg : CastMessage) (tag : ℕ) (bytes : List ℕ) (msg' : CastMessage) (left : List ℕ)
    → take_slice msg tag bytes ≡ ok (msg', left)
    → length left ≤ length bytes
unfolding take_slice
take_slice_takes msg tag bytes msg' left e =
    let ((len, body), read, rest) = >>=-eq-ok (read_varint bytes) _ (msg', left) e in
    ground (arith, read_varint_takes bytes len body read, length-drop len body)

skip_varint_takes :
    (msg : CastMessage) (bytes : List ℕ) (msg' : CastMessage) (left : List ℕ)
    → skip_varint msg bytes ≡ ok (msg', left)
    → length left ≤ length bytes
unfolding skip_varint
skip_varint_takes msg bytes msg' left e =
    let ((len, body), read, rest) = >>=-eq-ok (read_varint bytes) _ (msg', left) e in
    ground (arith, read_varint_takes bytes len body read)

decode_value_takes :
    (msg : CastMessage) (tag wire : ℕ) (bytes : List ℕ) (msg' : CastMessage) (left : List ℕ)
    → decode_value msg tag wire bytes ≡ ok (msg', left)
    → length left ≤ length bytes
unfolding decode_value
decode_value_takes msg tag wire bytes msg' left e =
    ground (arith, take_slice_takes msg tag bytes msg' left, skip_varint_takes msg bytes msg' left)

-- A round takes a byte at least.
pub decode_field_takes :
    (msg : CastMessage) (bytes : List ℕ) (msg' : CastMessage) (left : List ℕ)
    → decode_field msg bytes ≡ ok (msg', left)
    → length left < length bytes
unfolding decode_field
decode_field_takes msg bytes msg' left e =
    let ((key, body), read, rest) = >>=-eq-ok (read_varint bytes) _ (msg', left) e in
    omega
      (arith, read_varint_takes bytes key body read, decode_value_takes msg _ _ body msg' left rest)

decode_loop-step :
    (fuel : ℕ) (msg : CastMessage) (bytes : List ℕ) (msg' : CastMessage) (left : List ℕ)
    → decode_field msg bytes ≡ ok (msg', left)
    → decode_loop (suc fuel) msg bytes ≡ decode_loop fuel msg' left
unfolding decode_loop
decode_loop-step fuel msg [] msg' left e =
    absurd (omega (arith, decode_field_takes msg [] msg' left e))
decode_loop-step fuel msg (b ∷ bs) msg' left e = rw e

decode_loop-encode_fields :
    (fs : List Field) (fuel : ℕ) (msg : CastMessage)
    → All IsField fs
    → length (encode_fields fs) ≤ fuel
    → decode_loop fuel msg (encode_fields fs) ≡ ok (foldl apply_field msg fs)
unfolding encode_fields
decode_loop-encode_fields [] fuel msg h enough = unfold decode_loop in refl
decode_loop-encode_fields (f ∷ fs) zero msg (hf, hfs) enough = absurd (
    omega
      (arith, decode_field_takes msg _ _ _ (decode_field-encode_field msg f (encode_fields fs) hf)))
decode_loop-encode_fields (f ∷ fs) (suc fuel) msg (hf, hfs) enough =
    let one = decode_field-encode_field msg f (encode_fields fs) hf in
    decode_loop-step fuel msg _ (apply_field msg f) (encode_fields fs) one
    ∙ decode_loop-encode_fields fs fuel (apply_field msg f) hfs
        (omega (arith, decode_field_takes msg _ _ _ one))

-- The decoder folds the fields over the empty message, in their order.
pub decode_cast_message-encode_fields :
    (fs : List Field)
    → All IsField fs
    → decode_cast_message (encode_fields fs) ≡ ok (foldl apply_field empty_message fs)
unfolding decode_cast_message
decode_cast_message-encode_fields fs h =
    decode_loop-encode_fields fs (length (encode_fields fs)) empty_message h (omega arith)
