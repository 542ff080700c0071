-- ===== src/Tests/Wire.antt =====
-- Messages on the wire: the buffers as lists of bytes, and a message with a text, a sequence, an
-- option and an enum in it.
use creo_bench.Prelude.{
  ℕ, ◌<◌, ◌≤◌, ◌≡◌, refl, sym, Option, none, some, true, List, [], ◌∷◌, ◌++◌, arith, ok, err,
  length, length-append, take, drop, take_exact, drop_exact, ltb, lt→ltb, not-ltb, if◌then◌else◌,
}
use creo_bench.Net.Bytes.{Buffer, to_be_bytes, from_be_bytes}
use creo_bench.Net.Value.{unexpected_end}
use creo_bench.Net.ZeroWidth.{units, serialize-deserialize-units}
use creo_bench.Net.Value.{
  Value, Values, Fields, Shape, FieldShapes, Variant, Variants, Scalar, width,
}
use creo_bench.Net.Utf8.{from_utf8}
use creo_bench.Net.Encoding.{encode, encode_values, HasShape, HasElements, HasFields, variant_at}
use creo_bench.Net.Ser.{serialize}
use creo_bench.Net.De.{deserialize}
use creo_bench.Net.Serialized.{serialize-encode}
use creo_bench.Net.Deserialized.{deserialize-encode}
use creo_bench.Net.Framer.{encode_frame, decode}
use creo_bench.Net.Framer.RoundTrip.{frame, header_bytes, encode_frame-frame, decode-frame}
use creo_bench.Net.Framer.Partial.{decode-partial}
use creo_bench.Net.Framer.Stream.{receive, frames, joined, Fits, receive-frames}

abbrev get_bytes : ℕ → List ℕ → Option (ℕ × List ℕ)
get_bytes w buf = if ltb (length buf) w then none else some (from_be_bytes (take w buf), drop w buf)

get_bytes_short : (w : ℕ) (buf : List ℕ) → length buf < w → get_bytes w buf ≡ none
get_bytes_short w buf h = rw (lt→ltb (length buf) w h)

get_bytes_lem :
    (w : ℕ) (xs rest : List ℕ)
    → length xs ≡ w
    → get_bytes w (xs ++ rest) ≡ some (from_be_bytes xs, rest)
get_bytes_lem w xs rest h = rw (
  not-ltb (length (xs ++ rest)) w (omega (arith, length-append xs rest)),
  take_exact w xs rest (sym h),
  drop_exact w xs rest (sym h),
)

abbrev list_buffer : Buffer
list_buffer = record {
  put_uint = λ w n buf. buf ++ to_be_bytes w n;
  put_slice = λ src buf. buf ++ src;
  try_get_uint = get_bytes;
  split_to = λ n buf. (take n buf, drop n buf);
  advance = drop;
  put_uint_lem = λ w n buf. refl;
  put_slice_lem = λ src buf. refl;
  try_get_uint_short = get_bytes_short;
  try_get_uint_lem = get_bytes_lem;
  split_to_lem = λ n xs rest h. rw (take_exact n xs rest (sym h), drop_exact n xs rest (sym h));
  advance_lem = λ n xs rest h. drop_exact n xs rest (sym h);
}

abbrev kinds : Variants
kinds =
    Variants.variant "Finished" Variant.unit_variant
      (Variants.variant "Data" (Variant.newtype_variant (Shape.scalar Scalar.u16)) Variants.end)

abbrev message_shape : Shape
message_shape = Shape.struct "Message" (
    FieldShapes.field "name" Shape.str (
      FieldShapes.field "counts" (Shape.seq (Shape.scalar Scalar.u32)) (
        FieldShapes.field "last" (Shape.option Shape.bool)
          (FieldShapes.field "kind" (Shape.enum "Kind" kinds) FieldShapes.done))))

abbrev numbers : Values
numbers =
    Values.cons (Value.scalar Scalar.u32 7) (Values.cons (Value.scalar Scalar.u32 70000) Values.nil)

-- "hé" in UTF-8.
abbrev text : List ℕ
text = 0x68 ∷ 0xC3 ∷ 0xA9 ∷ []

abbrev message : Value
message = Value.struct "Message" (
    Fields.field "name" (Value.str text) (
      Fields.field "counts" (Value.seq (some 2) numbers) (
        Fields.field "last" (Value.present (Value.bool true)) (
          Fields.field "kind" (Value.newtype_variant "Kind" 1 "Data" (Value.scalar Scalar.u16 513))
            Fields.done))))

text-from_utf8 : from_utf8 text ≡ true
unfolding from_utf8
text-from_utf8 = refl

numbers-HasElements : HasElements 2 numbers (Shape.scalar Scalar.u32)
unfolding width
numbers-HasElements =
    HasElements.an_element (HasShape.scalar _ _ (omega arith))
      (HasElements.an_element (HasShape.scalar _ _ (omega arith)) (HasElements.no_elements _))

numbers-length : 2 ≤ length (encode_values numbers)
unfolding encode to_be_bytes width
numbers-length = omega arith

data_variant : variant_at kinds 1 ≡ some ("Data", Variant.newtype_variant (Shape.scalar Scalar.u16))
unfolding variant_at
data_variant = refl

number-HasShape : HasShape (Value.scalar Scalar.u16 513) (Shape.scalar Scalar.u16)
unfolding width
number-HasShape = HasShape.scalar _ _ (omega arith)

message-HasShape : HasShape message message_shape
message-HasShape = HasShape.struct "Message" (
    HasFields.a_field "name" (HasShape.str text (omega arith) text-from_utf8) (
      HasFields.a_field "counts" (HasShape.seq numbers-HasElements (omega arith) numbers-length) (
        HasFields.a_field "last" (HasShape.present (HasShape.bool true)) (
          HasFields.a_field "kind"
            (HasShape.newtype_variant "Kind" (omega arith) data_variant number-HasShape)
            HasFields.no_fields))))

message-length : length (encode message) ≡ 35
unfolding encode to_be_bytes width
message-length = refl

frame_bytes : length (frame message) ≡ 47
unfolding frame header_bytes encode to_be_bytes width
frame_bytes = refl

serialize-encode_example :
    serialize list_buffer message (9 ∷ []) ≡ (ok tt, (9 ∷ []) ++ encode message)
serialize-encode_example = serialize-encode list_buffer message-HasShape (9 ∷ [])

deserialize-encode_example :
    deserialize list_buffer message_shape (encode message ++ 9 ∷ []) ≡ ok (message, 9 ∷ [])
deserialize-encode_example = deserialize-encode list_buffer message-HasShape (9 ∷ [])

encode_frame-frame_example :
    encode_frame list_buffer message (9 ∷ []) ≡ (ok tt, (9 ∷ []) ++ frame message)
encode_frame-frame_example =
    encode_frame-frame list_buffer message-HasShape (9 ∷ []) (omega (arith, message-length))

decode-frame_example :
    decode list_buffer message_shape (frame message ++ 9 ∷ []) ≡ (ok (some message), 9 ∷ [])
decode-frame_example =
    decode-frame list_buffer message-HasShape (9 ∷ []) (omega (arith, message-length))

part : take 20 (frame message) ++ drop 20 (frame message) ≡ frame message
unfolding frame header_bytes encode to_be_bytes width
part = refl

part_length : length (take 20 (frame message)) ≡ 20
unfolding frame header_bytes encode to_be_bytes width
part_length = refl

decode-partial_example :
    decode list_buffer message_shape (take 20 (frame message)) ≡ (ok none, take 20 (frame message))
decode-partial_example =
    decode-partial list_buffer message_shape message (take 20 (frame message))
      (drop 20 (frame message)) part (omega (arith, part_length, frame_bytes))
      (omega (arith, message-length))

abbrev stream : List ℕ
stream = frames (message ∷ message ∷ [])

chunks_stream : joined (take 5 stream ∷ take 60 (drop 5 stream) ∷ drop 65 stream ∷ []) ≡ stream
unfolding frame header_bytes encode to_be_bytes width
chunks_stream = refl

fits : Fits message_shape message
fits = (message-HasShape, omega (arith, message-length))

receive-frames_example :
    receive list_buffer message_shape []
      (take 5 stream ∷ take 60 (drop 5 stream) ∷ drop 65 stream ∷ [])
    ≡ (message ∷ message ∷ [], [])
receive-frames_example =
    receive-frames list_buffer message_shape (message ∷ message ∷ [])
      (take 5 stream ∷ take 60 (drop 5 stream) ∷ drop 65 stream ∷ []) (fits, (fits, tt))
      chunks_stream

serialize-deserialize-units_example :
    (serialize list_buffer (Value.seq (some 3) (units 3)) [] ≡ (ok tt, to_be_bytes 8 3))
    × (deserialize list_buffer (Shape.seq Shape.unit) (to_be_bytes 8 3) ≡ err (unexpected_end 3 0))
serialize-deserialize-units_example =
    serialize-deserialize-units list_buffer 3 (omega arith) (omega arith)
