-- ===== src/Net/Framer.antt =====
-- net/framer.rs: the codec that cuts the stream of bytes into messages.
pub mod RoundTrip
pub mod Partial
pub mod Stream
use creo_bench.Prelude.{
  ℕ, ◌+◌, String, Option, none, some, List, Result, ok, err, map_err, length, ltb, if◌then◌else◌,
}
use creo_bench.Net.Bytes.{Buffer}
use creo_bench.Net.Value.{Value, Shape, SerdeError}
use creo_bench.Net.De.{deserialize, usize_max}
use creo_bench.Net.Protocol.{
  MessageHeader, HeaderDeError, MessageSerError, header_size, deserialize_header, serialize_message,
}

pub data DecoderError : Type 0 where
  header : HeaderDeError → DecoderError
  payload : SerdeError → DecoderError
  io : String → DecoderError
  size_overflow : DecoderError

pub data EncoderError : Type 0 where
  message : MessageSerError → EncoderError
  io : String → EncoderError

module _ (bytes : Buffer) where
  -- `Encoder::encode`: the result, and the buffer after it.
  unfoldable pub encode_frame : Value → List ℕ → Result (Unit {0}) EncoderError × List ℕ
  encode_frame item dst =
      let (result, dst') = serialize_message bytes item dst in (map_err message result, dst')

  -- `decode` with the bytes of the payload split off. What its deserialization leaves of them is
  -- dropped with them.
  unfoldable pub read_payload :
      Shape → List ℕ × List ℕ → Result (Option Value) DecoderError × List ℕ
  read_payload shape (payload_bytes, rest) = elim (deserialize bytes shape payload_bytes) [
    | ok (v, unread) ↦ (ok (some v), rest)
    | err e ↦ (err (payload e), rest)
  ]

  -- `decode` once the whole message is there.
  unfoldable pub take_payload : Shape → ℕ → List ℕ → Result (Option Value) DecoderError × List ℕ
  take_payload shape size src =
      read_payload shape (bytes.split_to size (bytes.advance header_size src))

  -- `Decoder::decode`: the result, and the buffer after it.
  unfoldable pub decode : Shape → List ℕ → Result (Option Value) DecoderError × List ℕ
  decode shape src =
      if ltb (length src) header_size
      then (ok none, src)
      else elim (deserialize_header src header_size) [
        | err e ↦ (err (header e), src)
        | ok h ↦
            if ltb usize_max (header_size + h.payload_size)
            then (err size_overflow, src)
            else if ltb (length src) (header_size + h.payload_size)
            then (ok none, src)
            else take_payload shape h.payload_size src
      ]
