-- ===== src/Net/Framer/RoundTrip.antt =====
-- net/framer.rs: a whole message, as the encoder writes it and as the decoder reads it.
use creo_bench.Prelude.{
  ℕ, ◌+◌, ◌-◌, ◌<◌, ◌≤◌, ◌≡◌, refl, sym, some, List, [], ◌∷◌, ◌++◌, append_assoc, append-nil, arith,
  ok, length, length-append, take, drop, take-length-append, drop-length-append, take_exact,
  drop_exact, not-ltb,
}
use creo_bench.Net.Bytes.{
  Buffer, to_be_bytes, from_be_bytes, from_be_bytes-to_be_bytes, length-to_be_bytes,
}
use creo_bench.Net.Value.{Value, Shape}
use creo_bench.Net.Ser.{u64_bound}
use creo_bench.Net.De.{usize_max, deserialize}
use creo_bench.Net.Encoding.{encode, HasShape}
use creo_bench.Net.Serialized.{serialize-encode}
use creo_bench.Net.Deserialized.{deserialize-encode}
use creo_bench.Net.Protocol.{
  magic_number, header_size, patch_payload_size, deserialize_header, init_header, finish_message,
  serialize_message,
}
use creo_bench.Net.Framer.{encode_frame, read_payload, take_payload, decode}

-- The header of a message with `n` bytes of payload.
unfoldable pub header_bytes : ℕ → List ℕ
header_bytes n = 0xAB ∷ 0xCD ∷ 1 ∷ 0 ∷ to_be_bytes 8 n

-- A message on the wire: its header and its payload.
unfoldable pub frame : Value → List ℕ
frame v = header_bytes (length (encode v)) ++ encode v

pub length-header_bytes : (n : ℕ) → length (header_bytes n) ≡ header_size
unfolding header_bytes
length-header_bytes n = omega (arith, length-to_be_bytes 8 n)

pub length-frame : (v : Value) → length (frame v) ≡ header_size + length (encode v)
unfolding frame
length-frame v = omega (
  arith,
  length-append (header_bytes (length (encode v))) (encode v),
  length-header_bytes (length (encode v)),
)

magic_bytes : from_be_bytes (0xAB ∷ 0xCD ∷ []) ≡ magic_number
unfolding from_be_bytes
magic_bytes = refl

pub deserialize_header-header_bytes :
    (n : ℕ) (rest : List ℕ)
    → n ≤ usize_max
    → deserialize_header (header_bytes n ++ rest) header_size
      ≡ ok (record { flags = 0; payload_size = n })
unfolding deserialize_header header_bytes to_be_bytes
deserialize_header-header_bytes n rest h =
    ground (arith, magic_bytes, from_be_bytes-to_be_bytes 8 n)

pub deserialize_header-frame :
    (v : Value) (rest : List ℕ)
    → length (encode v) ≤ usize_max
    → deserialize_header (frame v ++ rest) header_size
      ≡ ok (record { flags = 0; payload_size = length (encode v) })
unfolding frame
deserialize_header-frame v rest h =
    rw (append_assoc (header_bytes (length (encode v))) (encode v) rest)
      (deserialize_header-header_bytes (length (encode v)) (encode v ++ rest) h)

module _ (buf payload : List ℕ) where
  abbrev message_bytes : List ℕ
  message_bytes = buf ++ (header_bytes 0 ++ payload)

  payload_of_message : length message_bytes - length (buf ++ header_bytes 0) ≡ length payload
  payload_of_message = omega (
    arith,
    length-append buf (header_bytes 0 ++ payload),
    length-append (header_bytes 0) payload,
    length-append buf (header_bytes 0),
  )

  header_of_message : take header_size (drop (length buf) message_bytes) ≡ header_bytes 0
  header_of_message =
      rw drop-length-append
        (take_exact header_size (header_bytes 0) payload (sym (length-header_bytes 0)))

  behind_header : drop (length buf + header_size) message_bytes ≡ payload
  behind_header = rw (← append_assoc buf (header_bytes 0) payload) (
      drop_exact _ (buf ++ header_bytes 0) payload
        (omega (arith, length-append buf (header_bytes 0), length-header_bytes 0)))

module _ (bytes : Buffer) where
  init_header_lem : (buf : List ℕ) → init_header bytes buf ≡ buf ++ header_bytes 0
  unfolding init_header header_bytes to_be_bytes
  init_header_lem buf = simp (bytes.put_uint_lem, append_assoc)

  patch_lem : (n : ℕ) → n < u64_bound → patch_payload_size (header_bytes 0) n ≡ ok (header_bytes n)
  unfolding patch_payload_size header_bytes to_be_bytes
  patch_lem n h = ground arith

  finish_lem :
      (buf payload : List ℕ)
      → length payload < u64_bound
      → finish_message bytes
          (length buf)
          (length (buf ++ header_bytes 0))
          (ok tt, (buf ++ header_bytes 0) ++ payload)
        ≡ (ok tt, buf ++ (header_bytes (length payload) ++ payload))
  unfolding finish_message
  finish_lem buf payload h = rw (
    finish_message,
    append_assoc buf (header_bytes 0) payload,
    header_of_message buf payload,
    payload_of_message buf payload,
    patch_lem (length payload) h,
    append_assoc buf (header_bytes 0) payload,
    take-length-append,
    behind_header buf payload,
  )

  -- The message is appended to the buffer, its size in the header.
  pub serialize_message-frame :
      {v : Value} {s : Shape}
      → HasShape v s
      → (buf : List ℕ) → length (encode v) < u64_bound
      → serialize_message bytes v buf ≡ (ok tt, buf ++ frame v)
  unfolding serialize_message frame
  serialize_message-frame {v} d buf h =
      rw (init_header_lem buf, serialize-encode bytes d (buf ++ header_bytes 0))
        (finish_lem buf (encode v) h)

  -- For a value that has some shape, with a known length and at least as many bytes as elements in
  -- every sequence and map in it, and whose encoding has less than 2^64 bytes: `encode` succeeds,
  -- and appends to the buffer the frame of the value, which is the header with the size of the
  -- payload patched in, and the encoding of the value.
  pub encode_frame-frame :
      {v : Value} {s : Shape}
      → HasShape v s
      → (buf : List ℕ) → length (encode v) < u64_bound
      → encode_frame bytes v buf ≡ (ok tt, buf ++ frame v)
  unfolding encode_frame
  encode_frame-frame d buf h = rw (serialize_message-frame d buf h)

  read_payload-encode :
      {v : Value} {s : Shape}
      → HasShape v s
      → (rest : List ℕ) → read_payload bytes s (encode v, rest) ≡ (ok (some v), rest)
  unfolding read_payload
  read_payload-encode {v} {s} d rest = rw (read_payload, whole)
    where
      whole : deserialize bytes s (encode v) ≡ ok (v, [])
      whole = rw append-nil at (deserialize-encode bytes d [])

  take_payload-frame :
      {v : Value} {s : Shape}
      → HasShape v s
      → (rest : List ℕ)
      → take_payload bytes s (length (encode v)) (frame v ++ rest) ≡ (ok (some v), rest)
  unfolding take_payload frame
  take_payload-frame {v} {s} d rest =
      rw
        (
          append_assoc (header_bytes (length (encode v))) (encode v) rest,
          bytes.advance_lem header_size (header_bytes (length (encode v))) (encode v ++ rest)
              (length-header_bytes _),
          bytes.split_to_lem (length (encode v)) (encode v) rest refl,
        )
        (read_payload-encode d rest)

  -- For a value of the shape that is asked for, with a known length and at least as many bytes as
  -- elements in every sequence and map in it, which rules out sequences of one or more units, and
  -- whose frame is no longer than usize::MAX: `decode` on a buffer that begins with the frame of
  -- the value yields the value, and leaves what stands behind the frame in the buffer.
  pub decode-frame :
      {v : Value} {s : Shape}
      → HasShape v s
      → (rest : List ℕ) → header_size + length (encode v) ≤ usize_max
      → decode bytes s (frame v ++ rest) ≡ (ok (some v), rest)
  unfolding decode
  decode-frame {v} {s} d rest h =
      rw
        (
          not-ltb (length (frame v ++ rest)) header_size (omega (arith, size)),
          deserialize_header-frame v rest (omega arith),
          not-ltb usize_max (header_size + length (encode v)) h,
          not-ltb (length (frame v ++ rest)) (header_size + length (encode v))
              (omega (arith, size)),
        )
        (take_payload-frame d rest)
    where
      size : length (frame v ++ rest) ≡ header_size + length (encode v) + length rest
      size = omega (arith, length-append (frame v) rest, length-frame v)
