-- ===== src/Net/Protocol.antt =====
-- net/protocol.rs: the header of a message, and a message behind its header.
use creo_bench.Prelude.{
  ℕ, ◌+◌, ◌-◌, List, [], ◌∷◌, ◌++◌, Result, ok, err, length, get_or, take, drop, ltb, ◌==◌,
  if◌then◌else◌,
}
use creo_bench.Net.Bytes.{Buffer, to_be_bytes, from_be_bytes}
use creo_bench.Net.Value.{Value, SerdeError}
use creo_bench.Net.Ser.{Written, serialize, u64_bound}
use creo_bench.Net.De.{usize_max}

abbrev pub magic_number : ℕ
magic_number = 0xABCD

abbrev pub version : ℕ
version = 1

abbrev pub payload_size_offset : ℕ
payload_size_offset = 4

-- `MessageHeader::SIZE`.
abbrev pub header_size : ℕ
header_size = 12

pub record MessageHeader : Type 0 where
  pub flags : ℕ
  pub payload_size : ℕ

pub data HeaderDeError : Type 0 where
  magic_number_mismatch : ℕ → HeaderDeError
  version_mismatch : ℕ → HeaderDeError
  size_overflow : ℕ → HeaderDeError
  insufficient_data : ℕ → HeaderDeError

pub data HeaderSeError : Type 0 where
  maximum_payload_size : ℕ → HeaderSeError
  invalid_buffer_size : ℕ → HeaderSeError

pub data MessageSerError : Type 0 where
  header : HeaderSeError → MessageSerError
  payload : SerdeError → MessageSerError

-- The slice that is patched, with the new size in it.
unfoldable pub patch_payload_size : List ℕ → ℕ → Result (List ℕ) HeaderSeError
patch_payload_size buf size =
    if ltb (length buf) header_size
    then err (invalid_buffer_size (length buf))
    else if ltb size u64_bound
    then ok (take payload_size_offset buf ++ (to_be_bytes 8 size ++ drop header_size buf))
    else err (maximum_payload_size size)

-- `MessageHeader::deserialize`. An index past the end of `buf` would panic; the caller has checked
-- that the `size` bytes are there.
unfoldable pub deserialize_header : List ℕ → ℕ → Result MessageHeader HeaderDeError
deserialize_header buf size =
    if ltb size header_size
    then err (insufficient_data size)
    else let byte = λ (i : ℕ). get_or buf i 0 in
      let magic = from_be_bytes (byte 0 ∷ byte 1 ∷ []) in
      let payload_size =
        from_be_bytes
          (byte 4 ∷ byte 5 ∷ byte 6 ∷ byte 7 ∷ byte 8 ∷ byte 9 ∷ byte 10 ∷ byte 11 ∷ []) in
      if magic == magic_number
      then if byte 2 == version
        then if ltb usize_max payload_size
          then err (size_overflow payload_size)
          else ok (record { flags = byte 3; payload_size = payload_size })
        else err (version_mismatch (byte 2))
      else err (magic_number_mismatch magic)

module _ (bytes : Buffer) where
  unfoldable pub init_header : List ℕ → List ℕ
  init_header buf =
      bytes.put_uint 8 0
        (bytes.put_uint 1 0 (bytes.put_uint 1 version (bytes.put_uint 2 magic_number buf)))

  -- The rest of `Message::serialize`, from the payload on.
  unfoldable pub finish_message : ℕ → ℕ → Written → Result (Unit {0}) MessageSerError × List ℕ
  finish_message header_pos payload_pos (err e, buf) = (err (payload e), buf)
  finish_message header_pos payload_pos (ok _, buf) =
      let slice = take header_size (drop header_pos buf) in
      elim (patch_payload_size slice (length buf - payload_pos)) [
        | err e ↦ (err (header e), buf)
        | ok patched ↦
            (ok tt, take header_pos buf ++ (patched ++ drop (header_pos + header_size) buf))
      ]

  -- `Message::serialize`.
  unfoldable pub serialize_message : Value → List ℕ → Result (Unit {0}) MessageSerError × List ℕ
  serialize_message v buf =
      let with_header = init_header buf in
      finish_message (length buf) (length with_header) (serialize bytes v with_header)
