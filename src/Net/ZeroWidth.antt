-- ===== src/Net/ZeroWidth.antt =====
-- net/ser.rs and net/de.rs: sequences whose elements have no bytes.
use creo_bench.Prelude.{
  ℕ, zero, suc, ◌<◌, ◌≡◌, refl, some, List, [], append-nil, arith, ok, err, lt→ltb, not-ltb,
}
use creo_bench.Net.Bytes.{Buffer, to_be_bytes}
use creo_bench.Net.Value.{Value, Values, Shape, unexpected_end}
use creo_bench.Net.Ser.{serialize, serialize_len, serialize_len_hint, serialize_elements, u64_bound}
use creo_bench.Net.De.{get, deserialize, check_remaining, deserialize_and_ensure_length, usize_max}
use creo_bench.Net.Deserialized.{get_lem}

abbrev pub units : ℕ → Values
units zero = Values.nil
units (suc n) = Values.cons Value.unit (units n)

module _ (bytes : Buffer) where
  serialize_elements-units :
      (n : ℕ) (buf : List ℕ) → serialize_elements bytes (units n) buf ≡ (ok tt, buf)
  unfolding serialize
  serialize_elements-units zero buf = refl
  serialize_elements-units (suc n) buf = serialize_elements-units n buf

  serialize-units :
      (n : ℕ)
      → n < u64_bound
      → serialize bytes (Value.seq (some n) (units n)) [] ≡ (ok tt, to_be_bytes 8 n)
  unfolding serialize serialize_len_hint serialize_len
  serialize-units n h = rw (
    lt→ltb n u64_bound h,
    bytes.put_uint_lem 8 n [],
    serialize_elements-units n (to_be_bytes 8 n),
  )

  get-whole : (n : ℕ) → n < u64_bound → get bytes 8 (to_be_bytes 8 n) ≡ ok (n, [])
  get-whole n h = rw append-nil at (get_lem bytes 8 n [] h)

  -- For a sequence of n units, n between 1 and 2^64 - 1: the serializer succeeds and writes the
  -- eight bytes of the length; the deserializer, on exactly these bytes, fails with an unexpected
  -- end, n bytes wanted and none there.
  pub serialize-deserialize-units :
      (n : ℕ)
      → 0 < n
      → n < u64_bound
      → (serialize bytes (Value.seq (some n) (units n)) [] ≡ (ok tt, to_be_bytes 8 n))
        × (deserialize bytes (Shape.seq Shape.unit) (to_be_bytes 8 n) ≡ err (unexpected_end n 0))
  unfolding deserialize deserialize_and_ensure_length check_remaining
  serialize-deserialize-units n p h =
      (serialize-units n h, rw (get-whole n h, not-ltb usize_max n (omega arith), lt→ltb 0 n p))
