-- ===== src/Net/De.antt =====
-- net/de.rs: `BytesDeserializer`. A result carries the bytes that are left; an error ends the
-- deserialization of the message, so it carries none.
use creo_bench.Prelude.{
  ℕ, zero, suc, ◌^◌, ◌-◌, String, Bool, true, false, ◌||◌, ◌&&◌, some, List, Result, ok, err, ◌>>=◌,
  map_err, ok_or, length, ltb, leb, if◌then◌else◌,
}
use creo_bench.Net.Bytes.{Buffer}
use creo_bench.Net.Value.{
  Value, Values, Entries, Fields, Shape, Shapes, FieldShapes, Variant, Variants, width, SerdeError,
  unexpected_end, length_exceeds, invalid_byte, invalid_char, invalid_utf8, invalid_variant,
  not_supported, in_bool, in_type, in_field, in_variant,
}
use creo_bench.Net.Utf8.{from_utf8}

abbrev pub Read : Type 0 → Type 0
Read A = Result (A × List ℕ) SerdeError

-- `usize::MAX` on the 64-bit targets.
abbrev pub usize_max : ℕ
usize_max = 2 ^ 64 - 1

-- `char::from_u32` of the standard library.
unfoldable pub is_scalar_value : ℕ → Bool
is_scalar_value c = ltb c 0xD800 || leb 0xE000 c && leb c 0x10FFFF

module _ (bytes : Buffer) where
  open bytes use {try_get_uint, split_to}

  -- `try_get_u8` … with its error converted: `From<TryGetError> for SerdeError`.
  unfoldable pub get : ℕ → List ℕ → Read ℕ
  get w buf = ok_or (try_get_uint w buf) (unexpected_end w (length buf))

  unfoldable pub check_remaining : ℕ → List ℕ → Result (Unit {0}) SerdeError
  check_remaining requested buf =
      if ltb (length buf) requested then err (unexpected_end requested (length buf)) else ok tt

  unfoldable pub deserialize_and_ensure_length : List ℕ → Read ℕ
  deserialize_and_ensure_length buf = do
    (len, rest) ← get 8 buf
    if ltb usize_max len
        then err length_exceeds
        else do _ ← check_remaining len rest; ok (len, rest)

  unfoldable pub bool_of_byte : ℕ → Result Bool SerdeError
  bool_of_byte zero = ok false
  bool_of_byte (suc zero) = ok true
  bool_of_byte byte = err (invalid_byte byte)

  unfoldable pub deserialize_bool_from_byte : List ℕ → Read Bool
  deserialize_bool_from_byte buf = do (byte, rest) ← get 1 buf; v ← bool_of_byte byte; ok (v, rest)

  unfoldable pub deserialize_char : List ℕ → Read ℕ
  deserialize_char buf = do
    (codepoint, rest) ← get 4 buf
    if is_scalar_value codepoint then ok (codepoint, rest) else err (invalid_char codepoint)

  unfoldable pub deserialize_byte_buf : List ℕ → Read (List ℕ)
  deserialize_byte_buf buf = do
    (len, rest) ← deserialize_and_ensure_length buf
    ok (split_to len rest)

  unfoldable pub deserialize_str : List ℕ → Read (List ℕ)
  deserialize_str buf = do
    (text, rest) ← deserialize_byte_buf buf
    if from_utf8 text then ok (text, rest) else err invalid_utf8

  -- A visitor that takes elements until `next_element_seed` of `SeqOrMapAccess` gives none, which
  -- is when `remaining` is 0.
  unfoldable pub visit_seq : (List ℕ → Read Value) → ℕ → List ℕ → Read Values
  visit_seq seed zero buf = ok (Values.nil, buf)
  visit_seq seed (suc remaining) buf = do
    (v, rest) ← seed buf
    (vs, rest') ← visit_seq seed remaining rest
    ok (Values.cons v vs, rest')

  -- The same for `next_key_seed` and `next_value_seed`.
  unfoldable pub visit_map :
      (List ℕ → Read Value) → (List ℕ → Read Value) → ℕ → List ℕ → Read Entries
  visit_map key_seed value_seed zero buf = ok (Entries.empty, buf)
  visit_map key_seed value_seed (suc remaining) buf = do
    (k, rest) ← key_seed buf
    (v, rest') ← value_seed rest
    (es, rest'') ← visit_map key_seed value_seed remaining rest'
    ok (Entries.entry k v es, rest'')

  abbrev pub read_as {ℓ} : {A : Type ℓ} → (A → Value) → Result (A × List ℕ) SerdeError → Read Value
  read_as make (ok (a, rest)) = ok (make a, rest)
  read_as make (err e) = err e

  unfoldable mutual
    pub deserialize : Shape → List ℕ → Read Value
    deserialize Shape.bool buf =
        read_as Value.bool (map_err in_bool (deserialize_bool_from_byte buf))
    deserialize (Shape.scalar k) buf = read_as (Value.scalar k) (get (width k) buf)
    deserialize Shape.char buf = read_as Value.char (deserialize_char buf)
    deserialize Shape.str buf = read_as Value.str (deserialize_str buf)
    deserialize Shape.byte_buf buf = read_as Value.byte_buf (deserialize_byte_buf buf)
    deserialize (Shape.option s) buf = do
      (is_some, rest) ← map_err in_bool (deserialize_bool_from_byte buf)
      let present = read_as Value.present (deserialize s rest)
      if is_some then present else ok (Value.absent, rest)
    deserialize Shape.unit buf = ok (Value.unit, buf)
    deserialize (Shape.unit_struct name) buf = ok (Value.unit_struct name, buf)
    deserialize (Shape.newtype_struct name s) buf =
        read_as (Value.newtype_struct name) (map_err (in_type name) (deserialize s buf))
    deserialize (Shape.seq s) buf = do
      (len, rest) ← deserialize_and_ensure_length buf
      read_as (Value.seq (some len)) (visit_seq (λ b. deserialize s b) len rest)
    deserialize (Shape.tuple ss) buf = read_as Value.tuple (deserialize_shapes (λ e. e) ss buf)
    deserialize (Shape.tuple_struct name ss) buf =
        read_as (Value.tuple_struct name) (deserialize_shapes (in_type name) ss buf)
    deserialize (Shape.map k s) buf = do
      (len, rest) ← deserialize_and_ensure_length buf
      read_as (Value.map (some len))
          (visit_map (λ b. deserialize k b) (λ b. deserialize s b) len rest)
    deserialize (Shape.struct name fs) buf =
        read_as (Value.struct name) (deserialize_fields name fs buf)
    deserialize (Shape.enum name vs) buf = do
      (index, rest) ← get 4 buf
      deserialize_variant name index index vs rest
    deserialize Shape.any buf = err not_supported
    deserialize Shape.identifier buf = err not_supported
    deserialize Shape.ignored_any buf = err not_supported

    -- A visitor that asks for one element of each shape, with `map_err` on each.
    pub deserialize_shapes : (SerdeError → SerdeError) → Shapes → List ℕ → Read Values
    deserialize_shapes wrap Shapes.nil buf = ok (Values.nil, buf)
    deserialize_shapes wrap (Shapes.cons s ss) buf = do
      (v, rest) ← map_err wrap (deserialize s buf)
      (vs, rest') ← deserialize_shapes wrap ss rest
      ok (Values.cons v vs, rest')

    -- `NamedFieldsSeqAccess`.
    pub deserialize_fields : String → FieldShapes → List ℕ → Read Fields
    deserialize_fields name FieldShapes.done buf = ok (Fields.done, buf)
    deserialize_fields name (FieldShapes.field key s fs) buf = do
      (v, rest) ← map_err (in_field key name) (deserialize s buf)
      (vs, rest') ← deserialize_fields name fs rest
      ok (Fields.field key v vs, rest')

    -- `variants.get(index)`, with `position` still to go, and `visit_enum`.
    pub deserialize_variant : String → ℕ → ℕ → Variants → List ℕ → Read Value
    deserialize_variant name index position Variants.end buf = err (invalid_variant index name)
    deserialize_variant name index zero (Variants.variant key v vs) buf =
        deserialize_content name index key v buf
    deserialize_variant name index (suc position) (Variants.variant key v vs) buf =
        deserialize_variant name index position vs buf

    -- `VariantAccess`.
    pub deserialize_content : String → ℕ → String → Variant → List ℕ → Read Value
    deserialize_content name index key Variant.unit_variant buf =
        ok (Value.unit_variant name index key, buf)
    deserialize_content name index key (Variant.newtype_variant s) buf =
        read_as (Value.newtype_variant name index key)
          (map_err (in_variant name key) (deserialize s buf))
    deserialize_content name index key (Variant.tuple_variant ss) buf =
        read_as (Value.tuple_variant name index key)
          (map_err (in_variant name key) (deserialize_shapes (λ e. e) ss buf))
    deserialize_content name index key (Variant.struct_variant fs) buf =
        read_as (Value.struct_variant name index key) (deserialize_fields name fs buf)
