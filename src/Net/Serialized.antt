-- ===== src/Net/Serialized.antt =====
-- net/ser.rs: `serialize` and the encoding of a value.
use creo_bench.Prelude.{
  ℕ, ◌<◌, ◌≡◌, String, List, ◌++◌, append_assoc, append-nil, ok, length, lt→ltb, ap, ◌∙◌,
}
use creo_bench.Net.Bytes.{Buffer, to_be_bytes}
use creo_bench.Net.Value.{
  Value, Values, Entries, Fields, Shape, Shapes, FieldShapes, SerdeError, in_variant,
  in_variant_field,
}
use creo_bench.Net.Ser.{
  Written, serialize, serialize_elements, serialize_positions, serialize_entries, serialize_fields,
  serialize_bool, serialize_len, serialize_str, serialize_bytes, serialize_len_hint, u64_bound,
}
use creo_bench.Net.Encoding.{
  encode, encode_values, encode_entries, encode_fields, HasShape, HasElements, HasShapes,
  HasEntries, HasFields,
}

appended :
    {r : Written} (buf xs ys : List ℕ)
    → r ≡ (ok tt, (buf ++ xs) ++ ys)
    → r ≡ (ok tt, buf ++ (xs ++ ys))
appended buf xs ys p = rw append_assoc at p

module _ (bytes : Buffer) where
  serialize_len_lem :
      (n : ℕ) (buf : List ℕ)
      → n < u64_bound
      → serialize_len bytes n buf ≡ (ok tt, buf ++ to_be_bytes 8 n)
  unfolding serialize_len
  serialize_len_lem n buf h = rw (lt→ltb _ _ h, bytes.put_uint_lem)

  serialize_str_lem :
      (v buf : List ℕ)
      → length v < u64_bound
      → serialize_str bytes v buf ≡ (ok tt, buf ++ (to_be_bytes 8 (length v) ++ v))
  unfolding serialize_str
  serialize_str_lem v buf h =
      rw (serialize_len_lem (length v) buf h, bytes.put_slice_lem, append_assoc)

  serialize_bytes_lem :
      (v buf : List ℕ)
      → length v < u64_bound
      → serialize_bytes bytes v buf ≡ (ok tt, buf ++ (to_be_bytes 8 (length v) ++ v))
  unfolding serialize_bytes
  serialize_bytes_lem v buf h =
      rw (serialize_len_lem (length v) buf h, bytes.put_slice_lem, append_assoc)

  mutual
    unfolding serialize encode serialize_bool serialize_len_hint

    value_lem :
        {v : Value} {s : Shape}
        → HasShape v s
        → (buf : List ℕ) → serialize bytes v buf ≡ (ok tt, buf ++ encode v)
    value_lem (HasShape.bool v) buf = rw bytes.put_uint_lem
    value_lem (HasShape.scalar k v h) buf = rw bytes.put_uint_lem
    value_lem (HasShape.char v h) buf = rw bytes.put_uint_lem
    value_lem (HasShape.str v h u) buf = serialize_str_lem v buf h
    value_lem (HasShape.byte_buf v h) buf = serialize_bytes_lem v buf h
    value_lem (HasShape.absent s) buf = rw bytes.put_uint_lem
    value_lem (HasShape.present d) buf =
        rw (bytes.put_uint_lem, value_lem d (buf ++ to_be_bytes 1 1), append_assoc)
    value_lem HasShape.unit buf = rw append-nil
    value_lem (HasShape.unit_struct name) buf = rw append-nil
    value_lem (HasShape.newtype_struct name d) buf = rw (value_lem d buf)
    value_lem (HasShape.seq {n = n} d h m) buf = rw (
      serialize_len_lem n buf h,
      serialize_elements-encode d (buf ++ to_be_bytes 8 n),
      append_assoc,
    )
    value_lem (HasShape.tuple d) buf = serialize_shapes-encode d buf
    value_lem (HasShape.tuple_struct name d) buf = serialize_positions-encode d _ buf
    value_lem (HasShape.map {n = n} d h m) buf = rw (
      serialize_len_lem n buf h,
      serialize_entries-encode d (buf ++ to_be_bytes 8 n),
      append_assoc,
    )
    value_lem (HasShape.struct name d) buf = serialize_fields-encode d _ buf
    value_lem (HasShape.unit_variant name h e) buf = rw bytes.put_uint_lem
    value_lem (HasShape.newtype_variant name {index = i} h e d) buf =
        rw (bytes.put_uint_lem, value_lem d (buf ++ to_be_bytes 4 i), append_assoc)
    value_lem (HasShape.tuple_variant name {index = i} {key = key} {us = us} h e d) buf =
        ap (serialize_positions bytes (in_variant name key) us) (bytes.put_uint_lem 4 i buf)
        ∙ appended buf (to_be_bytes 4 i) (encode_values us)
            (serialize_positions-encode d _ (buf ++ to_be_bytes 4 i))
    value_lem (HasShape.struct_variant name {index = i} {key = key} {fs = fs} h e d) buf =
        ap (serialize_fields bytes (λ f. in_variant_field f name key) fs)
          (bytes.put_uint_lem 4 i buf)
        ∙ appended buf (to_be_bytes 4 i) (encode_fields fs)
            (serialize_fields-encode d _ (buf ++ to_be_bytes 4 i))

    serialize_elements-encode :
        {n : ℕ} {vs : Values} {s : Shape}
        → HasElements n vs s
        → (buf : List ℕ) → serialize_elements bytes vs buf ≡ (ok tt, buf ++ encode_values vs)
    serialize_elements-encode (HasElements.no_elements s) buf = rw append-nil
    serialize_elements-encode (HasElements.an_element {v = v} d ds) buf =
        rw (value_lem d buf, serialize_elements-encode ds (buf ++ encode v), append_assoc)

    serialize_shapes-encode :
        {vs : Values} {ss : Shapes}
        → HasShapes vs ss
        → (buf : List ℕ) → serialize_elements bytes vs buf ≡ (ok tt, buf ++ encode_values vs)
    serialize_shapes-encode HasShapes.no_shapes buf = rw append-nil
    serialize_shapes-encode (HasShapes.a_shape {v = v} d ds) buf =
        rw (value_lem d buf, serialize_shapes-encode ds (buf ++ encode v), append_assoc)

    serialize_positions-encode :
        {vs : Values} {ss : Shapes}
        → HasShapes vs ss
        → (wrap : SerdeError → SerdeError) (buf : List ℕ)
        → serialize_positions bytes wrap vs buf ≡ (ok tt, buf ++ encode_values vs)
    serialize_positions-encode HasShapes.no_shapes wrap buf = rw append-nil
    serialize_positions-encode (HasShapes.a_shape {v = v} d ds) wrap buf =
        rw (value_lem d buf, serialize_positions-encode ds wrap (buf ++ encode v), append_assoc)

    serialize_entries-encode :
        {n : ℕ} {es : Entries} {k s : Shape}
        → HasEntries n es k s
        → (buf : List ℕ) → serialize_entries bytes es buf ≡ (ok tt, buf ++ encode_entries es)
    serialize_entries-encode (HasEntries.no_entries k s) buf = rw append-nil
    serialize_entries-encode (HasEntries.an_entry {u = u} {v = v} {es = es} d d' ds) buf = rw (
      value_lem d buf,
      value_lem d' (buf ++ encode u),
      serialize_entries-encode ds ((buf ++ encode u) ++ encode v),
      append_assoc (buf ++ encode u) (encode v) (encode_entries es),
      append_assoc buf (encode u) (encode v ++ encode_entries es),
    )

    serialize_fields-encode :
        {fs : Fields} {ss : FieldShapes}
        → HasFields fs ss
        → (wrap : String → SerdeError → SerdeError) (buf : List ℕ)
        → serialize_fields bytes wrap fs buf ≡ (ok tt, buf ++ encode_fields fs)
    serialize_fields-encode HasFields.no_fields wrap buf = rw append-nil
    serialize_fields-encode (HasFields.a_field key {v = v} d ds) wrap buf =
        rw (value_lem d buf, serialize_fields-encode ds wrap (buf ++ encode v), append_assoc)

  -- For a value that has some shape, with a known length and at least as many bytes as elements in
  -- every sequence and map in it: the serializer succeeds, and appends to the buffer the encoding
  -- of the value, as the specification of the format gives it.
  pub serialize-encode :
      {v : Value} {s : Shape}
      → HasShape v s
      → (buf : List ℕ) → serialize bytes v buf ≡ (ok tt, buf ++ encode v)
  serialize-encode d buf = value_lem d buf
