-- ===== src/Net/Deserialized.antt =====
-- net/de.rs: `deserialize` on the encoding of a value.
use creo_bench.Prelude.{
  ℕ, zero, suc, ◌^◌, ◌≤◌, ◌<◌, ◌≡◌, refl, String, true, false, some, List, ◌++◌, append_assoc,
  arith, ok, length, length-append, not-ltb, ◌∙◌,
}
use creo_bench.Net.Bytes.{Buffer, to_be_bytes, try_get_uint-to_be_bytes}
use creo_bench.Net.Utf8.{from_utf8}
use creo_bench.Net.Value.{
  Value, Values, Entries, Fields, Shape, Shapes, FieldShapes, Variant, Variants, SerdeError,
}
use creo_bench.Net.Ser.{u64_bound}
use creo_bench.Net.De.{
  Read, usize_max, is_scalar_value, get, check_remaining, deserialize_and_ensure_length,
  bool_of_byte, deserialize_bool_from_byte, deserialize_char, deserialize_byte_buf, deserialize_str,
  visit_seq, visit_map, deserialize, deserialize_shapes, deserialize_fields, deserialize_variant,
  deserialize_content,
}
use creo_bench.Net.Encoding.{
  encode, encode_values, encode_entries, encode_fields, variant_at, HasShape, HasElements,
  HasShapes, HasEntries, HasFields,
}

module _ (bytes : Buffer) where
  pub get_lem :
      (w n : ℕ) (rest : List ℕ) → n < 256 ^ w → get bytes w (to_be_bytes w n ++ rest) ≡ ok (n, rest)
  unfolding get
  get_lem w n rest h = rw (try_get_uint-to_be_bytes bytes w n rest h)

  ensure_length_lem :
      (n : ℕ) (rest : List ℕ)
      → n < u64_bound
      → n ≤ length rest
      → deserialize_and_ensure_length bytes (to_be_bytes 8 n ++ rest) ≡ ok (n, rest)
  unfolding deserialize_and_ensure_length check_remaining
  ensure_length_lem n rest h m =
      rw (
        get_lem 8 n rest (omega arith),
        not-ltb usize_max n (omega arith),
        not-ltb (length rest) n m,
      )

  false_byte :
      (rest : List ℕ)
      → deserialize_bool_from_byte bytes (to_be_bytes 1 0 ++ rest) ≡ ok (false, rest)
  unfolding deserialize_bool_from_byte bool_of_byte
  false_byte rest = rw (get_lem 1 0 rest (omega arith))

  true_byte :
      (rest : List ℕ) → deserialize_bool_from_byte bytes (to_be_bytes 1 1 ++ rest) ≡ ok (true, rest)
  unfolding deserialize_bool_from_byte bool_of_byte
  true_byte rest = rw (get_lem 1 1 rest (omega arith))

  char_lem :
      (v : ℕ) (rest : List ℕ)
      → is_scalar_value v ≡ true
      → deserialize_char bytes (to_be_bytes 4 v ++ rest) ≡ ok (v, rest)
  unfolding deserialize_char
  char_lem v rest h = rw (get_lem 4 v rest (unfold is_scalar_value in ground arith), h)

  byte_buf_lem :
      (v rest : List ℕ)
      → length v < u64_bound
      → deserialize_byte_buf bytes ((to_be_bytes 8 (length v) ++ v) ++ rest) ≡ ok (v, rest)
  unfolding deserialize_byte_buf
  byte_buf_lem v rest h = rw (
    append_assoc (to_be_bytes 8 (length v)) v rest,
    ensure_length_lem (length v) (v ++ rest) h (omega (arith, length-append v rest)),
    bytes.split_to_lem (length v) v rest refl,
  )

  str_lem :
      (v rest : List ℕ)
      → length v < u64_bound
      → from_utf8 v ≡ true
      → deserialize_str bytes ((to_be_bytes 8 (length v) ++ v) ++ rest) ≡ ok (v, rest)
  unfolding deserialize_str
  str_lem v rest h u = rw (byte_buf_lem v rest h, u)

  -- The name of a variant is found at its index.
  variant_lem :
      (name : String) (index position : ℕ) (vs : Variants) {key : String} {v : Variant}
      (buf : List ℕ)
      → variant_at vs position ≡ some (key, v)
      → deserialize_variant bytes name index position vs buf
        ≡ deserialize_content bytes name index key v buf
  unfolding variant_at deserialize
  variant_lem name index position Variants.end buf e = cc
  variant_lem name index zero (Variants.variant key v vs) buf e = ground arith
  variant_lem name index (suc position) (Variants.variant key v vs) buf e =
      variant_lem name index position vs buf e

  visit_seq_zero :
      (seed : List ℕ → Read Value) (buf : List ℕ)
      → visit_seq bytes seed 0 buf ≡ ok (Values.nil, buf)
  unfolding visit_seq
  visit_seq_zero seed buf = refl

  visit_map_zero :
      (key_seed value_seed : List ℕ → Read Value) (buf : List ℕ)
      → visit_map bytes key_seed value_seed 0 buf ≡ ok (Entries.empty, buf)
  unfolding visit_map
  visit_map_zero key_seed value_seed buf = refl

  visit_seq_step :
      (seed : List ℕ → Read Value) (n : ℕ) (buf : List ℕ) {v : Value} {vs : Values}
      {rest rest' : List ℕ}
      → seed buf ≡ ok (v, rest)
      → visit_seq bytes seed n rest ≡ ok (vs, rest')
      → visit_seq bytes seed (suc n) buf ≡ ok (Values.cons v vs, rest')
  unfolding visit_seq
  visit_seq_step seed n buf p q = rw (p, q)

  visit_map_step :
      (key_seed value_seed : List ℕ → Read Value) (n : ℕ) (buf : List ℕ) {u v : Value}
      {es : Entries} {rest rest' rest'' : List ℕ}
      → key_seed buf ≡ ok (u, rest)
      → value_seed rest ≡ ok (v, rest')
      → visit_map bytes key_seed value_seed n rest' ≡ ok (es, rest'')
      → visit_map bytes key_seed value_seed (suc n) buf ≡ ok (Entries.entry u v es, rest'')
  unfolding visit_map
  visit_map_step key_seed value_seed n buf p q r = rw (p, q, r)

  mutual
    unfolding deserialize encode

    value_lem :
        {v : Value} {s : Shape}
        → HasShape v s
        → (rest : List ℕ) → deserialize bytes s (encode v ++ rest) ≡ ok (v, rest)
    value_lem (HasShape.bool true) rest = rw (true_byte rest)
    value_lem (HasShape.bool false) rest = rw (false_byte rest)
    value_lem (HasShape.scalar k v h) rest = rw (get_lem _ v rest h)
    value_lem (HasShape.char v h) rest = rw (char_lem v rest h)
    value_lem (HasShape.str v h u) rest = rw (str_lem v rest h u)
    value_lem (HasShape.byte_buf v h) rest = rw (byte_buf_lem v rest h)
    value_lem (HasShape.absent s) rest = rw (false_byte rest)
    value_lem (HasShape.present {v = v} d) rest =
        rw (append_assoc (to_be_bytes 1 1) (encode v) rest, true_byte, value_lem d rest)
    value_lem HasShape.unit rest = refl
    value_lem (HasShape.unit_struct name) rest = refl
    value_lem (HasShape.newtype_struct name d) rest = rw (value_lem d rest)
    value_lem (HasShape.seq {n = n} {vs = vs} d h m) rest = rw (
      append_assoc (to_be_bytes 8 n) (encode_values vs) rest,
      ensure_length_lem n (encode_values vs ++ rest) h
          (omega (arith, length-append (encode_values vs) rest)),
      visit_seq-encode d rest,
    )
    value_lem (HasShape.tuple d) rest = rw (deserialize_shapes-encode d _ rest)
    value_lem (HasShape.tuple_struct name d) rest = rw (deserialize_shapes-encode d _ rest)
    value_lem (HasShape.map {n = n} {es = es} d h m) rest = rw (
      append_assoc (to_be_bytes 8 n) (encode_entries es) rest,
      ensure_length_lem n (encode_entries es ++ rest) h
          (omega (arith, length-append (encode_entries es) rest)),
      visit_map-encode d rest,
    )
    value_lem (HasShape.struct name d) rest = rw (deserialize_fields-encode d name rest)
    value_lem (HasShape.unit_variant name {index = i} {vs = vs} h e) rest =
        rw (get_lem 4 i rest h) (variant_lem name i i vs rest e)
    value_lem (HasShape.newtype_variant name {index = i} {vs = vs} {v = v} h e d) rest =
        rw (append_assoc (to_be_bytes 4 i) (encode v) rest, get_lem 4 i _ h)
          (variant_lem name i i vs (encode v ++ rest) e ∙ rw (value_lem d rest))
    value_lem (HasShape.tuple_variant name {index = i} {vs = vs} {us = us} h e d) rest =
        rw (append_assoc (to_be_bytes 4 i) (encode_values us) rest, get_lem 4 i _ h)
          (variant_lem name i i vs (encode_values us ++ rest) e
            ∙ rw (deserialize_shapes-encode d _ rest))
    value_lem (HasShape.struct_variant name {index = i} {vs = vs} {fs = fs} h e d) rest =
        rw (append_assoc (to_be_bytes 4 i) (encode_fields fs) rest, get_lem 4 i _ h)
          (variant_lem name i i vs (encode_fields fs ++ rest) e
            ∙ rw (deserialize_fields-encode d name rest))

    visit_seq-encode :
        {n : ℕ} {vs : Values} {s : Shape}
        → HasElements n vs s
        → (rest : List ℕ)
        → visit_seq bytes (λ b. deserialize bytes s b) n (encode_values vs ++ rest) ≡ ok (vs, rest)
    visit_seq-encode (HasElements.no_elements s) rest = visit_seq_zero _ rest
    visit_seq-encode (HasElements.an_element {n = n} {v = v} {vs = vs} d ds) rest =
        rw (append_assoc (encode v) (encode_values vs) rest)
          (visit_seq_step _ n _ (value_lem d (encode_values vs ++ rest)) (visit_seq-encode ds rest))

    deserialize_shapes-encode :
        {vs : Values} {ss : Shapes}
        → HasShapes vs ss
        → (wrap : SerdeError → SerdeError) (rest : List ℕ)
        → deserialize_shapes bytes wrap ss (encode_values vs ++ rest) ≡ ok (vs, rest)
    deserialize_shapes-encode HasShapes.no_shapes wrap rest = refl
    deserialize_shapes-encode (HasShapes.a_shape {v = v} {vs = vs} d ds) wrap rest = rw (
      append_assoc (encode v) (encode_values vs) rest,
      value_lem d (encode_values vs ++ rest),
      deserialize_shapes-encode ds wrap rest,
    )

    visit_map-encode :
        {n : ℕ} {es : Entries} {k s : Shape}
        → HasEntries n es k s
        → (rest : List ℕ)
        → visit_map bytes
            (λ b. deserialize bytes k b)
            (λ b. deserialize bytes s b)
            n
            (encode_entries es ++ rest)
          ≡ ok (es, rest)
    visit_map-encode (HasEntries.no_entries k s) rest = visit_map_zero _ _ rest
    visit_map-encode (HasEntries.an_entry {n = n} {u = u} {v = v} {es = es} d d' ds) rest =
        rw
          (
            append_assoc (encode u) (encode v ++ encode_entries es) rest,
            append_assoc (encode v) (encode_entries es) rest,
          )
          (visit_map_step _ _ n _ (value_lem d (encode v ++ (encode_entries es ++ rest)))
            (value_lem d' (encode_entries es ++ rest)) (visit_map-encode ds rest))

    deserialize_fields-encode :
        {fs : Fields} {ss : FieldShapes}
        → HasFields fs ss
        → (name : String) (rest : List ℕ)
        → deserialize_fields bytes name ss (encode_fields fs ++ rest) ≡ ok (fs, rest)
    deserialize_fields-encode HasFields.no_fields name rest = refl
    deserialize_fields-encode (HasFields.a_field key {v = v} {fs = fs} d ds) name rest = rw (
      append_assoc (encode v) (encode_fields fs) rest,
      value_lem d (encode_fields fs ++ rest),
      deserialize_fields-encode ds name rest,
    )

  -- For a value of the shape that is asked for, with a known length and at least as many bytes as
  -- elements in every sequence and map in it, which rules out sequences of one or more units: the
  -- deserializer, on bytes that begin with the encoding of the value, returns the value and leaves
  -- the bytes behind it.
  pub deserialize-encode :
      {v : Value} {s : Shape}
      → HasShape v s
      → (rest : List ℕ) → deserialize bytes s (encode v ++ rest) ≡ ok (v, rest)
  deserialize-encode d rest = value_lem d rest
