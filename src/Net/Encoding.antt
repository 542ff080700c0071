-- ===== src/Net/Encoding.antt =====
-- The wire format as a specification: the bytes of a value, and which values have which shape.
use creo_bench.Prelude.{
  ℕ, zero, suc, ◌^◌, ◌≤◌, ◌<◌, ◌≡◌, String, Bool, true, Option, none, some, List, [], ◌++◌, length,
  if◌then◌else◌,
}
use creo_bench.Net.Bytes.{to_be_bytes}
use creo_bench.Net.Utf8.{from_utf8}
use creo_bench.Net.Value.{
  Value, Values, Entries, Fields, Shape, Shapes, FieldShapes, Variant, Variants, Scalar, width,
}
use creo_bench.Net.Ser.{u64_bound}
use creo_bench.Net.De.{is_scalar_value}

abbrev pub len_bytes : Option ℕ → List ℕ
len_bytes none = []
len_bytes (some n) = to_be_bytes 8 n

unfoldable mutual
  pub encode : Value → List ℕ
  encode (Value.bool v) = to_be_bytes 1 (if v then 1 else 0)
  encode (Value.scalar k v) = to_be_bytes (width k) v
  encode (Value.char v) = to_be_bytes 4 v
  encode (Value.str v) = to_be_bytes 8 (length v) ++ v
  encode (Value.byte_buf v) = to_be_bytes 8 (length v) ++ v
  encode Value.absent = to_be_bytes 1 0
  encode (Value.present v) = to_be_bytes 1 1 ++ encode v
  encode Value.unit = []
  encode (Value.unit_struct name) = []
  encode (Value.newtype_struct name v) = encode v
  encode (Value.seq len vs) = len_bytes len ++ encode_values vs
  encode (Value.tuple vs) = encode_values vs
  encode (Value.tuple_struct name vs) = encode_values vs
  encode (Value.map len es) = len_bytes len ++ encode_entries es
  encode (Value.struct name fs) = encode_fields fs
  encode (Value.unit_variant name index variant) = to_be_bytes 4 index
  encode (Value.newtype_variant name index variant v) = to_be_bytes 4 index ++ encode v
  encode (Value.tuple_variant name index variant vs) = to_be_bytes 4 index ++ encode_values vs
  encode (Value.struct_variant name index variant fs) = to_be_bytes 4 index ++ encode_fields fs

  pub encode_values : Values → List ℕ
  encode_values Values.nil = []
  encode_values (Values.cons v vs) = encode v ++ encode_values vs

  pub encode_entries : Entries → List ℕ
  encode_entries Entries.empty = []
  encode_entries (Entries.entry k v es) = encode k ++ (encode v ++ encode_entries es)

  pub encode_fields : Fields → List ℕ
  encode_fields Fields.done = []
  encode_fields (Fields.field key v fs) = encode v ++ encode_fields fs

unfoldable pub variant_at : Variants → ℕ → Option (String × Variant)
variant_at Variants.end i = none
variant_at (Variants.variant key v vs) zero = some (key, v)
variant_at (Variants.variant key v vs) (suc i) = variant_at vs i

-- The calls of a `Serialize` match those of a `Deserialize`: numbers are in the range of their
-- type, texts are UTF-8, and the hint of a sequence is its length. `deserialize_seq` and
-- `deserialize_map` want as many bytes as there are elements, so that every sequence and map, also
-- one inside the value, has elements of at least as many bytes as there are elements: a sequence of
-- one or more units has no shape in this sense.
mutual
  pub data HasShape : Value → Shape → Type 0 where
    bool : (v : Bool) → HasShape (Value.bool v) Shape.bool
    scalar : (k : Scalar) (v : ℕ) → v < 256 ^ width k → HasShape (Value.scalar k v) (Shape.scalar k)
    char : (v : ℕ) → is_scalar_value v ≡ true → HasShape (Value.char v) Shape.char
    str :
        (v : List ℕ) → length v < u64_bound → from_utf8 v ≡ true → HasShape (Value.str v) Shape.str
    byte_buf : (v : List ℕ) → length v < u64_bound → HasShape (Value.byte_buf v) Shape.byte_buf
    absent : (s : Shape) → HasShape Value.absent (Shape.option s)
    present : {v : Value} {s : Shape} → HasShape v s → HasShape (Value.present v) (Shape.option s)
    unit : HasShape Value.unit Shape.unit
    unit_struct : (name : String) → HasShape (Value.unit_struct name) (Shape.unit_struct name)
    newtype_struct :
        (name : String) {v : Value} {s : Shape}
        → HasShape v s
        → HasShape (Value.newtype_struct name v) (Shape.newtype_struct name s)
    seq :
        {n : ℕ} {vs : Values} {s : Shape}
        → HasElements n vs s
        → n < u64_bound
        → n ≤ length (encode_values vs)
        → HasShape (Value.seq (some n) vs) (Shape.seq s)
    tuple :
        {vs : Values} {ss : Shapes} → HasShapes vs ss → HasShape (Value.tuple vs) (Shape.tuple ss)
    tuple_struct :
        (name : String) {vs : Values} {ss : Shapes}
        → HasShapes vs ss
        → HasShape (Value.tuple_struct name vs) (Shape.tuple_struct name ss)
    map :
        {n : ℕ} {es : Entries} {k s : Shape}
        → HasEntries n es k s
        → n < u64_bound
        → n ≤ length (encode_entries es)
        → HasShape (Value.map (some n) es) (Shape.map k s)
    struct :
        (name : String) {fs : Fields} {ss : FieldShapes}
        → HasFields fs ss
        → HasShape (Value.struct name fs) (Shape.struct name ss)
    unit_variant :
        (name : String) {index : ℕ} {key : String} {vs : Variants}
        → index < 256 ^ 4
        → variant_at vs index ≡ some (key, Variant.unit_variant)
        → HasShape (Value.unit_variant name index key) (Shape.enum name vs)
    newtype_variant :
        (name : String) {index : ℕ} {key : String} {vs : Variants} {v : Value} {s : Shape}
        → index < 256 ^ 4
        → variant_at vs index ≡ some (key, Variant.newtype_variant s)
        → HasShape v s
        → HasShape (Value.newtype_variant name index key v) (Shape.enum name vs)
    tuple_variant :
        (name : String) {index : ℕ} {key : String} {vs : Variants} {us : Values} {ss : Shapes}
        → index < 256 ^ 4
        → variant_at vs index ≡ some (key, Variant.tuple_variant ss)
        → HasShapes us ss
        → HasShape (Value.tuple_variant name index key us) (Shape.enum name vs)
    struct_variant :
        (name : String) {index : ℕ} {key : String} {vs : Variants} {fs : Fields} {ss : FieldShapes}
        → index < 256 ^ 4
        → variant_at vs index ≡ some (key, Variant.struct_variant ss)
        → HasFields fs ss
        → HasShape (Value.struct_variant name index key fs) (Shape.enum name vs)

  pub data HasElements : ℕ → Values → Shape → Type 0 where
    no_elements : (s : Shape) → HasElements zero Values.nil s
    an_element :
        {n : ℕ} {v : Value} {vs : Values} {s : Shape}
        → HasShape v s
        → HasElements n vs s
        → HasElements (suc n) (Values.cons v vs) s

  pub data HasShapes : Values → Shapes → Type 0 where
    no_shapes : HasShapes Values.nil Shapes.nil
    a_shape :
        {v : Value} {vs : Values} {s : Shape} {ss : Shapes}
        → HasShape v s
        → HasShapes vs ss
        → HasShapes (Values.cons v vs) (Shapes.cons s ss)

  pub data HasEntries : ℕ → Entries → Shape → Shape → Type 0 where
    no_entries : (k s : Shape) → HasEntries zero Entries.empty k s
    an_entry :
        {n : ℕ} {u v : Value} {es : Entries} {k s : Shape}
        → HasShape u k
        → HasShape v s
        → HasEntries n es k s
        → HasEntries (suc n) (Entries.entry u v es) k s

  pub data HasFields : Fields → FieldShapes → Type 0 where
    no_fields : HasFields Fields.done FieldShapes.done
    a_field :
        (key : String) {v : Value} {s : Shape} {fs : Fields} {ss : FieldShapes}
        → HasShape v s
        → HasFields fs ss
        → HasFields (Fields.field key v fs) (FieldShapes.field key s ss)
