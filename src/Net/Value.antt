-- ===== src/Net/Value.antt =====
-- The data model of serde: the calls that a type's `Serialize` makes of `BytesSerializer`
-- (`Value`), and the calls that its `Deserialize` makes of `BytesDeserializer` (`Shape`).
use creo_bench.Prelude.{ℕ, String, Bool, Option, List}

-- The fixed-width numbers. A signed or floating value is given by its bit pattern.
pub data Scalar : Type 0 where
  i8 i16 i32 i64 u8 u16 u32 u64 f32 f64 : Scalar

-- The number of bytes that `put_i8` … `put_f64` write.
unfoldable pub width : Scalar → ℕ
width Scalar.i8 = 1
width Scalar.i16 = 2
width Scalar.i32 = 4
width Scalar.i64 = 8
width Scalar.u8 = 1
width Scalar.u16 = 2
width Scalar.u32 = 4
width Scalar.u64 = 8
width Scalar.f32 = 4
width Scalar.f64 = 8

-- A value, named by the `serialize_…` method that it is written with. Texts are their UTF-8
-- bytes. `seq` and `map` carry the length hint that the caller gives.
mutual
  pub data Value : Type 0 where
    bool : Bool → Value
    scalar : Scalar → ℕ → Value
    char : ℕ → Value
    str : List ℕ → Value
    byte_buf : List ℕ → Value
    absent : Value
    present : Value → Value
    unit : Value
    unit_struct : String → Value
    newtype_struct : String → Value → Value
    seq : Option ℕ → Values → Value
    tuple : Values → Value
    tuple_struct : String → Values → Value
    map : Option ℕ → Entries → Value
    struct : String → Fields → Value
    unit_variant : String → ℕ → String → Value
    newtype_variant : String → ℕ → String → Value → Value
    tuple_variant : String → ℕ → String → Values → Value
    struct_variant : String → ℕ → String → Fields → Value

  pub data Values : Type 0 where
    nil : Values
    cons : Value → Values → Values

  pub data Entries : Type 0 where
    empty : Entries
    entry : Value → Value → Entries → Entries

  pub data Fields : Type 0 where
    done : Fields
    field : String → Value → Fields → Fields

-- What is asked of the deserializer.
mutual
  pub data Shape : Type 0 where
    bool : Shape
    scalar : Scalar → Shape
    char : Shape
    str : Shape
    byte_buf : Shape
    option : Shape → Shape
    unit : Shape
    unit_struct : String → Shape
    newtype_struct : String → Shape → Shape
    seq : Shape → Shape
    tuple : Shapes → Shape
    tuple_struct : String → Shapes → Shape
    map : Shape → Shape → Shape
    struct : String → FieldShapes → Shape
    enum : String → Variants → Shape
    any : Shape
    identifier : Shape
    ignored_any : Shape

  pub data Shapes : Type 0 where
    nil : Shapes
    cons : Shape → Shapes → Shapes

  pub data FieldShapes : Type 0 where
    done : FieldShapes
    field : String → Shape → FieldShapes → FieldShapes

  pub data Variant : Type 0 where
    unit_variant : Variant
    newtype_variant : Shape → Variant
    tuple_variant : Shapes → Variant
    struct_variant : FieldShapes → Variant

  pub data Variants : Type 0 where
    end : Variants
    variant : String → Variant → Variants → Variants

-- `SerdeError`, with the place of its message where it is made; the last five constructors are the
-- messages that wrap another.
pub data SerdeError : Type 0 where
  unknown_length : SerdeError
  length_overflow : SerdeError
  unexpected_end : ℕ → ℕ → SerdeError
  length_exceeds : SerdeError
  invalid_byte : ℕ → SerdeError
  invalid_char : ℕ → SerdeError
  invalid_utf8 : SerdeError
  invalid_variant : ℕ → String → SerdeError
  not_supported : SerdeError
  in_bool : SerdeError → SerdeError
  in_type : String → SerdeError → SerdeError
  in_field : String → String → SerdeError → SerdeError
  in_variant : String → String → SerdeError → SerdeError
  in_variant_field : String → String → String → SerdeError → SerdeError
