-- ===== src/Net/Ser.antt =====
-- net/ser.rs: `BytesSerializer`. An error leaves in the buffer what was written before it.
use creo_bench.Prelude.{
  ℕ, ◌^◌, String, Bool, Option, none, some, List, Result, ok, err, length, ltb, if◌then◌else◌,
}
use creo_bench.Net.Bytes.{Buffer}
use creo_bench.Net.Value.{
  Value, Values, Entries, Fields, width, nil, cons, empty, entry, done, field, SerdeError,
  unknown_length, length_overflow, in_type, in_field, in_variant, in_variant_field,
}

-- The result of a method, and the buffer after it.
abbrev pub Written : Type 0
Written = Result (Unit {0}) SerdeError × List ℕ

-- `?`: go on with what was written, or stop at the error.
infixl 5 ◌andthen◌
abbrev pub ◌andthen◌ : Written → (List ℕ → Written) → Written
(ok _, buf) andthen k = k buf
(err e, buf) andthen k = (err e, buf)

-- `map_err`.
abbrev pub wrapping : (SerdeError → SerdeError) → Written → Written
wrapping f (ok u, buf) = (ok u, buf)
wrapping f (err e, buf) = (err (f e), buf)

-- One past `u64::MAX`.
abbrev pub u64_bound : ℕ
u64_bound = 2 ^ 64

module _ (bytes : Buffer) where
  open bytes use {put_uint, put_slice}

  abbrev pub put : ℕ → ℕ → List ℕ → Written
  put w n buf = (ok tt, put_uint w n buf)

  unfoldable pub serialize_bool : Bool → List ℕ → Written
  serialize_bool v buf = put 1 (if v then 1 else 0) buf

  -- `u64::try_from(len)`.
  unfoldable pub serialize_len : ℕ → List ℕ → Written
  serialize_len n buf = if ltb n u64_bound then put 8 n buf else (err length_overflow, buf)

  unfoldable pub serialize_str : List ℕ → List ℕ → Written
  serialize_str v buf = serialize_len (length v) buf andthen λ b. (ok tt, put_slice v b)

  unfoldable pub serialize_bytes : List ℕ → List ℕ → Written
  serialize_bytes v buf = serialize_len (length v) buf andthen λ b. (ok tt, put_slice v b)

  unfoldable pub serialize_len_hint : Option ℕ → List ℕ → Written
  serialize_len_hint none buf = (err unknown_length, buf)
  serialize_len_hint (some n) buf = serialize_len n buf

  unfoldable mutual
    pub serialize : Value → List ℕ → Written
    serialize (Value.bool v) buf = serialize_bool v buf
    serialize (Value.scalar k v) buf = put (width k) v buf
    serialize (Value.char v) buf = put 4 v buf
    serialize (Value.str v) buf = serialize_str v buf
    serialize (Value.byte_buf v) buf = serialize_bytes v buf
    serialize Value.absent buf = put 1 0 buf
    serialize (Value.present v) buf = serialize v (put_uint 1 1 buf)
    serialize Value.unit buf = (ok tt, buf)
    serialize (Value.unit_struct name) buf = (ok tt, buf)
    serialize (Value.newtype_struct name v) buf = wrapping (in_type name) (serialize v buf)
    serialize (Value.seq len vs) buf =
        serialize_len_hint len buf andthen λ b. serialize_elements vs b
    serialize (Value.tuple vs) buf = serialize_elements vs buf
    serialize (Value.tuple_struct name vs) buf = serialize_positions (in_type name) vs buf
    serialize (Value.map len es) buf =
        serialize_len_hint len buf andthen λ b. serialize_entries es b
    serialize (Value.struct name fs) buf = serialize_fields (λ key. in_field key name) fs buf
    serialize (Value.unit_variant name index variant) buf = put 4 index buf
    serialize (Value.newtype_variant name index variant v) buf =
        wrapping (in_variant name variant) (serialize v (put_uint 4 index buf))
    serialize (Value.tuple_variant name index variant vs) buf =
        serialize_positions (in_variant name variant) vs (put_uint 4 index buf)
    serialize (Value.struct_variant name index variant fs) buf =
        serialize_fields (λ key. in_variant_field key name variant) fs (put_uint 4 index buf)

    -- `serialize_element` for each element.
    pub serialize_elements : Values → List ℕ → Written
    serialize_elements nil buf = (ok tt, buf)
    serialize_elements (cons v vs) buf = serialize v buf andthen λ b. serialize_elements vs b

    -- `serialize_field` of a tuple struct or of a tuple variant, for each field.
    pub serialize_positions : (SerdeError → SerdeError) → Values → List ℕ → Written
    serialize_positions wrap nil buf = (ok tt, buf)
    serialize_positions wrap (cons v vs) buf =
        wrapping wrap (serialize v buf) andthen λ b. serialize_positions wrap vs b

    -- `serialize_key` and `serialize_value` for each entry.
    pub serialize_entries : Entries → List ℕ → Written
    serialize_entries empty buf = (ok tt, buf)
    serialize_entries (entry k v es) buf =
        serialize k buf andthen λ b. serialize v b andthen λ b'. serialize_entries es b'

    -- `serialize_field` of a struct or of a struct variant, for each field.
    pub serialize_fields : (String → SerdeError → SerdeError) → Fields → List ℕ → Written
    serialize_fields wrap done buf = (ok tt, buf)
    serialize_fields wrap (field key v fs) buf =
        wrapping (wrap key) (serialize v buf) andthen λ b. serialize_fields wrap fs b
