-- ===== src/Format/Fields.antt =====
-- Field types, values and descriptors as bytes, and the parsers on them.
use hprof_slurp.Prelude.{
  ℕ, ◌*◌, ◌<◌, ◌≡◌, ◌⊎◌, inl, inr, true, false, Option, some, [], ◌∷◌, ◌++◌, length, ℤ, pos, subst,
  arith,
}
use hprof_slurp.Nom.{Nom, NomLaws, Bytes, Parser}
use hprof_slurp.Nom.Reads.{
  Reads, be_bytes, Fits, pattern_of, FitsSigned, Reads-be_u8, Reads-be_u16, Reads-be_u32,
  Reads-be_u64, Reads-take, Reads-map,
}
use hprof_slurp.Nom.Reads.Combinators.{
  Reads-be_i8, Reads-be_i16, Reads-be_i32, Reads-be_i64, Reads-be_f32, Reads-be_f64, Reads-flat_map,
  Reads-tuple2,
}
use hprof_slurp.Parser.Primitive.{
  unwind, parse_i8, parse_i16, parse_i32, parse_i64, parse_u8, parse_u16, parse_u32, parse_u64,
  parse_f32, parse_f64,
}
use hprof_slurp.Parser.GcRecord.{
  FieldType, object, bool, char, float, double, byte, short, int, long, FieldValue, FieldInfo,
  ConstFieldInfo, from_value,
}
use hprof_slurp.Parser.Field.{
  parse_id, parse_field_type, parse_field_value, skip_array_value, parse_const_pool_item,
  parse_static_field_item, parse_instance_field_item,
}

abbrev pub IsIdSize : ℕ → Type 0
IsIdSize n = (n ≡ 4) ⊎ (n ≡ 8)

abbrev pub code_of : FieldType → ℕ
code_of object = 2
code_of bool = 4
code_of char = 5
code_of float = 6
code_of double = 7
code_of byte = 8
code_of short = 9
code_of int = 10
code_of long = 11

abbrev pub type_of : FieldValue → FieldType
type_of (FieldValue.bool b) = bool
type_of (FieldValue.byte z) = byte
type_of (FieldValue.char c) = char
type_of (FieldValue.short z) = short
type_of (FieldValue.int z) = int
type_of (FieldValue.long z) = long
type_of (FieldValue.float b) = float
type_of (FieldValue.double b) = double
type_of (FieldValue.object o) = object

abbrev pub write_value : ℕ → FieldValue → Bytes
write_value n (FieldValue.bool true) = 1 ∷ []
write_value n (FieldValue.bool false) = 0 ∷ []
write_value n (FieldValue.byte z) = be_bytes 1 (pattern_of 8 z)
write_value n (FieldValue.char c) = be_bytes 2 c
write_value n (FieldValue.short z) = be_bytes 2 (pattern_of 16 z)
write_value n (FieldValue.int z) = be_bytes 4 (pattern_of 32 z)
write_value n (FieldValue.long z) = be_bytes 8 (pattern_of 64 z)
write_value n (FieldValue.float b) = be_bytes 4 b
write_value n (FieldValue.double b) = be_bytes 8 b
write_value n (FieldValue.object o) = be_bytes n o

abbrev pub ValueFits : ℕ → FieldValue → Type 0
ValueFits n (FieldValue.bool b) = Unit
ValueFits n (FieldValue.byte z) = FitsSigned 8 z
ValueFits n (FieldValue.char c) = Fits 2 c
ValueFits n (FieldValue.short z) = FitsSigned 16 z
ValueFits n (FieldValue.int z) = FitsSigned 32 z
ValueFits n (FieldValue.long z) = FitsSigned 64 z
ValueFits n (FieldValue.float b) = Fits 4 b
ValueFits n (FieldValue.double b) = Fits 8 b
ValueFits n (FieldValue.object o) = Fits n o

-- An entry of the constant pool, a static field, and the descriptor of an instance field.
abbrev pub write_const : ℕ → ConstFieldInfo × FieldValue → Bytes
write_const n (info, v) =
    (be_bytes 2 info.const_pool_idx ++ (code_of info.const_type ∷ [])) ++ write_value n v

abbrev pub IsConst : ℕ → ConstFieldInfo × FieldValue → Type 0
IsConst n (info, v) = Fits 2 info.const_pool_idx × (type_of v ≡ info.const_type) × ValueFits n v

abbrev pub write_static : ℕ → FieldInfo × FieldValue → Bytes
write_static n (info, v) =
    (be_bytes n info.name_id ++ (code_of info.field_type ∷ [])) ++ write_value n v

abbrev pub IsStatic : ℕ → FieldInfo × FieldValue → Type 0
IsStatic n (info, v) = Fits n info.name_id × (type_of v ≡ info.field_type) × ValueFits n v

abbrev pub write_field : ℕ → FieldInfo → Bytes
write_field n info = be_bytes n info.name_id ++ (code_of info.field_type ∷ [])

abbrev pub IsField : ℕ → FieldInfo → Type 0
IsField n info = Fits n info.name_id

-- The size of an array element; an object array is another record.
abbrev pub ArrayFits : FieldType → ℕ → ℕ → Type 0
ArrayFits object count size = ⊥
ArrayFits bool count size = size ≡ count
ArrayFits char count size = size ≡ count * 2
ArrayFits float count size = size ≡ count * 4
ArrayFits double count size = size ≡ count * 8
ArrayFits byte count size = size ≡ count
ArrayFits short count size = size ≡ count * 2
ArrayFits int count size = size ≡ count * 4
ArrayFits long count size = size ≡ count * 8

module _ {nom : Nom} (laws : NomLaws nom) where
  pub Reads-u8 : (v : ℕ) → v < 256 → Reads (parse_u8 nom) (v ∷ []) v
  unfolding parse_u8
  Reads-u8 = Reads-be_u8 laws

  pub Reads-u16 : (v : ℕ) → Fits 2 v → Reads (parse_u16 nom) (be_bytes 2 v) v
  unfolding parse_u16
  Reads-u16 = Reads-be_u16 laws

  pub Reads-u32 : (v : ℕ) → Fits 4 v → Reads (parse_u32 nom) (be_bytes 4 v) v
  unfolding parse_u32
  Reads-u32 = Reads-be_u32 laws

  pub Reads-u64 : (v : ℕ) → Fits 8 v → Reads (parse_u64 nom) (be_bytes 8 v) v
  unfolding parse_u64
  Reads-u64 = Reads-be_u64 laws

  pub Reads-i32 : (z : ℤ) → FitsSigned 32 z → Reads (parse_i32 nom) (be_bytes 4 (pattern_of 32 z)) z
  unfolding parse_i32
  Reads-i32 = Reads-be_i32 laws

  pub Reads-id : (n v : ℕ) → IsIdSize n → Fits n v → Reads (parse_id nom n) (be_bytes n v) v
  unfolding parse_id
  Reads-id n v (inl e) h = rw e (Reads-map laws (Reads-u32 v (rw e at h)))
  Reads-id n v (inr e) h = rw e (Reads-u64 v (rw e at h))

  Reads-unwind :
      {A : Type 0} {p : Parser (Option A)} {bs : Bytes} {a : A}
      → Reads p bs (some a)
      → Reads (unwind p) bs a
  Reads-unwind rp = record { at = λ rest. rw rp.at }

  pub Reads-field_type : (ty : FieldType) → Reads (parse_field_type nom) (code_of ty ∷ []) ty
  unfolding parse_field_type parse_i8 from_value
  Reads-field_type object = Reads-unwind (Reads-map laws (Reads-be_i8 laws (pos 2) (omega arith)))
  Reads-field_type bool = Reads-unwind (Reads-map laws (Reads-be_i8 laws (pos 4) (omega arith)))
  Reads-field_type char = Reads-unwind (Reads-map laws (Reads-be_i8 laws (pos 5) (omega arith)))
  Reads-field_type float = Reads-unwind (Reads-map laws (Reads-be_i8 laws (pos 6) (omega arith)))
  Reads-field_type double = Reads-unwind (Reads-map laws (Reads-be_i8 laws (pos 7) (omega arith)))
  Reads-field_type byte = Reads-unwind (Reads-map laws (Reads-be_i8 laws (pos 8) (omega arith)))
  Reads-field_type short = Reads-unwind (Reads-map laws (Reads-be_i8 laws (pos 9) (omega arith)))
  Reads-field_type int = Reads-unwind (Reads-map laws (Reads-be_i8 laws (pos 10) (omega arith)))
  Reads-field_type long = Reads-unwind (Reads-map laws (Reads-be_i8 laws (pos 11) (omega arith)))

  pub Reads-field_value :
      (n : ℕ) (v : FieldValue)
      → IsIdSize n
      → ValueFits n v
      → Reads (parse_field_value nom (type_of v) n) (write_value n v) v
  unfolding parse_field_value parse_i8 parse_i16 parse_i32 parse_i64 parse_f32 parse_f64
  Reads-field_value n (FieldValue.bool true) s h = Reads-map laws (Reads-u8 1 (omega arith))
  Reads-field_value n (FieldValue.bool false) s h = Reads-map laws (Reads-u8 0 (omega arith))
  Reads-field_value n (FieldValue.byte z) s h = Reads-map laws (Reads-be_i8 laws z h)
  Reads-field_value n (FieldValue.char c) s h = Reads-map laws (Reads-u16 c h)
  Reads-field_value n (FieldValue.short z) s h = Reads-map laws (Reads-be_i16 laws z h)
  Reads-field_value n (FieldValue.int z) s h = Reads-map laws (Reads-be_i32 laws z h)
  Reads-field_value n (FieldValue.long z) s h = Reads-map laws (Reads-be_i64 laws z h)
  Reads-field_value n (FieldValue.float b) s h = Reads-map laws (Reads-be_f32 laws b h)
  Reads-field_value n (FieldValue.double b) s h = Reads-map laws (Reads-be_f64 laws b h)
  Reads-field_value n (FieldValue.object o) s h = Reads-map laws (Reads-id n o s h)

  -- The value's own type is the one that the descriptor names.
  Reads-typed_value :
      (n : ℕ) (ty : FieldType) (v : FieldValue)
      → IsIdSize n
      → type_of v ≡ ty
      → ValueFits n v
      → Reads (parse_field_value nom ty n) (write_value n v) v
  Reads-typed_value n ty v s e h =
      subst (λ t. Reads (parse_field_value nom t n) (write_value n v) v) e
        (Reads-field_value n v s h)

  pub Reads-const_pool_item :
      (n : ℕ) (item : ConstFieldInfo × FieldValue)
      → IsIdSize n
      → IsConst n item
      → Reads (parse_const_pool_item nom n) (write_const n item) item
  unfolding parse_const_pool_item
  Reads-const_pool_item n (info, v) s h =
      Reads-flat_map laws
        (Reads-tuple2 laws (Reads-u16 info.const_pool_idx h.0) (Reads-field_type info.const_type))
        (Reads-map laws (Reads-typed_value n info.const_type v s h.1 h.2))

  pub Reads-static_field_item :
      (n : ℕ) (item : FieldInfo × FieldValue)
      → IsIdSize n
      → IsStatic n item
      → Reads (parse_static_field_item nom n) (write_static n item) item
  unfolding parse_static_field_item
  Reads-static_field_item n (info, v) s h =
      Reads-flat_map laws
        (Reads-tuple2 laws (Reads-id n info.name_id s h.0) (Reads-field_type info.field_type))
        (Reads-map laws (Reads-typed_value n info.field_type v s h.1 h.2))

  pub Reads-instance_field_item :
      (n : ℕ) (info : FieldInfo)
      → IsIdSize n
      → IsField n info
      → Reads (parse_instance_field_item nom n) (write_field n info) info
  unfolding parse_instance_field_item
  Reads-instance_field_item n info s h =
      Reads-map laws
        (Reads-tuple2 laws (Reads-id n info.name_id s h) (Reads-field_type info.field_type))

  -- The body of a primitive array, skipped by its size.
  pub Reads-skip :
      (ty : FieldType) (count : ℕ) (body : Bytes)
      → ArrayFits ty count (length body)
      → Reads (skip_array_value nom ty count) body body
  unfolding skip_array_value
  Reads-skip object count body h = absurd h
  Reads-skip _ count body h = Reads-take laws body h
