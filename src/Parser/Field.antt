-- ===== src/Parser/Field.antt =====
-- src/parser/record_parser.rs: ids, and the fields and arrays inside the sub-records of a heap dump.
use mathlib.Core.List
use hprof_slurp.Prelude.{ℕ, ◌*◌, Bool, not, if◌then◌else◌, ◌==◌}
use hprof_slurp.Nom.{Nom, Bytes, Parser, panicked}
use hprof_slurp.Parser.Primitive.{
  unwind, parse_i8, parse_i16, parse_i32, parse_i64, parse_u8, parse_u16, parse_u32, parse_u64,
  parse_f32, parse_f64,
}
use hprof_slurp.Parser.GcRecord.{
  FieldType, FieldValue, ArrayValue, FieldInfo, ConstFieldInfo, from_value,
}

abbrev pub is_nonzero : ℕ → Bool
is_nonzero b = not (b == 0)

module _ (nom : Nom) where
  unfoldable pub parse_id : ℕ → Parser ℕ
  parse_id id_size =
      if id_size == 4
      then nom.map (parse_u32 nom) (λ v. v)
      else if id_size == 8
      then parse_u64 nom
      else λ i. panicked

  unfoldable pub parse_field_type : Parser FieldType
  parse_field_type = unwind (nom.map (parse_i8 nom) from_value)

  unfoldable pub parse_field_value : FieldType → ℕ → Parser FieldValue
  parse_field_value FieldType.object id_size = nom.map (parse_id id_size) FieldValue.object
  parse_field_value FieldType.bool id_size =
      nom.map (parse_u8 nom) (λ bu8. FieldValue.bool (is_nonzero bu8))
  parse_field_value FieldType.char id_size = nom.map (parse_u16 nom) FieldValue.char
  parse_field_value FieldType.float id_size = nom.map (parse_f32 nom) FieldValue.float
  parse_field_value FieldType.double id_size = nom.map (parse_f64 nom) FieldValue.double
  parse_field_value FieldType.byte id_size = nom.map (parse_i8 nom) FieldValue.byte
  parse_field_value FieldType.short id_size = nom.map (parse_i16 nom) FieldValue.short
  parse_field_value FieldType.int id_size = nom.map (parse_i32 nom) FieldValue.int
  parse_field_value FieldType.long id_size = nom.map (parse_i64 nom) FieldValue.long

  -- Not called by the program.
  unfoldable pub parse_array_value : FieldType → ℕ → Parser ArrayValue
  parse_array_value FieldType.object n = λ i. panicked
  parse_array_value FieldType.bool n =
      nom.map (nom.count (parse_u8 nom) n) (λ res. ArrayValue.bool (List.map is_nonzero res))
  parse_array_value FieldType.char n = nom.map (nom.count (parse_u16 nom) n) ArrayValue.char
  parse_array_value FieldType.float n = nom.map (nom.count (parse_f32 nom) n) ArrayValue.float
  parse_array_value FieldType.double n = nom.map (nom.count (parse_f64 nom) n) ArrayValue.double
  parse_array_value FieldType.byte n = nom.map (nom.count (parse_i8 nom) n) ArrayValue.byte
  parse_array_value FieldType.short n = nom.map (nom.count (parse_i16 nom) n) ArrayValue.short
  parse_array_value FieldType.int n = nom.map (nom.count (parse_i32 nom) n) ArrayValue.int
  parse_array_value FieldType.long n = nom.map (nom.count (parse_i64 nom) n) ArrayValue.long

  unfoldable pub skip_array_value : FieldType → ℕ → Parser Bytes
  skip_array_value FieldType.object n = λ i. panicked
  skip_array_value FieldType.bool n = nom.take n
  skip_array_value FieldType.char n = nom.take (n * 2)
  skip_array_value FieldType.float n = nom.take (n * 4)
  skip_array_value FieldType.double n = nom.take (n * 8)
  skip_array_value FieldType.byte n = nom.take n
  skip_array_value FieldType.short n = nom.take (n * 2)
  skip_array_value FieldType.int n = nom.take (n * 4)
  skip_array_value FieldType.long n = nom.take (n * 8)

  unfoldable pub parse_const_pool_item : ℕ → Parser (ConstFieldInfo × FieldValue)
  parse_const_pool_item id_size =
      nom.flat_map (nom.tuple2 (parse_u16 nom) parse_field_type) λ (idx, ty).
        nom.map (parse_field_value ty id_size)
          λ fv. (record { const_pool_idx = idx; const_type = ty }, fv)

  unfoldable pub parse_static_field_item : ℕ → Parser (FieldInfo × FieldValue)
  parse_static_field_item id_size =
      nom.flat_map (nom.tuple2 (parse_id id_size) parse_field_type) λ (name, ty).
        nom.map (parse_field_value ty id_size)
          λ fv. (record { name_id = name; field_type = ty }, fv)

  unfoldable pub parse_instance_field_item : ℕ → Parser FieldInfo
  parse_instance_field_item id_size =
      nom.map (nom.tuple2 (parse_id id_size) parse_field_type)
        λ (name, ty). record { name_id = name; field_type = ty }
