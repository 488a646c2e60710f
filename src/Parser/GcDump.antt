-- ===== src/Parser/GcDump.antt =====
-- src/parser/record_parser.rs: the class, instance and array records of a heap dump. The contents of
-- instances and arrays are skipped.
use hprof_slurp.Prelude.{ℕ, ◌*◌}
use hprof_slurp.Nom.{Nom, Parser, ok, ◌and_then◌}
use hprof_slurp.Parser.Primitive.{parse_u16, parse_u32}
use hprof_slurp.Parser.Field.{
  parse_id, parse_field_type, skip_array_value, parse_const_pool_item, parse_static_field_item,
  parse_instance_field_item,
}
use hprof_slurp.Parser.GcRecord.{GcRecord, class_dump}

module _ (nom : Nom) where
  -- The bindings are the chain of `?` and `and_then`: `p r and_then λ a r'. …`.
  unfoldable pub parse_gc_class_dump : ℕ → Parser GcRecord
  parse_gc_class_dump id_size i =
      let p_id = parse_id nom id_size in
      nom.tuple10 p_id (parse_u32 nom) p_id p_id p_id p_id p_id p_id (parse_u32 nom) (parse_u16 nom)
        i
      and_then λ (class_id, trace, super, _, _, _, _, _, size, constant_pool_size) r1.
          nom.count (parse_const_pool_item nom id_size) constant_pool_size r1
          and_then λ const_fields r2. parse_u16 nom r2 and_then λ static_fields_number r3.
              nom.count (parse_static_field_item nom id_size) static_fields_number r3
              and_then λ static_fields r4. parse_u16 nom r4 and_then λ instance_field_number r5.
                  nom.count (parse_instance_field_item nom id_size) instance_field_number r5
                  and_then λ instance_fields r6. ok r6 (
                      class_dump (record {
                        class_object_id = class_id;
                        stack_trace_serial_number = trace;
                        super_class_object_id = super;
                        instance_size = size;
                        const_fields = const_fields;
                        static_fields = static_fields;
                        instance_fields = instance_fields;
                      }))

  unfoldable pub parse_gc_instance_dump : ℕ → Parser GcRecord
  parse_gc_instance_dump id_size =
      nom.flat_map
        (nom.tuple4 (parse_id nom id_size) (parse_u32 nom) (parse_id nom id_size) (parse_u32 nom))
        λ (object_id, trace, class_id, data_size).
          nom.map (nom.take data_size)
            λ _. GcRecord.instance_dump object_id trace class_id data_size

  -- The product of two `u32` fits in a `u64`.
  unfoldable pub parse_gc_object_array_dump : ℕ → Parser GcRecord
  parse_gc_object_array_dump id_size =
      nom.flat_map
        (nom.tuple4 (parse_id nom id_size) (parse_u32 nom) (parse_u32 nom) (parse_id nom id_size))
        λ (object_id, trace, number_of_elements, array_class_id).
          nom.map (nom.take (number_of_elements * id_size))
            λ _. GcRecord.object_array_dump object_id trace number_of_elements array_class_id

  unfoldable pub parse_gc_primitive_array_dump : ℕ → Parser GcRecord
  parse_gc_primitive_array_dump id_size =
      nom.flat_map
        (nom.tuple4 (parse_id nom id_size) (parse_u32 nom) (parse_u32 nom) (parse_field_type nom))
        λ (object_id, trace, number_of_elements, element_type).
          nom.map (skip_array_value nom element_type number_of_elements)
            λ _. GcRecord.primitive_array_dump object_id trace number_of_elements element_type
