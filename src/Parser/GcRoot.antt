-- ===== src/Parser/GcRoot.antt =====
-- src/parser/record_parser.rs: the root records and the small Android records of a heap dump.
use hprof_slurp.Prelude.{ℕ}
use hprof_slurp.Nom.{Nom, Parser}
use hprof_slurp.Parser.Primitive.{parse_u32}
use hprof_slurp.Parser.Field.{parse_id, parse_field_type}
use hprof_slurp.Parser.GcRecord.{GcRecord}

module _ (nom : Nom) where
  unfoldable pub parse_gc_root_unknown : ℕ → Parser GcRecord
  parse_gc_root_unknown id_size = nom.map (parse_id nom id_size) GcRecord.root_unknown

  unfoldable pub parse_gc_root_thread_object : ℕ → Parser GcRecord
  parse_gc_root_thread_object id_size =
      nom.map (nom.tuple3 (parse_id nom id_size) (parse_u32 nom) (parse_u32 nom))
        λ (a, b, c). GcRecord.root_thread_object a b c

  unfoldable pub parse_gc_root_jni_global : ℕ → Parser GcRecord
  parse_gc_root_jni_global id_size =
      nom.map (nom.tuple2 (parse_id nom id_size) (parse_id nom id_size))
        λ (a, b). GcRecord.root_jni_global a b

  unfoldable pub parse_gc_root_jni_local : ℕ → Parser GcRecord
  parse_gc_root_jni_local id_size =
      nom.map (nom.tuple3 (parse_id nom id_size) (parse_u32 nom) (parse_u32 nom))
        λ (a, b, c). GcRecord.root_jni_local a b c

  unfoldable pub parse_gc_root_java_frame : ℕ → Parser GcRecord
  parse_gc_root_java_frame id_size =
      nom.map (nom.tuple3 (parse_id nom id_size) (parse_u32 nom) (parse_u32 nom))
        λ (a, b, c). GcRecord.root_java_frame a b c

  unfoldable pub parse_gc_root_native_stack : ℕ → Parser GcRecord
  parse_gc_root_native_stack id_size =
      nom.map (nom.tuple2 (parse_id nom id_size) (parse_u32 nom))
        λ (a, b). GcRecord.root_native_stack a b

  unfoldable pub parse_gc_root_sticky_class : ℕ → Parser GcRecord
  parse_gc_root_sticky_class id_size = nom.map (parse_id nom id_size) GcRecord.root_sticky_class

  unfoldable pub parse_gc_root_thread_block : ℕ → Parser GcRecord
  parse_gc_root_thread_block id_size =
      nom.map (nom.tuple2 (parse_id nom id_size) (parse_u32 nom))
        λ (a, b). GcRecord.root_thread_block a b

  unfoldable pub parse_gc_root_monitor_used : ℕ → Parser GcRecord
  parse_gc_root_monitor_used id_size = nom.map (parse_id nom id_size) GcRecord.root_monitor_used

  unfoldable pub parse_gc_root_interned_string : ℕ → Parser GcRecord
  parse_gc_root_interned_string id_size =
      nom.map (parse_id nom id_size) GcRecord.root_interned_string

  unfoldable pub parse_gc_root_finalizing : ℕ → Parser GcRecord
  parse_gc_root_finalizing id_size = nom.map (parse_id nom id_size) GcRecord.root_finalizing

  unfoldable pub parse_gc_root_debugger : ℕ → Parser GcRecord
  parse_gc_root_debugger id_size = nom.map (parse_id nom id_size) GcRecord.root_debugger

  unfoldable pub parse_gc_root_reference_cleanup : ℕ → Parser GcRecord
  parse_gc_root_reference_cleanup id_size =
      nom.map (parse_id nom id_size) GcRecord.root_reference_cleanup

  unfoldable pub parse_gc_root_vm_internal : ℕ → Parser GcRecord
  parse_gc_root_vm_internal id_size = nom.map (parse_id nom id_size) GcRecord.root_vm_internal

  unfoldable pub parse_gc_root_jni_monitor : ℕ → Parser GcRecord
  parse_gc_root_jni_monitor id_size =
      nom.map (nom.tuple3 (parse_id nom id_size) (parse_u32 nom) (parse_u32 nom))
        λ (a, b, c). GcRecord.root_jni_monitor a b c

  unfoldable pub parse_gc_unreachable : ℕ → Parser GcRecord
  parse_gc_unreachable id_size = nom.map (parse_id nom id_size) GcRecord.unreachable

  unfoldable pub parse_gc_primitive_array_nodata_dump : ℕ → Parser GcRecord
  parse_gc_primitive_array_nodata_dump id_size =
      nom.map
        (nom.tuple4 (parse_id nom id_size) (parse_u32 nom) (parse_u32 nom) (parse_field_type nom))
        λ (a, b, c, d). GcRecord.primitive_array_no_data_dump a b c d

  unfoldable pub parse_gc_heap_dump_info : ℕ → Parser GcRecord
  parse_gc_heap_dump_info id_size =
      nom.map (nom.tuple2 (parse_u32 nom) (parse_id nom id_size))
        λ (a, b). GcRecord.heap_dump_info a b
