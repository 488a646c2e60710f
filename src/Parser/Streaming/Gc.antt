-- ===== src/Parser/Streaming/Gc.antt =====
-- The sub-records of a heap dump keep the promises of a parser over a stream.
use hprof_slurp.Prelude.{ℕ}
use hprof_slurp.Nom.{Nom, NomLaws}
use hprof_slurp.Nom.Streams.{Streams, Streams-seq}
use hprof_slurp.Parser.Streaming.Fields.{field_rules}
use hprof_slurp.Parser.GcRoot.{
  parse_gc_root_unknown, parse_gc_root_thread_object, parse_gc_root_jni_global,
  parse_gc_root_jni_local, parse_gc_root_java_frame, parse_gc_root_native_stack,
  parse_gc_root_sticky_class, parse_gc_root_thread_block, parse_gc_root_monitor_used,
  parse_gc_root_interned_string, parse_gc_root_finalizing, parse_gc_root_debugger,
  parse_gc_root_reference_cleanup, parse_gc_root_vm_internal, parse_gc_root_jni_monitor,
  parse_gc_unreachable, parse_gc_primitive_array_nodata_dump, parse_gc_heap_dump_info,
}
use hprof_slurp.Parser.GcDump.{
  parse_gc_class_dump, parse_gc_instance_dump, parse_gc_object_array_dump,
  parse_gc_primitive_array_dump,
}

module _ {nom : Nom} (laws : NomLaws nom) where
  pub parse_gc_root_unknown-Streams : (n : ℕ) → Streams (parse_gc_root_unknown nom n)
  unfolding parse_gc_root_unknown
  parse_gc_root_unknown-Streams n = search (field_rules, laws)

  pub parse_gc_root_thread_object-Streams : (n : ℕ) → Streams (parse_gc_root_thread_object nom n)
  unfolding parse_gc_root_thread_object
  parse_gc_root_thread_object-Streams n = search (field_rules, laws)

  pub parse_gc_root_jni_global-Streams : (n : ℕ) → Streams (parse_gc_root_jni_global nom n)
  unfolding parse_gc_root_jni_global
  parse_gc_root_jni_global-Streams n = search (field_rules, laws)

  pub parse_gc_root_jni_local-Streams : (n : ℕ) → Streams (parse_gc_root_jni_local nom n)
  unfolding parse_gc_root_jni_local
  parse_gc_root_jni_local-Streams n = search (field_rules, laws)

  pub parse_gc_root_java_frame-Streams : (n : ℕ) → Streams (parse_gc_root_java_frame nom n)
  unfolding parse_gc_root_java_frame
  parse_gc_root_java_frame-Streams n = search (field_rules, laws)

  pub parse_gc_root_native_stack-Streams : (n : ℕ) → Streams (parse_gc_root_native_stack nom n)
  unfolding parse_gc_root_native_stack
  parse_gc_root_native_stack-Streams n = search (field_rules, laws)

  pub parse_gc_root_sticky_class-Streams : (n : ℕ) → Streams (parse_gc_root_sticky_class nom n)
  unfolding parse_gc_root_sticky_class
  parse_gc_root_sticky_class-Streams n = search (field_rules, laws)

  pub parse_gc_root_thread_block-Streams : (n : ℕ) → Streams (parse_gc_root_thread_block nom n)
  unfolding parse_gc_root_thread_block
  parse_gc_root_thread_block-Streams n = search (field_rules, laws)

  pub parse_gc_root_monitor_used-Streams : (n : ℕ) → Streams (parse_gc_root_monitor_used nom n)
  unfolding parse_gc_root_monitor_used
  parse_gc_root_monitor_used-Streams n = search (field_rules, laws)

  pub parse_gc_root_interned_string-Streams :
      (n : ℕ) → Streams (parse_gc_root_interned_string nom n)
  unfolding parse_gc_root_interned_string
  parse_gc_root_interned_string-Streams n = search (field_rules, laws)

  pub parse_gc_root_finalizing-Streams : (n : ℕ) → Streams (parse_gc_root_finalizing nom n)
  unfolding parse_gc_root_finalizing
  parse_gc_root_finalizing-Streams n = search (field_rules, laws)

  pub parse_gc_root_debugger-Streams : (n : ℕ) → Streams (parse_gc_root_debugger nom n)
  unfolding parse_gc_root_debugger
  parse_gc_root_debugger-Streams n = search (field_rules, laws)

  pub parse_gc_root_reference_cleanup-Streams :
      (n : ℕ) → Streams (parse_gc_root_reference_cleanup nom n)
  unfolding parse_gc_root_reference_cleanup
  parse_gc_root_reference_cleanup-Streams n = search (field_rules, laws)

  pub parse_gc_root_vm_internal-Streams : (n : ℕ) → Streams (parse_gc_root_vm_internal nom n)
  unfolding parse_gc_root_vm_internal
  parse_gc_root_vm_internal-Streams n = search (field_rules, laws)

  pub parse_gc_root_jni_monitor-Streams : (n : ℕ) → Streams (parse_gc_root_jni_monitor nom n)
  unfolding parse_gc_root_jni_monitor
  parse_gc_root_jni_monitor-Streams n = search (field_rules, laws)

  pub parse_gc_unreachable-Streams : (n : ℕ) → Streams (parse_gc_unreachable nom n)
  unfolding parse_gc_unreachable
  parse_gc_unreachable-Streams n = search (field_rules, laws)

  pub parse_gc_primitive_array_nodata_dump-Streams :
      (n : ℕ) → Streams (parse_gc_primitive_array_nodata_dump nom n)
  unfolding parse_gc_primitive_array_nodata_dump
  parse_gc_primitive_array_nodata_dump-Streams n = search (field_rules, laws)

  pub parse_gc_heap_dump_info-Streams : (n : ℕ) → Streams (parse_gc_heap_dump_info nom n)
  unfolding parse_gc_heap_dump_info
  parse_gc_heap_dump_info-Streams n = search (field_rules, laws)

  pub parse_gc_class_dump-Streams : (n : ℕ) → Streams (parse_gc_class_dump nom n)
  unfolding parse_gc_class_dump
  parse_gc_class_dump-Streams n = search (field_rules, laws, Streams-seq) depth 10

  pub parse_gc_instance_dump-Streams : (n : ℕ) → Streams (parse_gc_instance_dump nom n)
  unfolding parse_gc_instance_dump
  parse_gc_instance_dump-Streams n = search (field_rules, laws)

  pub parse_gc_object_array_dump-Streams : (n : ℕ) → Streams (parse_gc_object_array_dump nom n)
  unfolding parse_gc_object_array_dump
  parse_gc_object_array_dump-Streams n = search (field_rules, laws)

  pub parse_gc_primitive_array_dump-Streams :
      (n : ℕ) → Streams (parse_gc_primitive_array_dump nom n)
  unfolding parse_gc_primitive_array_dump
  parse_gc_primitive_array_dump-Streams n = search (field_rules, laws)

pub ruleset gc_rules = (
  field_rules, parse_gc_root_unknown-Streams, parse_gc_root_thread_object-Streams,
  parse_gc_root_jni_global-Streams, parse_gc_root_jni_local-Streams,
  parse_gc_root_java_frame-Streams, parse_gc_root_native_stack-Streams,
  parse_gc_root_sticky_class-Streams, parse_gc_root_thread_block-Streams,
  parse_gc_root_monitor_used-Streams, parse_gc_root_interned_string-Streams,
  parse_gc_root_finalizing-Streams, parse_gc_root_debugger-Streams,
  parse_gc_root_reference_cleanup-Streams, parse_gc_root_vm_internal-Streams,
  parse_gc_root_jni_monitor-Streams, parse_gc_unreachable-Streams,
  parse_gc_primitive_array_nodata_dump-Streams, parse_gc_heap_dump_info-Streams,
  parse_gc_class_dump-Streams, parse_gc_instance_dump-Streams, parse_gc_object_array_dump-Streams,
  parse_gc_primitive_array_dump-Streams,
)
