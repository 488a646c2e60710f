-- ===== src/Parser/Dispatch.antt =====
-- src/parser/record_parser.rs: the two dispatches on a tag, and the parser's state.
use hprof_slurp.Prelude.{ℕ, ◌-◌, ◌%◌, ◌^◌, Bool, ◌||◌, ◌==◌, if◌then◌else◌, length}
use hprof_slurp.Nom.{Nom, Parser, ok, panicked, ◌and_then◌, map_ok}
use hprof_slurp.Parser.Primitive.{parse_u8}
use hprof_slurp.Parser.GcRecord.{GcRecord}
use hprof_slurp.Parser.Record.{Record, heap_dump_start, gc_segment}
use hprof_slurp.Parser.Tags.{
  tag_string, tag_load_class, tag_unload_class, tag_stack_frame, tag_stack_trace, tag_alloc_sites,
  tag_heap_summary, tag_start_thread, tag_end_thread, tag_heap_dump, tag_heap_dump_segment,
  tag_heap_dump_end, tag_control_setting, tag_cpu_samples, tag_gc_root_unknown,
  tag_gc_root_jni_global, tag_gc_root_jni_local, tag_gc_root_java_frame, tag_gc_root_native_stack,
  tag_gc_root_sticky_class, tag_gc_root_thread_block, tag_gc_root_monitor_used,
  tag_gc_root_thread_obj, tag_gc_class_dump, tag_gc_instance_dump, tag_gc_obj_array_dump,
  tag_gc_prim_array_dump, tag_gc_root_interned_string, tag_gc_root_finalizing, tag_gc_root_debugger,
  tag_gc_root_reference_cleanup, tag_gc_root_vm_internal, tag_gc_root_jni_monitor,
  tag_gc_unreachable, tag_gc_prim_array_nodata_dump, tag_gc_heap_dump_info,
}
use hprof_slurp.Parser.GcRoot.{
  parse_gc_root_unknown, parse_gc_root_jni_global, parse_gc_root_jni_local,
  parse_gc_root_java_frame, parse_gc_root_native_stack, parse_gc_root_sticky_class,
  parse_gc_root_thread_block, parse_gc_root_monitor_used, parse_gc_root_thread_object,
  parse_gc_root_interned_string, parse_gc_root_finalizing, parse_gc_root_debugger,
  parse_gc_root_reference_cleanup, parse_gc_root_vm_internal, parse_gc_root_jni_monitor,
  parse_gc_unreachable, parse_gc_primitive_array_nodata_dump, parse_gc_heap_dump_info,
}
use hprof_slurp.Parser.GcDump.{
  parse_gc_class_dump, parse_gc_instance_dump, parse_gc_object_array_dump,
  parse_gc_primitive_array_dump,
}
use hprof_slurp.Parser.Body.{
  parse_header_record, parse_utf8_string, parse_load_class, parse_unload_class, parse_stack_frame,
  parse_stack_trace, parse_allocation_sites, parse_heap_summary, parse_start_thread,
  parse_end_thread, parse_control_settings, parse_cpu_samples, parse_heap_dump_end,
}

module _ (nom : Nom) where
  -- The `match` on the tag of a sub-record; the last case is the panic "unhandled gc record tag".
  unfoldable pub parse_gc_body : ℕ → ℕ → Parser GcRecord
  parse_gc_body id_size tag =
      if tag == tag_gc_root_unknown
      then parse_gc_root_unknown nom id_size
      else if tag == tag_gc_root_jni_global
      then parse_gc_root_jni_global nom id_size
      else if tag == tag_gc_root_jni_local
      then parse_gc_root_jni_local nom id_size
      else if tag == tag_gc_root_java_frame
      then parse_gc_root_java_frame nom id_size
      else if tag == tag_gc_root_native_stack
      then parse_gc_root_native_stack nom id_size
      else if tag == tag_gc_root_sticky_class
      then parse_gc_root_sticky_class nom id_size
      else if tag == tag_gc_root_thread_block
      then parse_gc_root_thread_block nom id_size
      else if tag == tag_gc_root_monitor_used
      then parse_gc_root_monitor_used nom id_size
      else if tag == tag_gc_root_thread_obj
      then parse_gc_root_thread_object nom id_size
      else if tag == tag_gc_class_dump
      then parse_gc_class_dump nom id_size
      else if tag == tag_gc_instance_dump
      then parse_gc_instance_dump nom id_size
      else if tag == tag_gc_obj_array_dump
      then parse_gc_object_array_dump nom id_size
      else if tag == tag_gc_prim_array_dump
      then parse_gc_primitive_array_dump nom id_size
      else if tag == tag_gc_root_interned_string
      then parse_gc_root_interned_string nom id_size
      else if tag == tag_gc_root_finalizing
      then parse_gc_root_finalizing nom id_size
      else if tag == tag_gc_root_debugger
      then parse_gc_root_debugger nom id_size
      else if tag == tag_gc_root_reference_cleanup
      then parse_gc_root_reference_cleanup nom id_size
      else if tag == tag_gc_root_vm_internal
      then parse_gc_root_vm_internal nom id_size
      else if tag == tag_gc_root_jni_monitor
      then parse_gc_root_jni_monitor nom id_size
      else if tag == tag_gc_unreachable
      then parse_gc_unreachable nom id_size
      else if tag == tag_gc_prim_array_nodata_dump
      then parse_gc_primitive_array_nodata_dump nom id_size
      else if tag == tag_gc_heap_dump_info
      then parse_gc_heap_dump_info nom id_size
      else λ i. panicked

  unfoldable pub parse_gc_record : ℕ → Parser GcRecord
  parse_gc_record id_size i = parse_u8 nom i and_then parse_gc_body id_size

  -- The `match` on the tag of a record, but for the two tags that start a heap dump segment.
  unfoldable pub parse_body : ℕ → ℕ → Parser Record
  parse_body id_size tag =
      if tag == tag_string
      then parse_utf8_string nom id_size
      else if tag == tag_load_class
      then parse_load_class nom id_size
      else if tag == tag_unload_class
      then parse_unload_class nom
      else if tag == tag_stack_frame
      then parse_stack_frame nom id_size
      else if tag == tag_stack_trace
      then parse_stack_trace nom id_size
      else if tag == tag_alloc_sites
      then parse_allocation_sites nom
      else if tag == tag_heap_summary
      then parse_heap_summary nom
      else if tag == tag_start_thread
      then parse_start_thread nom id_size
      else if tag == tag_end_thread
      then parse_end_thread nom
      else if tag == tag_control_setting
      then parse_control_settings nom
      else if tag == tag_cpu_samples
      then parse_cpu_samples nom
      else if tag == tag_heap_dump_end
      then parse_heap_dump_end nom
      else λ i. panicked

pub record HprofRecordParser : Type 0 where
  pub debug_mode : Bool
  pub id_size : ℕ
  pub heap_dump_remaining_len : ℕ

abbrev pub new : Bool → ℕ → HprofRecordParser
new debug_mode id_size = record {
  debug_mode = debug_mode;
  id_size = id_size;
  heap_dump_remaining_len = 0;
}

abbrev pub is_heap_dump : ℕ → Bool
is_heap_dump tag = tag == tag_heap_dump || tag == tag_heap_dump_segment

-- `saturating_sub(gc_sub_len as u32)`.
abbrev pub after_segment : HprofRecordParser → ℕ → GcRecord → Record × HprofRecordParser
after_segment p gc_sub_len gc_sub = (
  gc_segment gc_sub,
  record p { heap_dump_remaining_len = p.heap_dump_remaining_len - gc_sub_len % 2 ^ 32 },
)

module _ (nom : Nom) where
  -- A segment's header sets the length that its sub-records take up.
  unfoldable pub parse_heap_dump_start : HprofRecordParser → Parser (Record × HprofRecordParser)
  parse_heap_dump_start p =
      nom.map (parse_header_record nom)
        λ hr. (heap_dump_start hr.length, record p { heap_dump_remaining_len = hr.length })

  unfoldable pub parse_tagged : HprofRecordParser → ℕ → Parser (Record × HprofRecordParser)
  parse_tagged p tag =
      if is_heap_dump tag
      then parse_heap_dump_start p
      else (λ r1. map_ok (λ parsed. (parsed, p)) (parse_body nom p.id_size tag r1))

  unfoldable pub parse_record : HprofRecordParser → Parser (Record × HprofRecordParser)
  parse_record p i = parse_u8 nom i and_then parse_tagged p

  unfoldable pub parse_segment : HprofRecordParser → Parser (Record × HprofRecordParser)
  parse_segment p i = parse_gc_record nom p.id_size i and_then λ gc_sub r1.
      ok r1 (after_segment p (length i - length r1) gc_sub)

  -- The state comes back with the record, since the parser changes it only with one.
  unfoldable pub parse_hprof_record : HprofRecordParser → Parser (Record × HprofRecordParser)
  parse_hprof_record p = if p.heap_dump_remaining_len == 0 then parse_record p else parse_segment p
