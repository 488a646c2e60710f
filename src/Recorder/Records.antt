-- ===== src/Recorder/Records.antt =====
-- `record_records` of src/result_recorder.rs.
use hprof_slurp.Prelude.{◌-◌, Option, none, some, List, [], ◌∷◌, ◌++◌, length, ◌>>=◌}
use hprof_slurp.Parser.GcRecord.{
  GcRecord, FieldType, FieldInfo, root_unknown, root_thread_object, root_jni_global, root_jni_local,
  root_java_frame, root_native_stack, root_sticky_class, root_thread_block, root_monitor_used,
  root_interned_string, root_finalizing, root_debugger, root_reference_cleanup, root_vm_internal,
  root_jni_monitor, unreachable, heap_dump_info, primitive_array_no_data_dump, instance_dump,
  object_array_dump, primitive_array_dump, class_dump,
}
use hprof_slurp.Parser.Record.{
  Record, LoadClassData, utf8_string, load_class, unload_class, stack_frame, stack_trace,
  allocation_sites, start_thread, end_thread, heap_summary, heap_dump_start, heap_dump_end,
  control_settings, cpu_samples, gc_segment,
}
use hprof_slurp.Recorder.AHashMap.{number, field_type, insert, upsert}
use hprof_slurp.Recorder.Sizes.{object_array_size, primitive_array_size}
use hprof_slurp.Recorder.State.{
  ResultRecorder, Captured, ClassInfo, no_instances, add_instance, no_arrays, add_array, bump32,
}

-- `or_insert_with(..)`, and then a method on the entry.
abbrev pub or_insert_with : {V : Type 0} → V → (V → V) → Option V → V
or_insert_with fresh f none = f fresh
or_insert_with fresh f (some v) = f v

abbrev pub field_types : List FieldInfo → List FieldType
field_types [] = []
field_types (f ∷ fs) = f.field_type ∷ field_types fs

-- The arms for the sub-records, after `heap_dump_segments_all_sub_records` is counted; `none` is a
-- panic in the computation of a size.
unfoldable pub record_gc : ResultRecorder → GcRecord → Option ResultRecorder
record_gc s (root_unknown _) =
    some (record s { gc = record s.gc { gc_root_unknown = bump32 s.gc.gc_root_unknown } })
record_gc s (root_thread_object _ _ _) =
    some
      (record s { gc = record s.gc { gc_root_thread_object = bump32 s.gc.gc_root_thread_object } })
record_gc s (root_jni_global _ _) =
    some (record s { gc = record s.gc { gc_root_jni_global = bump32 s.gc.gc_root_jni_global } })
record_gc s (root_jni_local _ _ _) =
    some (record s { gc = record s.gc { gc_root_jni_local = bump32 s.gc.gc_root_jni_local } })
record_gc s (root_java_frame _ _ _) =
    some (record s { gc = record s.gc { gc_root_java_frame = bump32 s.gc.gc_root_java_frame } })
record_gc s (root_native_stack _ _) =
    some (record s { gc = record s.gc { gc_root_native_stack = bump32 s.gc.gc_root_native_stack } })
record_gc s (root_sticky_class _) =
    some (record s { gc = record s.gc { gc_root_sticky_class = bump32 s.gc.gc_root_sticky_class } })
record_gc s (root_thread_block _ _) =
    some (record s { gc = record s.gc { gc_root_thread_block = bump32 s.gc.gc_root_thread_block } })
record_gc s (root_monitor_used _) =
    some (record s { gc = record s.gc { gc_root_monitor_used = bump32 s.gc.gc_root_monitor_used } })
record_gc s (instance_dump _ _ class_object_id _) = some (record s {
  captured = record s.captured {
    classes_all_instance_total_size_by_id =
        upsert number class_object_id (or_insert_with no_instances add_instance)
          s.captured.classes_all_instance_total_size_by_id;
  };
  gc = record s.gc { gc_instance_dump = bump32 s.gc.gc_instance_dump };
})
record_gc s (object_array_dump _ _ number_of_elements array_class_id) = do
  size_bytes ← object_array_size s.id_size number_of_elements
  some (record s {
    captured = record s.captured {
      object_array_counters =
          upsert number array_class_id (or_insert_with no_arrays (add_array size_bytes))
            s.captured.object_array_counters;
    };
    gc = record s.gc { gc_object_array_dump = bump32 s.gc.gc_object_array_dump };
  })
record_gc s (primitive_array_dump _ _ number_of_elements element_type) = do
  size_bytes ← primitive_array_size s.id_size element_type number_of_elements
  some (record s {
    captured = record s.captured {
      primitive_array_counters =
          upsert field_type element_type (or_insert_with no_arrays (add_array size_bytes))
            s.captured.primitive_array_counters;
    };
    gc = record s.gc { gc_primitive_array_dump = bump32 s.gc.gc_primitive_array_dump };
  })
record_gc s (class_dump class_dump_fields) =
    let class_info : ClassInfo = record {
      super_class_object_id = class_dump_fields.super_class_object_id;
      instance_field_types = field_types class_dump_fields.instance_fields;
    } in
    some (record s {
      captured = record s.captured {
        classes_single_instance_size_by_id =
            upsert number class_dump_fields.class_object_id (or_insert_with class_info (λ c. c))
              s.captured.classes_single_instance_size_by_id;
      };
      gc = record s.gc { gc_class_dump = bump32 s.gc.gc_class_dump };
    })
record_gc s (root_interned_string _) = some s
record_gc s (root_finalizing _) = some s
record_gc s (root_debugger _) = some s
record_gc s (root_reference_cleanup _) = some s
record_gc s (root_vm_internal _) = some s
record_gc s (root_jni_monitor _ _ _) = some s
record_gc s (unreachable _) = some s
record_gc s (heap_dump_info _ _) = some s
record_gc s (primitive_array_no_data_dump _ _ _ element_type) = some (record s {
  captured = record s.captured {
    primitive_array_counters =
        upsert field_type element_type (or_insert_with no_arrays (add_array 0))
          s.captured.primitive_array_counters;
  };
  gc = record s.gc { gc_primitive_array_dump = bump32 s.gc.gc_primitive_array_dump };
})

-- `data_index` is the position of the class that was just pushed.
abbrev pub capture_class : Captured → LoadClassData → Captured
capture_class c load_class_data =
    let class_data = c.class_data ++ load_class_data ∷ [] in
    let data_index = length class_data - 1 in
    record c {
      class_data = class_data;
      class_data_by_id =
          insert number load_class_data.class_object_id data_index c.class_data_by_id;
      class_data_by_serial_number =
          insert number load_class_data.serial_number data_index c.class_data_by_serial_number;
    }

unfoldable pub record_one : ResultRecorder → Record → Option ResultRecorder
unfolding record_gc
record_one s (utf8_string id str) = some (record s {
  captured = record s.captured {
    utf8_strings_by_id = insert number id str s.captured.utf8_strings_by_id;
  };
})
record_one s (load_class load_class_data) =
    some (record s { captured = capture_class s.captured load_class_data })
record_one s (unload_class _) =
    some (record s { tags = record s.tags { classes_unloaded = bump32 s.tags.classes_unloaded } })
record_one s (stack_frame f) = some (record s {
  tags = record s.tags { stack_frames = bump32 s.tags.stack_frames };
  captured = record s.captured {
    stack_frame_by_id = insert number f.stack_frame_id f s.captured.stack_frame_by_id;
  };
})
record_one s (stack_trace t) = some (record s {
  tags = record s.tags { stack_traces = bump32 s.tags.stack_traces };
  captured = record s.captured {
    stack_trace_by_serial_number =
        insert number t.serial_number t s.captured.stack_trace_by_serial_number;
  };
})
record_one s (start_thread _ _ _ _ _ _) =
    some (record s { tags = record s.tags { start_threads = bump32 s.tags.start_threads } })
record_one s (end_thread _) =
    some (record s { tags = record s.tags { end_threads = bump32 s.tags.end_threads } })
record_one s (allocation_sites _ _ _ _ _ _ _ _) =
    some (record s { tags = record s.tags { allocation_sites = bump32 s.tags.allocation_sites } })
record_one s (heap_summary _ _ _ _) =
    some (record s { tags = record s.tags { heap_summaries = bump32 s.tags.heap_summaries } })
record_one s (control_settings _ _) =
    some (record s { tags = record s.tags { control_settings = bump32 s.tags.control_settings } })
record_one s (cpu_samples _ _ _) =
    some (record s { tags = record s.tags { cpu_samples = bump32 s.tags.cpu_samples } })
record_one s (heap_dump_end _) = some s
record_one s (heap_dump_start _) =
    some (record s { tags = record s.tags { heap_dumps = bump32 s.tags.heap_dumps } })
record_one s (gc_segment gc_record) =
    record_gc (record s { gc = record s.gc { all_sub_records = bump32 s.gc.all_sub_records } })
      gc_record

unfoldable pub record_records : ResultRecorder → List Record → Option ResultRecorder
record_records s [] = some s
record_records s (r ∷ records) = do s1 ← record_one s r; record_records s1 records
