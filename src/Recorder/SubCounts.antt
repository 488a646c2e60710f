-- ===== src/Recorder/SubCounts.antt =====
-- The counters of sub-records of src/result_recorder.rs, in terms of the sub-records that came in.
pub mod Steps
pub mod Counted
use hprof_slurp.Prelude.{
  ℕ, suc, ◌%◌, ◌^◌, ◌≡◌, refl, sym, ap, ◌∙◌, Bool, true, ◌||◌, Option, none, some, ◌>>=◌, List, [],
  ◌∷◌, ◌==◌, if◌then◌else◌, All,
}
use mathlib.Core.Option.{none-ne-some, some-injective}
use hprof_slurp.Parser.GcRecord.{
  GcRecord, root_unknown, root_thread_object, root_jni_global, root_jni_local, root_java_frame,
  root_native_stack, root_sticky_class, root_thread_block, root_monitor_used, root_interned_string,
  root_finalizing, root_debugger, root_reference_cleanup, root_vm_internal, root_jni_monitor,
  unreachable, heap_dump_info, primitive_array_no_data_dump, instance_dump, object_array_dump,
  primitive_array_dump, class_dump,
}
use hprof_slurp.Parser.Record.{
  Record, utf8_string, load_class, unload_class, stack_frame, stack_trace, allocation_sites,
  start_thread, end_thread, heap_summary, heap_dump_start, heap_dump_end, control_settings,
  cpu_samples, gc_segment,
}
use hprof_slurp.Format.Gc
use hprof_slurp.Format.Fields.{IsIdSize}
use hprof_slurp.Recorder.Events.{Recordable}
use hprof_slurp.Recorder.Captures.{record_records-captures}
use hprof_slurp.Recorder.Counts.{bumped, bumped_zero}
use hprof_slurp.Recorder.State.{ResultRecorder, GcCounters, bump32, new}
use hprof_slurp.Recorder.Sizes.{object_array_size, primitive_array_size}
use hprof_slurp.Recorder.Records.{record_gc, record_one, record_records}

-- How many of the records are sub-records that pass a test.
abbrev pub count_sub : (GcRecord → Bool) → List Record → ℕ
count_sub test [] = 0
count_sub test (gc_segment g ∷ rs) = let n = count_sub test rs in if test g then suc n else n
count_sub test (utf8_string _ _ ∷ rs) = count_sub test rs
count_sub test (load_class _ ∷ rs) = count_sub test rs
count_sub test (unload_class _ ∷ rs) = count_sub test rs
count_sub test (stack_frame _ ∷ rs) = count_sub test rs
count_sub test (stack_trace _ ∷ rs) = count_sub test rs
count_sub test (allocation_sites _ _ _ _ _ _ _ _ ∷ rs) = count_sub test rs
count_sub test (start_thread _ _ _ _ _ _ ∷ rs) = count_sub test rs
count_sub test (end_thread _ ∷ rs) = count_sub test rs
count_sub test (heap_summary _ _ _ _ ∷ rs) = count_sub test rs
count_sub test (heap_dump_start _ ∷ rs) = count_sub test rs
count_sub test (heap_dump_end _ ∷ rs) = count_sub test rs
count_sub test (control_settings _ _ ∷ rs) = count_sub test rs
count_sub test (cpu_samples _ _ _ ∷ rs) = count_sub test rs

abbrev pub with_tag : ℕ → GcRecord → Bool
with_tag tag g = Gc.tag_of g == tag

abbrev pub any_sub : GcRecord → Bool
any_sub _ = true

-- Primitive arrays, with or without their elements.
abbrev pub primitive_array : GcRecord → Bool
primitive_array g = with_tag 0x23 g || with_tag 0xc3 g

abbrev pub tallied_sub : GcCounters → List Record → GcCounters
tallied_sub c rs = record {
  all_sub_records = bumped (count_sub any_sub rs) c.all_sub_records;
  gc_root_unknown = bumped (count_sub (with_tag 0xff) rs) c.gc_root_unknown;
  gc_root_thread_object = bumped (count_sub (with_tag 0x08) rs) c.gc_root_thread_object;
  gc_root_jni_global = bumped (count_sub (with_tag 0x01) rs) c.gc_root_jni_global;
  gc_root_jni_local = bumped (count_sub (with_tag 0x02) rs) c.gc_root_jni_local;
  gc_root_java_frame = bumped (count_sub (with_tag 0x03) rs) c.gc_root_java_frame;
  gc_root_native_stack = bumped (count_sub (with_tag 0x04) rs) c.gc_root_native_stack;
  gc_root_sticky_class = bumped (count_sub (with_tag 0x05) rs) c.gc_root_sticky_class;
  gc_root_thread_block = bumped (count_sub (with_tag 0x06) rs) c.gc_root_thread_block;
  gc_root_monitor_used = bumped (count_sub (with_tag 0x07) rs) c.gc_root_monitor_used;
  gc_object_array_dump = bumped (count_sub (with_tag 0x22) rs) c.gc_object_array_dump;
  gc_instance_dump = bumped (count_sub (with_tag 0x21) rs) c.gc_instance_dump;
  gc_class_dump = bumped (count_sub (with_tag 0x20) rs) c.gc_class_dump;
  gc_primitive_array_dump = bumped (count_sub primitive_array rs) c.gc_primitive_array_dump;
}

-- The number of sub-records of each kind, in 32 bits.
abbrev pub sub_counts : List Record → GcCounters
sub_counts rs = record {
  all_sub_records = count_sub any_sub rs % 2 ^ 32;
  gc_root_unknown = count_sub (with_tag 0xff) rs % 2 ^ 32;
  gc_root_thread_object = count_sub (with_tag 0x08) rs % 2 ^ 32;
  gc_root_jni_global = count_sub (with_tag 0x01) rs % 2 ^ 32;
  gc_root_jni_local = count_sub (with_tag 0x02) rs % 2 ^ 32;
  gc_root_java_frame = count_sub (with_tag 0x03) rs % 2 ^ 32;
  gc_root_native_stack = count_sub (with_tag 0x04) rs % 2 ^ 32;
  gc_root_sticky_class = count_sub (with_tag 0x05) rs % 2 ^ 32;
  gc_root_thread_block = count_sub (with_tag 0x06) rs % 2 ^ 32;
  gc_root_monitor_used = count_sub (with_tag 0x07) rs % 2 ^ 32;
  gc_object_array_dump = count_sub (with_tag 0x22) rs % 2 ^ 32;
  gc_instance_dump = count_sub (with_tag 0x21) rs % 2 ^ 32;
  gc_class_dump = count_sub (with_tag 0x20) rs % 2 ^ 32;
  gc_primitive_array_dump = count_sub primitive_array rs % 2 ^ 32;
}
