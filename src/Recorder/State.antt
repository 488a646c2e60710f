-- ===== src/Recorder/State.antt =====
-- src/result_recorder.rs: `ResultRecorder` and the counters that its maps hold.
use hprof_slurp.Prelude.{ℕ, ◌+◌, ◌%◌, ◌^◌, Bool, List, [], ltb, if◌then◌else◌}
use hprof_slurp.Nom.{Bytes}
use hprof_slurp.Parser.GcRecord.{FieldType}
use hprof_slurp.Parser.Record.{LoadClassData, StackFrameData, StackTraceData}
use hprof_slurp.Recorder.AHashMap.{AHashMap}

-- `+= 1` on a u32 and on a u64.
abbrev pub bump32 : ℕ → ℕ
bump32 n = (n + 1) % 2 ^ 32

abbrev pub bump64 : ℕ → ℕ
bump64 n = (n + 1) % 2 ^ 64

pub record ClassInfo : Type 0 where
  pub super_class_object_id : ℕ
  pub instance_field_types : List FieldType

pub record ClassInstanceCounter : Type 0 where
  pub number_of_instances : ℕ

abbrev pub no_instances : ClassInstanceCounter
no_instances = record { number_of_instances = 0 }

abbrev pub add_instance : ClassInstanceCounter → ClassInstanceCounter
add_instance c = record { number_of_instances = bump64 c.number_of_instances }

pub record ArrayCounter : Type 0 where
  pub number_of_arrays : ℕ
  pub max_size_bytes_seen : ℕ
  pub total_size_bytes : ℕ

abbrev pub no_arrays : ArrayCounter
no_arrays = record { number_of_arrays = 0; max_size_bytes_seen = 0; total_size_bytes = 0 }

abbrev pub add_array : ℕ → ArrayCounter → ArrayCounter
add_array size_bytes c = record {
  number_of_arrays = bump64 c.number_of_arrays;
  max_size_bytes_seen =
      if ltb c.max_size_bytes_seen size_bytes then size_bytes else c.max_size_bytes_seen;
  total_size_bytes = (c.total_size_bytes + size_bytes) % 2 ^ 64;
}

-- The fields of `ResultRecorder` in the groups that its comments name: the tag counters,
pub record TagCounters : Type 0 where
  pub classes_unloaded : ℕ
  pub stack_frames : ℕ
  pub stack_traces : ℕ
  pub start_threads : ℕ
  pub end_threads : ℕ
  pub heap_summaries : ℕ
  pub heap_dumps : ℕ
  pub allocation_sites : ℕ
  pub control_settings : ℕ
  pub cpu_samples : ℕ

-- the GC tag counters, each without its prefix `heap_dump_segments_`,
pub record GcCounters : Type 0 where
  pub all_sub_records : ℕ
  pub gc_root_unknown : ℕ
  pub gc_root_thread_object : ℕ
  pub gc_root_jni_global : ℕ
  pub gc_root_jni_local : ℕ
  pub gc_root_java_frame : ℕ
  pub gc_root_native_stack : ℕ
  pub gc_root_sticky_class : ℕ
  pub gc_root_thread_block : ℕ
  pub gc_root_monitor_used : ℕ
  pub gc_object_array_dump : ℕ
  pub gc_instance_dump : ℕ
  pub gc_primitive_array_dump : ℕ
  pub gc_class_dump : ℕ

-- the captured state,
pub record Captured : Type 0 where
  pub utf8_strings_by_id : AHashMap ℕ Bytes
  pub class_data : List LoadClassData
  pub class_data_by_id : AHashMap ℕ ℕ
  pub class_data_by_serial_number : AHashMap ℕ ℕ
  pub classes_single_instance_size_by_id : AHashMap ℕ ClassInfo
  pub classes_all_instance_total_size_by_id : AHashMap ℕ ClassInstanceCounter
  pub primitive_array_counters : AHashMap FieldType ArrayCounter
  pub object_array_counters : AHashMap ℕ ArrayCounter
  pub stack_trace_by_serial_number : AHashMap ℕ StackTraceData
  pub stack_frame_by_id : AHashMap ℕ StackFrameData

-- and the parameters.
pub record ResultRecorder : Type 0 where
  pub id_size : ℕ
  pub list_strings : Bool
  pub timestamp : ℕ
  pub tags : TagCounters
  pub gc : GcCounters
  pub captured : Captured

abbrev pub nothing_captured : Captured
nothing_captured = record {
  utf8_strings_by_id = [];
  class_data = [];
  class_data_by_id = [];
  class_data_by_serial_number = [];
  classes_single_instance_size_by_id = [];
  classes_all_instance_total_size_by_id = [];
  primitive_array_counters = [];
  object_array_counters = [];
  stack_trace_by_serial_number = [];
  stack_frame_by_id = [];
}

abbrev pub new : ℕ → Bool → ℕ → ResultRecorder
new id_size list_strings timestamp = record {
  id_size = id_size;
  list_strings = list_strings;
  timestamp = timestamp;
  tags = record {
    classes_unloaded = 0;
    stack_frames = 0;
    stack_traces = 0;
    start_threads = 0;
    end_threads = 0;
    heap_summaries = 0;
    heap_dumps = 0;
    allocation_sites = 0;
    control_settings = 0;
    cpu_samples = 0;
  };
  gc = record {
    all_sub_records = 0;
    gc_root_unknown = 0;
    gc_root_thread_object = 0;
    gc_root_jni_global = 0;
    gc_root_jni_local = 0;
    gc_root_java_frame = 0;
    gc_root_native_stack = 0;
    gc_root_sticky_class = 0;
    gc_root_thread_block = 0;
    gc_root_monitor_used = 0;
    gc_object_array_dump = 0;
    gc_instance_dump = 0;
    gc_primitive_array_dump = 0;
    gc_class_dump = 0;
  };
  captured = nothing_captured;
}
