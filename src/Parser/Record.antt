-- ===== src/Parser/Record.antt =====
-- src/parser/record.rs: the top-level records of a dump. Text is kept as the bytes of its UTF-8 form.
use hprof_slurp.Prelude.{ℕ, ℤ, List}
use hprof_slurp.Nom.{Bytes}
use hprof_slurp.Parser.GcRecord.{GcRecord}

pub record RecordHeader : Type 0 where
  pub timestamp : ℕ
  pub length : ℕ

pub record AllocationSite : Type 0 where
  pub is_array : ℕ
  pub class_serial_number : ℕ
  pub stack_trace_serial_number : ℕ
  pub bytes_alive : ℕ
  pub instances_alive : ℕ
  pub bytes_allocated : ℕ
  pub instances_allocated : ℕ

pub record CpuSample : Type 0 where
  pub number_of_samples : ℕ
  pub stack_trace_serial_number : ℕ

pub record StackFrameData : Type 0 where
  pub stack_frame_id : ℕ
  pub method_name_id : ℕ
  pub method_signature_id : ℕ
  pub source_file_name_id : ℕ
  pub class_serial_number : ℕ
  pub line_number : ℤ

pub record StackTraceData : Type 0 where
  pub serial_number : ℕ
  pub thread_serial_number : ℕ
  pub number_of_frames : ℕ
  pub stack_frame_ids : List ℕ

pub record LoadClassData : Type 0 where
  pub serial_number : ℕ
  pub class_object_id : ℕ
  pub stack_trace_serial_number : ℕ
  pub class_name_id : ℕ

pub data Record : Type 0 where
  utf8_string : (string_id : ℕ) (str : Bytes) → Record
  load_class : LoadClassData → Record
  unload_class : (serial_number : ℕ) → Record
  stack_frame : StackFrameData → Record
  stack_trace : StackTraceData → Record
  allocation_sites :
      (flags cutoff_ratio total_live_bytes total_live_instances : ℕ)
      (total_bytes_allocated total_instances_allocated number_of_sites : ℕ)
      → List AllocationSite
      → Record
  start_thread :
      (thread_serial_number thread_object_id stack_trace_serial_number : ℕ)
      (thread_name_id thread_group_name_id thread_group_parent_name_id : ℕ)
      → Record
  end_thread : (thread_serial_number : ℕ) → Record
  heap_summary :
      (total_live_bytes total_live_instances : ℕ)
      (total_bytes_allocated total_instances_allocated : ℕ)
      → Record
  heap_dump_start : (length : ℕ) → Record
  heap_dump_end : (length : ℕ) → Record
  control_settings : (flags stack_trace_depth : ℕ) → Record
  cpu_samples : (total_number_of_samples number_of_traces : ℕ) → List CpuSample → Record
  gc_segment : GcRecord → Record
