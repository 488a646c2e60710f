-- ===== src/Parser/Tags.antt =====
-- src/parser/record_parser.rs: the tag bytes of records and of heap dump sub-records.
use hprof_slurp.Prelude.{ℕ}

abbrev pub tag_string : ℕ
tag_string = 0x01

abbrev pub tag_load_class : ℕ
tag_load_class = 0x02

abbrev pub tag_unload_class : ℕ
tag_unload_class = 0x03

abbrev pub tag_stack_frame : ℕ
tag_stack_frame = 0x04

abbrev pub tag_stack_trace : ℕ
tag_stack_trace = 0x05

abbrev pub tag_alloc_sites : ℕ
tag_alloc_sites = 0x06

abbrev pub tag_heap_summary : ℕ
tag_heap_summary = 0x07

abbrev pub tag_start_thread : ℕ
tag_start_thread = 0x0a

abbrev pub tag_end_thread : ℕ
tag_end_thread = 0x0b

abbrev pub tag_heap_dump : ℕ
tag_heap_dump = 0x0c

abbrev pub tag_heap_dump_segment : ℕ
tag_heap_dump_segment = 0x1c

abbrev pub tag_heap_dump_end : ℕ
tag_heap_dump_end = 0x2c

abbrev pub tag_control_setting : ℕ
tag_control_setting = 0x0e

abbrev pub tag_cpu_samples : ℕ
tag_cpu_samples = 0x0d

abbrev pub tag_gc_root_unknown : ℕ
tag_gc_root_unknown = 0xff

abbrev pub tag_gc_root_jni_global : ℕ
tag_gc_root_jni_global = 0x01

abbrev pub tag_gc_root_jni_local : ℕ
tag_gc_root_jni_local = 0x02

abbrev pub tag_gc_root_java_frame : ℕ
tag_gc_root_java_frame = 0x03

abbrev pub tag_gc_root_native_stack : ℕ
tag_gc_root_native_stack = 0x04

abbrev pub tag_gc_root_sticky_class : ℕ
tag_gc_root_sticky_class = 0x05

abbrev pub tag_gc_root_thread_block : ℕ
tag_gc_root_thread_block = 0x06

abbrev pub tag_gc_root_monitor_used : ℕ
tag_gc_root_monitor_used = 0x07

abbrev pub tag_gc_root_thread_obj : ℕ
tag_gc_root_thread_obj = 0x08

abbrev pub tag_gc_class_dump : ℕ
tag_gc_class_dump = 0x20

abbrev pub tag_gc_instance_dump : ℕ
tag_gc_instance_dump = 0x21

abbrev pub tag_gc_obj_array_dump : ℕ
tag_gc_obj_array_dump = 0x22

abbrev pub tag_gc_prim_array_dump : ℕ
tag_gc_prim_array_dump = 0x23

abbrev pub tag_gc_root_interned_string : ℕ
tag_gc_root_interned_string = 0x89

abbrev pub tag_gc_root_finalizing : ℕ
tag_gc_root_finalizing = 0x8a

abbrev pub tag_gc_root_debugger : ℕ
tag_gc_root_debugger = 0x8b

abbrev pub tag_gc_root_reference_cleanup : ℕ
tag_gc_root_reference_cleanup = 0x8c

abbrev pub tag_gc_root_vm_internal : ℕ
tag_gc_root_vm_internal = 0x8d

abbrev pub tag_gc_root_jni_monitor : ℕ
tag_gc_root_jni_monitor = 0x8e

abbrev pub tag_gc_unreachable : ℕ
tag_gc_unreachable = 0x90

abbrev pub tag_gc_prim_array_nodata_dump : ℕ
tag_gc_prim_array_nodata_dump = 0xc3

abbrev pub tag_gc_heap_dump_info : ℕ
tag_gc_heap_dump_info = 0xfe
