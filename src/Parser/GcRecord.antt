-- ===== src/Parser/GcRecord.antt =====
-- src/parser/gc_record.rs: the sub-records of a heap dump segment. A `u64`, `u32` or `u16` is a
-- number, a signed integer a `ℤ`, and a float its bit pattern.
use hprof_slurp.Prelude.{ℕ, Bool, ℤ, pos, negsuc, Option, none, some, List, ◌==◌, if◌then◌else◌}

pub data FieldType : Type 0 where
  object bool char float double byte short int long : FieldType

-- `none` is the panic "FieldType {x} not found".
unfoldable pub from_value : ℤ → Option FieldType
from_value (negsuc v) = none
from_value (pos v) =
    if v == 2
    then some object
    else if v == 4
    then some bool
    else if v == 5
    then some char
    else if v == 6
    then some float
    else if v == 7
    then some double
    else if v == 8
    then some byte
    else if v == 9
    then some short
    else if v == 10
    then some int
    else if v == 11
    then some long
    else none

pub record ConstFieldInfo : Type 0 where
  pub const_pool_idx : ℕ
  pub const_type : FieldType

pub record FieldInfo : Type 0 where
  pub name_id : ℕ
  pub field_type : FieldType

pub data FieldValue : Type 0 where
  bool : Bool → FieldValue
  byte : ℤ → FieldValue
  char : ℕ → FieldValue
  short : ℤ → FieldValue
  int : ℤ → FieldValue
  long : ℤ → FieldValue
  float : ℕ → FieldValue
  double : ℕ → FieldValue
  object : ℕ → FieldValue

pub data ArrayValue : Type 0 where
  bool : List Bool → ArrayValue
  byte : List ℤ → ArrayValue
  char : List ℕ → ArrayValue
  short : List ℤ → ArrayValue
  int : List ℤ → ArrayValue
  long : List ℤ → ArrayValue
  float : List ℕ → ArrayValue
  double : List ℕ → ArrayValue

pub record ClassDumpFields : Type 0 where
  pub class_object_id : ℕ
  pub stack_trace_serial_number : ℕ
  pub super_class_object_id : ℕ
  pub instance_size : ℕ
  pub const_fields : List (ConstFieldInfo × FieldValue)
  pub static_fields : List (FieldInfo × FieldValue)
  pub instance_fields : List FieldInfo

pub data GcRecord : Type 0 where
  root_unknown : (object_id : ℕ) → GcRecord
  root_thread_object :
      (thread_object_id thread_sequence_number stack_sequence_number : ℕ) → GcRecord
  root_jni_global : (object_id jni_global_ref_id : ℕ) → GcRecord
  root_jni_local : (object_id thread_serial_number frame_number_in_stack_trace : ℕ) → GcRecord
  root_java_frame : (object_id thread_serial_number frame_number_in_stack_trace : ℕ) → GcRecord
  root_native_stack : (object_id thread_serial_number : ℕ) → GcRecord
  root_sticky_class : (object_id : ℕ) → GcRecord
  root_thread_block : (object_id thread_serial_number : ℕ) → GcRecord
  root_monitor_used : (object_id : ℕ) → GcRecord
  root_interned_string : (object_id : ℕ) → GcRecord
  root_finalizing : (object_id : ℕ) → GcRecord
  root_debugger : (object_id : ℕ) → GcRecord
  root_reference_cleanup : (object_id : ℕ) → GcRecord
  root_vm_internal : (object_id : ℕ) → GcRecord
  root_jni_monitor : (object_id thread_serial_number frame_number_in_stack_trace : ℕ) → GcRecord
  unreachable : (object_id : ℕ) → GcRecord
  heap_dump_info : (heap_type heap_name_id : ℕ) → GcRecord
  primitive_array_no_data_dump :
      (object_id stack_trace_serial_number number_of_elements : ℕ) (element_type : FieldType)
      → GcRecord
  instance_dump : (object_id stack_trace_serial_number class_object_id data_size : ℕ) → GcRecord
  object_array_dump :
      (object_id stack_trace_serial_number number_of_elements array_class_id : ℕ) → GcRecord
  primitive_array_dump :
      (object_id stack_trace_serial_number number_of_elements : ℕ) (element_type : FieldType)
      → GcRecord
  class_dump : ClassDumpFields → GcRecord
