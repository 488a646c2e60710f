-- ===== src/Recorder/Lookups.antt =====
-- What the maps of src/result_recorder.rs hold under a key, in terms of the records that came in.
pub mod Kept
pub mod Counted
use hprof_slurp.Prelude.{ℕ, ◌≡◌, refl, Option, none, List, [], ◌==◌}
use hprof_slurp.Nom.{Bytes}
use hprof_slurp.Parser.GcRecord.{FieldType}
use hprof_slurp.Parser.Record.{StackFrameData, StackTraceData}
use hprof_slurp.Recorder.AHashMap.{get, number, field_type}
use hprof_slurp.Recorder.State.{
  Captured, ClassInfo, no_instances, add_instance, no_arrays, add_array, nothing_captured,
}
use hprof_slurp.Recorder.Records.{or_insert_with}
use hprof_slurp.Recorder.Events.{
  Event, string, class, frame, trace, instance_of, object_array, primitive_array, dumped, other,
  capture, captures,
}
use hprof_slurp.Recorder.Measures.{
  last, head, counted, measured, last-append, head-append, counted-append, measured-append,
}
use hprof_slurp.Recorder.Summary.{pick, when, put, get-upsert-put, captures_summary}

-- The strings with the id `k`, the classes with the object id `k`, and so on.
abbrev pub string_of : ℕ → Event → Option Bytes
string_of k (string id str) = when (id == k) str
string_of k _ = none

abbrev pub frame_of : ℕ → Event → Option StackFrameData
frame_of k (frame f) = when (f.stack_frame_id == k) f
frame_of k _ = none

abbrev pub trace_of : ℕ → Event → Option StackTraceData
trace_of k (trace t) = when (t.serial_number == k) t
trace_of k _ = none

abbrev pub info_of : ℕ → Event → Option ClassInfo
info_of k (dumped id info) = when (id == k) info
info_of k _ = none

abbrev pub instance_at : ℕ → Event → Option (Unit {0})
instance_at k (instance_of id) = when (id == k) tt
instance_at k _ = none

abbrev pub object_array_at : ℕ → Event → Option ℕ
object_array_at k (object_array id size) = when (id == k) size
object_array_at k _ = none

abbrev pub primitive_array_at : FieldType → Event → Option ℕ
primitive_array_at k (primitive_array t size) = when (field_type.same t k) size
primitive_array_at k _ = none
