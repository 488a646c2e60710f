-- ===== src/Recorder/Events.antt =====
-- What the recorder captures of src/result_recorder.rs: the event that each record is, without its
-- other contents, and what an event changes.
use mathlib.Core.List.{map}
use hprof_slurp.Prelude.{ℕ, ◌+◌, ◌*◌, ◌/◌, ◌^◌, ◌<◌, ◌==◌, if◌then◌else◌, List, [], ◌∷◌, ◌≢◌}
use hprof_slurp.Nom.{Bytes}
use hprof_slurp.Parser.GcRecord.{
  GcRecord, FieldType, object, bool, char, float, double, byte, short, int, long,
  primitive_array_no_data_dump, instance_dump, object_array_dump, primitive_array_dump, class_dump,
}
use hprof_slurp.Parser.Record.{
  Record, LoadClassData, StackFrameData, StackTraceData, utf8_string, load_class, stack_frame,
  stack_trace, gc_segment,
}
use hprof_slurp.Recorder.AHashMap.{number, field_type, insert, upsert}
use hprof_slurp.Recorder.State.{
  Captured, ClassInfo, no_instances, add_instance, no_arrays, add_array,
}
use hprof_slurp.Recorder.Records.{or_insert_with, capture_class}

pub data Event : Type 0 where
  string : (string_id : ℕ) (str : Bytes) → Event
  class : LoadClassData → Event
  frame : StackFrameData → Event
  trace : StackTraceData → Event
  instance_of : (class_id : ℕ) → Event
  object_array : (class_id size_bytes : ℕ) → Event
  primitive_array : (element_type : FieldType) (size_bytes : ℕ) → Event
  dumped : (class_id : ℕ) → ClassInfo → Event
  other : Event

-- The bytes of an array's header, and of one element.
abbrev pub header_bytes : ℕ → ℕ
header_bytes id_size = if id_size == 4 then 12 else 16

abbrev pub element_bytes : FieldType → ℕ
element_bytes object = 0
element_bytes byte = 1
element_bytes bool = 1
element_bytes char = 2
element_bytes short = 2
element_bytes float = 4
element_bytes int = 4
element_bytes double = 8
element_bytes long = 8

-- A size, padded to the alignment of objects.
abbrev pub padded : ℕ → ℕ
padded n = 8 * ((n + 7) / 8)

module _ (id_size : ℕ) where
  abbrev pub gc_event : GcRecord → Event
  gc_event (instance_dump _ _ class_id _) = instance_of class_id
  gc_event (object_array_dump _ _ n class_id) =
      object_array class_id (padded (header_bytes id_size + id_size * n))
  gc_event (primitive_array_dump _ _ n t) =
      primitive_array t (padded (header_bytes id_size + element_bytes t * n))
  gc_event (primitive_array_no_data_dump _ _ _ t) = primitive_array t 0
  gc_event (class_dump c) = dumped c.class_object_id (record {
    super_class_object_id = c.super_class_object_id;
    instance_field_types = map (λ f. f.field_type) c.instance_fields;
  })
  gc_event _ = other

  abbrev pub event_of : Record → Event
  event_of (utf8_string id str) = string id str
  event_of (load_class d) = class d
  event_of (stack_frame f) = frame f
  event_of (stack_trace t) = trace t
  event_of (gc_segment g) = gc_event g
  event_of _ = other

  abbrev pub events : List Record → List Event
  events [] = []
  events (r ∷ rs) = event_of r ∷ events rs

-- The counts fit a u32, and the elements of a primitive array are no objects, as the parser checks.
abbrev pub RecordableGc : GcRecord → Type 0
RecordableGc (object_array_dump _ _ n _) = n < 2 ^ 32
RecordableGc (primitive_array_dump _ _ n t) = (n < 2 ^ 32) × (t ≢ object)
RecordableGc _ = Unit

abbrev pub Recordable : Record → Type 0
Recordable (gc_segment g) = RecordableGc g
Recordable _ = Unit

abbrev pub capture : Captured → Event → Captured
capture c (string id str) = record c {
  utf8_strings_by_id = insert number id str c.utf8_strings_by_id;
}
capture c (class d) = capture_class c d
capture c (frame f) = record c {
  stack_frame_by_id = insert number f.stack_frame_id f c.stack_frame_by_id;
}
capture c (trace t) = record c {
  stack_trace_by_serial_number = insert number t.serial_number t c.stack_trace_by_serial_number;
}
capture c (instance_of class_id) = record c {
  classes_all_instance_total_size_by_id =
      upsert number class_id (or_insert_with no_instances add_instance)
        c.classes_all_instance_total_size_by_id;
}
capture c (object_array class_id size) = record c {
  object_array_counters =
      upsert number class_id (or_insert_with no_arrays (add_array size)) c.object_array_counters;
}
capture c (primitive_array t size) = record c {
  primitive_array_counters =
      upsert field_type t (or_insert_with no_arrays (add_array size)) c.primitive_array_counters;
}
capture c (dumped class_id info) = record c {
  classes_single_instance_size_by_id =
      upsert number class_id (or_insert_with info (λ i. i)) c.classes_single_instance_size_by_id;
}
capture c other = c

abbrev pub captures : Captured → List Event → Captured
captures c [] = c
captures c (e ∷ es) = captures (capture c e) es
