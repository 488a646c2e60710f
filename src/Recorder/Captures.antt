-- ===== src/Recorder/Captures.antt =====
-- `record_records` of src/result_recorder.rs does not panic, and captures what the events say.
use mathlib.Core.List.{map}
use hprof_slurp.Prelude.{
  ◌%◌, ◌≤◌, subst, sym, ℕ, ◌+◌, ◌*◌, ◌^◌, ◌<◌, ◌≡◌, refl, ap, ◌∙◌, Option, some, List, [], ◌∷◌, All,
  arith, ◌≢◌, inl, inr,
}
use hprof_slurp.Parser.GcRecord.{
  GcRecord, FieldInfo, FieldType, object, bool, char, float, double, byte, short, int, long,
  root_unknown, root_thread_object, root_jni_global, root_jni_local, root_java_frame,
  root_native_stack, root_sticky_class, root_thread_block, root_monitor_used, root_interned_string,
  root_finalizing, root_debugger, root_reference_cleanup, root_vm_internal, root_jni_monitor,
  unreachable, heap_dump_info, primitive_array_no_data_dump, instance_dump, object_array_dump,
  primitive_array_dump, class_dump,
}
use hprof_slurp.Parser.Record.{
  Record, utf8_string, load_class, unload_class, stack_frame, stack_trace, allocation_sites,
  start_thread, end_thread, heap_summary, heap_dump_start, heap_dump_end, control_settings,
  cpu_samples, gc_segment,
}
use hprof_slurp.Format.Fields.{IsIdSize}
use hprof_slurp.Recorder.Sizes.{
  next_multiple_of, object_align, array_header_size, primitive_byte_size, object_array_size,
  primitive_array_size,
}
use hprof_slurp.Recorder.State.{ResultRecorder}
use hprof_slurp.Recorder.Records.{field_types, record_gc, record_one, record_records}
use hprof_slurp.Recorder.Events.{
  Event, gc_event, event_of, events, capture, captures, Recordable, RecordableGc, padded,
  header_bytes, element_bytes,
}

next_multiple_of_lem : (n : ℕ) → n < 2 ^ 64 → next_multiple_of (n % 2 ^ 64) object_align ≡ padded n
next_multiple_of_lem n h = ground arith

array_header_size_lem : (n : ℕ) → IsIdSize n → array_header_size n ≡ some (header_bytes n)
array_header_size_lem n (inl e) = rw e refl
array_header_size_lem n (inr e) = rw e refl

primitive_byte_size_lem :
    (t : FieldType) → t ≢ object → primitive_byte_size t ≡ some (element_bytes t)
primitive_byte_size_lem object h = absurd (h refl)
primitive_byte_size_lem bool h = refl
primitive_byte_size_lem char h = refl
primitive_byte_size_lem float h = refl
primitive_byte_size_lem double h = refl
primitive_byte_size_lem byte h = refl
primitive_byte_size_lem short h = refl
primitive_byte_size_lem int h = refl
primitive_byte_size_lem long h = refl

element_bytes-le : (t : FieldType) (k : ℕ) → element_bytes t * k ≤ 8 * k
element_bytes-le object k = omega arith
element_bytes-le bool k = omega arith
element_bytes-le char k = omega arith
element_bytes-le float k = omega arith
element_bytes-le double k = omega arith
element_bytes-le byte k = omega arith
element_bytes-le short k = omega arith
element_bytes-le int k = omega arith
element_bytes-le long k = omega arith

object_array_size_lem :
    (n k : ℕ)
    → IsIdSize n
    → k < 2 ^ 32
    → object_array_size n k ≡ some (padded (header_bytes n + n * k))
object_array_size_lem n k (inl e) h = rw e (ap some (ground arith))
object_array_size_lem n k (inr e) h = rw e (ap some (ground arith))

primitive_array_size_lem :
    (n k : ℕ) (t : FieldType)
    → IsIdSize n
    → (k < 2 ^ 32) × (t ≢ object)
    → primitive_array_size n t k ≡ some (padded (header_bytes n + element_bytes t * k))
primitive_array_size_lem n k t hn h =
    let bound = element_bytes-le t k in
    rw (array_header_size_lem n hn, primitive_byte_size_lem t h.1)
      (ap some (next_multiple_of_lem _ (ground (arith, bound))))

field_types-map : (fs : List FieldInfo) → field_types fs ≡ map (λ f. f.field_type) fs
field_types-map [] = refl
field_types-map (f ∷ fs) = ap (λ ts. f.field_type ∷ ts) (field_types-map fs)

-- What a step has to do, when its record is `e`.
abbrev pub Captures : ResultRecorder → Event → Option ResultRecorder → Type 0
Captures s e outcome =
    (s' : ResultRecorder) × (outcome ≡ some s')
    × (s'.id_size ≡ s.id_size)
    × (s'.captured ≡ capture s.captured e)

record_gc-Captures :
    (s : ResultRecorder) (g : GcRecord)
    → IsIdSize s.id_size
    → RecordableGc g
    → Captures s (gc_event s.id_size g) (record_gc s g)
unfolding record_gc
record_gc-Captures s (root_unknown _) hn h = (_, refl, refl, refl)
record_gc-Captures s (root_thread_object _ _ _) hn h = (_, refl, refl, refl)
record_gc-Captures s (root_jni_global _ _) hn h = (_, refl, refl, refl)
record_gc-Captures s (root_jni_local _ _ _) hn h = (_, refl, refl, refl)
record_gc-Captures s (root_java_frame _ _ _) hn h = (_, refl, refl, refl)
record_gc-Captures s (root_native_stack _ _) hn h = (_, refl, refl, refl)
record_gc-Captures s (root_sticky_class _) hn h = (_, refl, refl, refl)
record_gc-Captures s (root_thread_block _ _) hn h = (_, refl, refl, refl)
record_gc-Captures s (root_monitor_used _) hn h = (_, refl, refl, refl)
record_gc-Captures s (root_interned_string _) hn h = (_, refl, refl, refl)
record_gc-Captures s (root_finalizing _) hn h = (_, refl, refl, refl)
record_gc-Captures s (root_debugger _) hn h = (_, refl, refl, refl)
record_gc-Captures s (root_reference_cleanup _) hn h = (_, refl, refl, refl)
record_gc-Captures s (root_vm_internal _) hn h = (_, refl, refl, refl)
record_gc-Captures s (root_jni_monitor _ _ _) hn h = (_, refl, refl, refl)
record_gc-Captures s (unreachable _) hn h = (_, refl, refl, refl)
record_gc-Captures s (heap_dump_info _ _) hn h = (_, refl, refl, refl)
record_gc-Captures s (primitive_array_no_data_dump _ _ _ _) hn h = (_, refl, refl, refl)
record_gc-Captures s (instance_dump _ _ _ _) hn h = (_, refl, refl, refl)
record_gc-Captures s (class_dump c) hn h =
    rw (← field_types-map c.instance_fields) (_, refl, refl, refl)
record_gc-Captures s (object_array_dump _ _ n _) hn h =
    rw (object_array_size_lem s.id_size n hn h, record_gc) (_, refl, refl, refl)
record_gc-Captures s (primitive_array_dump _ _ n t) hn h =
    rw (primitive_array_size_lem s.id_size n t hn h, record_gc) (_, refl, refl, refl)

record_one-Captures :
    (s : ResultRecorder) (r : Record)
    → IsIdSize s.id_size
    → Recordable r
    → Captures s (event_of s.id_size r) (record_one s r)
unfolding record_one
record_one-Captures s (utf8_string _ _) hn h = (_, refl, refl, refl)
record_one-Captures s (load_class _) hn h = (_, refl, refl, refl)
record_one-Captures s (unload_class _) hn h = (_, refl, refl, refl)
record_one-Captures s (stack_frame _) hn h = (_, refl, refl, refl)
record_one-Captures s (stack_trace _) hn h = (_, refl, refl, refl)
record_one-Captures s (allocation_sites _ _ _ _ _ _ _ _) hn h = (_, refl, refl, refl)
record_one-Captures s (start_thread _ _ _ _ _ _) hn h = (_, refl, refl, refl)
record_one-Captures s (end_thread _) hn h = (_, refl, refl, refl)
record_one-Captures s (heap_summary _ _ _ _) hn h = (_, refl, refl, refl)
record_one-Captures s (heap_dump_start _) hn h = (_, refl, refl, refl)
record_one-Captures s (heap_dump_end _) hn h = (_, refl, refl, refl)
record_one-Captures s (control_settings _ _) hn h = (_, refl, refl, refl)
record_one-Captures s (cpu_samples _ _ _) hn h = (_, refl, refl, refl)
record_one-Captures s (gc_segment g) hn h =
    let (s', e, n, c) = record_gc-Captures _ g hn h in (s', e, n, c)

-- For an id size of 4 or 8 and records whose counts fit 32 bits and whose primitive arrays hold
-- no objects, `record_records` does not panic, keeps the id size, and the state that it captures
-- is what the records' events leave, where an array's event holds its size, padded to 8 bytes.
pub record_records-captures :
    (s : ResultRecorder) (rs : List Record)
    → IsIdSize s.id_size
    → All Recordable rs
    → (s' : ResultRecorder) × (record_records s rs ≡ some s')
      × (s'.id_size ≡ s.id_size)
      × (s'.captured ≡ captures s.captured (events s.id_size rs))
unfolding record_records
record_records-captures s [] hn h = (s, refl, refl, refl)
record_records-captures s (r ∷ rs) hn h =
    let (s1, e1, n1, c1) = record_one-Captures s r hn h.0 in
    let (s', e, n, c) = record_records-captures s1 rs (subst IsIdSize (sym n1) hn) h.1 in
    (s', rw (e1, e), n ∙ n1, c ∙ rw (n1, c1) refl)
