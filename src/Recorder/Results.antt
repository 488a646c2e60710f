-- ===== src/Recorder/Results.antt =====
-- src/result_recorder.rs: what `record_records` leaves, from `new` on, and the lookups of it.
use hprof_slurp.Prelude.{ℕ, ◌≡◌, ap, ◌∙◌, fun_ext, Bool, Option, some, ◌>>=◌, List, All}
use hprof_slurp.Nom.{Bytes}
use hprof_slurp.Parser.GcRecord.{FieldType}
use hprof_slurp.Parser.Record.{Record, LoadClassData, StackFrameData}
use hprof_slurp.Format.Fields.{IsIdSize}
use hprof_slurp.Recorder.AHashMap.{get, number, field_type}
use hprof_slurp.Recorder.State.{ResultRecorder, nothing_captured, new}
use hprof_slurp.Recorder.Records.{record_records}
use hprof_slurp.Recorder.Events.{Event, events, captures, Recordable}
use hprof_slurp.Recorder.Captures.{record_records-captures}
use hprof_slurp.Recorder.Summary.{pick}
use hprof_slurp.Recorder.Measures.{last, head, counted, measured}
use hprof_slurp.Recorder.Lookups.{
  string_of, frame_of, trace_of, info_of, instance_at, object_array_at, primitive_array_at,
}
use hprof_slurp.Recorder.Lookups.Kept.{get_string, get_frame, get_trace, get_info}
use hprof_slurp.Recorder.Lookups.Counted.{get_instances, get_object_arrays, get_primitive_arrays}
use hprof_slurp.Recorder.Classes.{
  class_of, find_class, find_class_lem, class_data_by_id-IsIndex,
  class_data_by_serial_number-IsIndex,
}

-- The name that `get_class_name_string` finds, in the notation of the class file.
abbrev pub find_class_name : ResultRecorder → ℕ → Option Bytes
find_class_name s class_id = do
  class_data ← find_class (λ c. c.class_data_by_id) s.captured class_id
  get number class_data.class_name_id s.captured.utf8_strings_by_id

-- The class of a stack frame, as `render_thread_info` looks it up.
abbrev pub find_frame_class : ResultRecorder → StackFrameData → Option LoadClassData
find_frame_class s stack_frame =
    find_class (λ c. c.class_data_by_serial_number) s.captured stack_frame.class_serial_number

module _ (id_size timestamp : ℕ) (list_strings : Bool) (rs : List Record) (hn : IsIdSize id_size)
    (h : All Recordable rs) where
  abbrev es : List Event
  es = events id_size rs

  left :
      (s' : ResultRecorder) × (record_records (new id_size list_strings timestamp) rs ≡ some s')
      × (s'.captured ≡ captures nothing_captured es)
  left =
      let (s', e, n, c) = record_records-captures (new id_size list_strings timestamp) rs hn h in
      (s', e, c)

  -- For an id size of 4 or 8 and records whose counts fit 32 bits and whose primitive arrays hold
  -- no objects, `record_records` does not panic from a new recorder on. Then each id has the last
  -- string that came in for it, each stack frame id its last frame, and each serial number its
  -- last stack trace.
  pub recorded_last :
      (s' : ResultRecorder) × (record_records (new id_size list_strings timestamp) rs ≡ some s')
      × ((k : ℕ)
          → (get number k s'.captured.utf8_strings_by_id
              ≡ last (pick (string_of k) (events id_size rs)))
            × (get number k s'.captured.stack_frame_by_id
                ≡ last (pick (frame_of k) (events id_size rs)))
            × (get number k s'.captured.stack_trace_by_serial_number
                ≡ last (pick (trace_of k) (events id_size rs))))
  recorded_last =
      let (s', e, c) = left in
      (
        s',
        e,
        λ k. (
          ap (λ x. get number k x.utf8_strings_by_id) c ∙ get_string es k,
          ap (λ x. get number k x.stack_frame_by_id) c ∙ get_frame es k,
          ap (λ x. get number k x.stack_trace_by_serial_number) c ∙ get_trace es k,
        ),
      )

  -- For an id size of 4 or 8 and records whose counts fit 32 bits and whose primitive arrays hold
  -- no objects, `record_records` does not panic from a new recorder on. Then the name found for a
  -- class is the last string with the name id of the last class that was loaded with its id, and
  -- the class found for a stack frame is the last one that was loaded with its serial number: no
  -- index leads to another class or out of range.
  pub recorded_class_names :
      (s' : ResultRecorder) × (record_records (new id_size list_strings timestamp) rs ≡ some s')
      × ((k : ℕ)
          → find_class_name s' k ≡ (
              last (pick (class_of (λ d. d.class_object_id) k) (events id_size rs)) >>= λ d.
              last (pick (string_of d.class_name_id) (events id_size rs))))
      × ((f : StackFrameData)
          → find_frame_class s' f
            ≡ last
                (pick (class_of (λ d. d.serial_number) f.class_serial_number) (events id_size rs)))
  recorded_class_names =
      let (s', e, c) = left in
      (
        s',
        e,
        λ k.
            rw (c, find_class_lem class_data_by_id-IsIndex es k)
              (ap (λ g. last (pick (class_of (λ d. d.class_object_id) k) es) >>= g)
                (fun_ext λ d. get_string es d.class_name_id)),
        λ f.
            ap (λ x. find_class (λ c'. c'.class_data_by_serial_number) x f.class_serial_number) c
            ∙ find_class_lem class_data_by_serial_number-IsIndex es f.class_serial_number,
      )

  -- For an id size of 4 or 8 and records whose counts fit 32 bits and whose primitive arrays hold
  -- no objects, `record_records` does not panic from a new recorder on. Then each class has the
  -- number of its instances, and each class of object arrays and each type of primitive arrays
  -- has the number, the largest and the total size of its arrays, numbers and totals in 64 bits;
  -- what has none has no entry.
  pub recorded_counts :
      (s' : ResultRecorder) × (record_records (new id_size list_strings timestamp) rs ≡ some s')
      × ((k : ℕ)
          → (get number k s'.captured.classes_all_instance_total_size_by_id
              ≡ counted (pick (instance_at k) (events id_size rs)))
            × (get number k s'.captured.object_array_counters
                ≡ measured (pick (object_array_at k) (events id_size rs))))
      × ((t : FieldType)
          → get field_type t s'.captured.primitive_array_counters
            ≡ measured (pick (primitive_array_at t) (events id_size rs)))
  recorded_counts =
      let (s', e, c) = left in
      (
        s',
        e,
        λ k. (
          ap (λ x. get number k x.classes_all_instance_total_size_by_id) c ∙ get_instances es k,
          ap (λ x. get number k x.object_array_counters) c ∙ get_object_arrays es k,
        ),
        λ t. ap (λ x. get field_type t x.primitive_array_counters) c ∙ get_primitive_arrays es t,
      )

  -- For an id size of 4 or 8 and records whose counts fit 32 bits and whose primitive arrays hold
  -- no objects, `record_records` does not panic from a new recorder on. Then each class has the
  -- fields and the super class of its first class dump.
  pub recorded_infos :
      (s' : ResultRecorder) × (record_records (new id_size list_strings timestamp) rs ≡ some s')
      × ((k : ℕ)
          → get number k s'.captured.classes_single_instance_size_by_id
            ≡ head (pick (info_of k) (events id_size rs)))
  recorded_infos =
      let (s', e, c) = left in
      (s', e, λ k. ap (λ x. get number k x.classes_single_instance_size_by_id) c ∙ get_info es k)
