-- ===== src/Tests/Recording.antt =====
-- A class with an instance and two arrays, recorded.
use hprof_slurp.Prelude.{ℕ, ◌≡◌, ◌≢◌, refl, inl, false, some, ◌>>=◌, List, [], ◌∷◌, All, arith}
use hprof_slurp.Parser.GcRecord.{
  FieldType, instance_dump, object_array_dump, primitive_array_dump, class_dump,
}
use hprof_slurp.Parser.Record.{
  Record, StackFrameData, utf8_string, load_class, heap_dump_start, gc_segment,
}
use hprof_slurp.Recorder.AHashMap.{get, number, field_type}
use hprof_slurp.Recorder.State.{ResultRecorder, new}
use hprof_slurp.Recorder.Records.{record_records, record_one}
use hprof_slurp.Recorder.Events.{events, Recordable}
use hprof_slurp.Recorder.SubCounts.{sub_counts}
use hprof_slurp.Recorder.SubCounts.Counted.{record_records-sub_counts}
use hprof_slurp.Recorder.Counts.{counts, record_records-counts}
use hprof_slurp.Recorder.Summary.{pick}
use hprof_slurp.Recorder.Measures.{last, head, counted, measured}
use hprof_slurp.Recorder.Lookups.{
  string_of, frame_of, trace_of, info_of, instance_at, object_array_at, primitive_array_at,
}
use hprof_slurp.Recorder.Classes.{class_of}
use hprof_slurp.Recorder.Results.{
  find_class_name, find_frame_class, recorded_last, recorded_class_names, recorded_counts,
  recorded_infos,
}

abbrev records : List Record
records =
    utf8_string 1 (65 ∷ [])
    ∷ load_class (record {
      serial_number = 5;
      class_object_id = 7;
      stack_trace_serial_number = 0;
      class_name_id = 1;
    })
    ∷ heap_dump_start 90
    ∷ gc_segment (
        class_dump (record {
          class_object_id = 7;
          stack_trace_serial_number = 0;
          super_class_object_id = 0;
          instance_size = 4;
          const_fields = [];
          static_fields = [];
          instance_fields = record { name_id = 1; field_type = FieldType.int } ∷ [];
        }))
    ∷ gc_segment (instance_dump 9 0 7 4)
    ∷ gc_segment (instance_dump 10 0 7 4)
    ∷ gc_segment (object_array_dump 11 0 3 7)
    ∷ gc_segment (primitive_array_dump 12 0 5 FieldType.int)
    ∷ []

int-ne-object : FieldType.int ≢ FieldType.object
int-ne-object e = cc e

records-Recordable : All Recordable records
records-Recordable =
    (tt, (tt, (tt, (tt, (tt, (tt, (omega arith, ((omega arith, int-ne-object), tt))))))))

-- The class has the name that was recorded, two instances, and one array of 24 bytes.
name_of_7 : (record_records (new 4 false 0) records >>= λ s. find_class_name s 7) ≡ some (65 ∷ [])
unfolding record_records record_one
name_of_7 = refl

arrays_of_7 :
    (record_records (new 4 false 0) records >>= λ s. get number 7 s.captured.object_array_counters)
    ≡ some (record { number_of_arrays = 1; max_size_bytes_seen = 24; total_size_bytes = 24 })
unfolding record_records record_one
arrays_of_7 = refl

recorded_last_example :
    (s' : ResultRecorder) × (record_records (new 4 false 0) records ≡ some s')
    × ((k : ℕ)
        → (get number k s'.captured.utf8_strings_by_id
            ≡ last (pick (string_of k) (events 4 records)))
          × (get number k s'.captured.stack_frame_by_id
              ≡ last (pick (frame_of k) (events 4 records)))
          × (get number k s'.captured.stack_trace_by_serial_number
              ≡ last (pick (trace_of k) (events 4 records))))
recorded_last_example = recorded_last 4 0 false records (inl refl) records-Recordable

recorded_class_names_example :
    (s' : ResultRecorder) × (record_records (new 4 false 0) records ≡ some s')
    × ((k : ℕ)
        → find_class_name s' k ≡ (
            last (pick (class_of (λ d. d.class_object_id) k) (events 4 records)) >>= λ d.
            last (pick (string_of d.class_name_id) (events 4 records))))
    × ((f : StackFrameData)
        → find_frame_class s' f
          ≡ last (pick (class_of (λ d. d.serial_number) f.class_serial_number) (events 4 records)))
recorded_class_names_example = recorded_class_names 4 0 false records (inl refl) records-Recordable

recorded_counts_example :
    (s' : ResultRecorder) × (record_records (new 4 false 0) records ≡ some s')
    × ((k : ℕ)
        → (get number k s'.captured.classes_all_instance_total_size_by_id
            ≡ counted (pick (instance_at k) (events 4 records)))
          × (get number k s'.captured.object_array_counters
              ≡ measured (pick (object_array_at k) (events 4 records))))
    × ((t : FieldType)
        → get field_type t s'.captured.primitive_array_counters
          ≡ measured (pick (primitive_array_at t) (events 4 records)))
recorded_counts_example = recorded_counts 4 0 false records (inl refl) records-Recordable

recorded_infos_example :
    (s' : ResultRecorder) × (record_records (new 4 false 0) records ≡ some s')
    × ((k : ℕ)
        → get number k s'.captured.classes_single_instance_size_by_id
          ≡ head (pick (info_of k) (events 4 records)))
recorded_infos_example = recorded_infos 4 0 false records (inl refl) records-Recordable

record_records-counts_example :
    (s' : ResultRecorder) × (record_records (new 4 false 0) records ≡ some s')
    × (s'.tags ≡ counts records)
record_records-counts_example =
    record_records-counts 4 0 false records (inl refl) records-Recordable

record_records-sub_counts_example :
    (s' : ResultRecorder) × (record_records (new 4 false 0) records ≡ some s')
    × (s'.gc ≡ sub_counts records)
record_records-sub_counts_example =
    record_records-sub_counts 4 0 false records (inl refl) records-Recordable
