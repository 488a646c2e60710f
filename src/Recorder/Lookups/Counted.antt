-- ===== src/Recorder/Lookups/Counted.antt =====
-- What the counters of src/result_recorder.rs hold of instances and arrays.
use hprof_slurp.Prelude.{ℕ, ◌≡◌, refl, List, []}
use hprof_slurp.Parser.GcRecord.{FieldType}
use hprof_slurp.Recorder.AHashMap.{get, number, field_type}
use hprof_slurp.Recorder.State.{
  Captured, no_instances, add_instance, no_arrays, add_array, nothing_captured,
}
use hprof_slurp.Recorder.Records.{or_insert_with}
use hprof_slurp.Recorder.Events.{
  Event, string, class, frame, trace, instance_of, object_array, primitive_array, dumped, other,
  capture, captures,
}
use hprof_slurp.Recorder.Measures.{counted, measured, counted-append, measured-append}
use hprof_slurp.Recorder.Summary.{pick, put, get-upsert-put, captures_summary}
use hprof_slurp.Recorder.Lookups.{instance_at, object_array_at, primitive_array_at}

-- A class that has instances has their number.
pub get_instances :
    (es : List Event) (k : ℕ)
    → get number k (captures nothing_captured es).classes_all_instance_total_size_by_id
      ≡ counted (pick (instance_at k) es)
get_instances es k =
    captures_summary (λ c. get number k c.classes_all_instance_total_size_by_id) (λ _. Unit {0})
      (instance_at k) counted (λ _. or_insert_with no_instances add_instance) step (λ _ _ _. tt)
      counted-append nothing_captured es [] tt refl
  where
    step :
        (c : Captured) (e : Event)
        → Unit {0}
        → get number k (capture c e).classes_all_instance_total_size_by_id
          ≡ put
              (λ _. or_insert_with no_instances add_instance)
              (instance_at k e)
              (get number k c.classes_all_instance_total_size_by_id)
    step c (string _ _) _ = refl
    step c (class _) _ = refl
    step c (frame _) _ = refl
    step c (trace _) _ = refl
    step c (instance_of id) _ =
        get-upsert-put number id k (λ _. or_insert_with no_instances add_instance) tt
          c.classes_all_instance_total_size_by_id
    step c (object_array _ _) _ = refl
    step c (primitive_array _ _) _ = refl
    step c (dumped _ _) _ = refl
    step c other _ = refl

-- A class of object arrays has what its arrays measure.
pub get_object_arrays :
    (es : List Event) (k : ℕ)
    → get number k (captures nothing_captured es).object_array_counters
      ≡ measured (pick (object_array_at k) es)
get_object_arrays es k =
    captures_summary (λ c. get number k c.object_array_counters) (λ _. Unit {0}) (object_array_at k)
      measured (λ n. or_insert_with no_arrays (add_array n)) step (λ _ _ _. tt) measured-append
      nothing_captured es [] tt refl
  where
    step :
        (c : Captured) (e : Event)
        → Unit {0}
        → get number k (capture c e).object_array_counters
          ≡ put
              (λ n. or_insert_with no_arrays (add_array n))
              (object_array_at k e)
              (get number k c.object_array_counters)
    step c (string _ _) _ = refl
    step c (class _) _ = refl
    step c (frame _) _ = refl
    step c (trace _) _ = refl
    step c (instance_of _) _ = refl
    step c (object_array id size) _ =
        get-upsert-put number id k (λ n. or_insert_with no_arrays (add_array n)) size
          c.object_array_counters
    step c (primitive_array _ _) _ = refl
    step c (dumped _ _) _ = refl
    step c other _ = refl

-- A type of primitive arrays has what its arrays measure.
pub get_primitive_arrays :
    (es : List Event) (k : FieldType)
    → get field_type k (captures nothing_captured es).primitive_array_counters
      ≡ measured (pick (primitive_array_at k) es)
get_primitive_arrays es k =
    captures_summary (λ c. get field_type k c.primitive_array_counters) (λ _. Unit {0})
      (primitive_array_at k) measured (λ n. or_insert_with no_arrays (add_array n)) step
      (λ _ _ _. tt) measured-append nothing_captured es [] tt refl
  where
    step :
        (c : Captured) (e : Event)
        → Unit {0}
        → get field_type k (capture c e).primitive_array_counters
          ≡ put
              (λ n. or_insert_with no_arrays (add_array n))
              (primitive_array_at k e)
              (get field_type k c.primitive_array_counters)
    step c (string _ _) _ = refl
    step c (class _) _ = refl
    step c (frame _) _ = refl
    step c (trace _) _ = refl
    step c (instance_of _) _ = refl
    step c (object_array _ _) _ = refl
    step c (primitive_array t size) _ =
        get-upsert-put field_type t k (λ n. or_insert_with no_arrays (add_array n)) size
          c.primitive_array_counters
    step c (dumped _ _) _ = refl
    step c other _ = refl
