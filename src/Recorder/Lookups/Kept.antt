-- ===== src/Recorder/Lookups/Kept.antt =====
-- The strings, stack frames, stack traces and class dumps that the maps of src/result_recorder.rs keep.
use hprof_slurp.Prelude.{ℕ, ◌≡◌, refl, List, []}
use hprof_slurp.Recorder.AHashMap.{get, number}
use hprof_slurp.Recorder.State.{Captured, nothing_captured}
use hprof_slurp.Recorder.Records.{or_insert_with}
use hprof_slurp.Recorder.Events.{
  Event, string, class, frame, trace, instance_of, object_array, primitive_array, dumped, other,
  capture, captures,
}
use hprof_slurp.Recorder.Measures.{last, head, last-append, head-append}
use hprof_slurp.Recorder.Summary.{pick, put, get-upsert-put, captures_summary}
use hprof_slurp.Recorder.Lookups.{string_of, frame_of, trace_of, info_of}

-- Of strings with one id, the last one that came in is kept.
pub get_string :
    (es : List Event) (k : ℕ)
    → get number k (captures nothing_captured es).utf8_strings_by_id ≡ last (pick (string_of k) es)
get_string es k =
    captures_summary (λ c. get number k c.utf8_strings_by_id) (λ _. Unit {0}) (string_of k) last
      (λ a _. a) step (λ _ _ _. tt) last-append nothing_captured es [] tt refl
  where
    step :
        (c : Captured) (e : Event)
        → Unit {0}
        → get number k (capture c e).utf8_strings_by_id
          ≡ put (λ a _. a) (string_of k e) (get number k c.utf8_strings_by_id)
    step c (string id str) _ = get-upsert-put number id k (λ a _. a) str c.utf8_strings_by_id
    step c (class _) _ = refl
    step c (frame _) _ = refl
    step c (trace _) _ = refl
    step c (instance_of _) _ = refl
    step c (object_array _ _) _ = refl
    step c (primitive_array _ _) _ = refl
    step c (dumped _ _) _ = refl
    step c other _ = refl

-- Of stack frames with one id, the last one is kept.
pub get_frame :
    (es : List Event) (k : ℕ)
    → get number k (captures nothing_captured es).stack_frame_by_id ≡ last (pick (frame_of k) es)
get_frame es k =
    captures_summary (λ c. get number k c.stack_frame_by_id) (λ _. Unit {0}) (frame_of k) last
      (λ a _. a) step (λ _ _ _. tt) last-append nothing_captured es [] tt refl
  where
    step :
        (c : Captured) (e : Event)
        → Unit {0}
        → get number k (capture c e).stack_frame_by_id
          ≡ put (λ a _. a) (frame_of k e) (get number k c.stack_frame_by_id)
    step c (string _ _) _ = refl
    step c (class _) _ = refl
    step c (frame f) _ = get-upsert-put number f.stack_frame_id k (λ a _. a) f c.stack_frame_by_id
    step c (trace _) _ = refl
    step c (instance_of _) _ = refl
    step c (object_array _ _) _ = refl
    step c (primitive_array _ _) _ = refl
    step c (dumped _ _) _ = refl
    step c other _ = refl

-- Of stack traces with one serial number, the last one is kept.
pub get_trace :
    (es : List Event) (k : ℕ)
    → get number k (captures nothing_captured es).stack_trace_by_serial_number
      ≡ last (pick (trace_of k) es)
get_trace es k =
    captures_summary (λ c. get number k c.stack_trace_by_serial_number) (λ _. Unit {0}) (trace_of k)
      last (λ a _. a) step (λ _ _ _. tt) last-append nothing_captured es [] tt refl
  where
    step :
        (c : Captured) (e : Event)
        → Unit {0}
        → get number k (capture c e).stack_trace_by_serial_number
          ≡ put (λ a _. a) (trace_of k e) (get number k c.stack_trace_by_serial_number)
    step c (string _ _) _ = refl
    step c (class _) _ = refl
    step c (frame _) _ = refl
    step c (trace t) _ =
        get-upsert-put number t.serial_number k (λ a _. a) t c.stack_trace_by_serial_number
    step c (instance_of _) _ = refl
    step c (object_array _ _) _ = refl
    step c (primitive_array _ _) _ = refl
    step c (dumped _ _) _ = refl
    step c other _ = refl

-- Of class dumps with one class id, the first one is kept.
pub get_info :
    (es : List Event) (k : ℕ)
    → get number k (captures nothing_captured es).classes_single_instance_size_by_id
      ≡ head (pick (info_of k) es)
get_info es k =
    captures_summary (λ c. get number k c.classes_single_instance_size_by_id) (λ _. Unit {0})
      (info_of k) head (λ a. or_insert_with a (λ i. i)) step (λ _ _ _. tt) head-append
      nothing_captured es [] tt refl
  where
    step :
        (c : Captured) (e : Event)
        → Unit {0}
        → get number k (capture c e).classes_single_instance_size_by_id
          ≡ put
              (λ a. or_insert_with a (λ i. i))
              (info_of k e)
              (get number k c.classes_single_instance_size_by_id)
    step c (string _ _) _ = refl
    step c (class _) _ = refl
    step c (frame _) _ = refl
    step c (trace _) _ = refl
    step c (instance_of _) _ = refl
    step c (object_array _ _) _ = refl
    step c (primitive_array _ _) _ = refl
    step c (dumped id info) _ =
        get-upsert-put number id k (λ a. or_insert_with a (λ i. i)) info
          c.classes_single_instance_size_by_id
    step c other _ = refl
