-- ===== src/Slurp/Recordable.antt =====
-- What a file of the hprof format holds can be recorded (src/result_recorder.rs): no size panics.
use hprof_slurp.Prelude.{ℕ, ◌≢◌, List, [], ◌∷◌, ◌++◌, All, subst}
use hprof_slurp.Nom.{Bytes}
use hprof_slurp.Parser.GcRecord.{
  GcRecord, FieldType, object, root_unknown, root_thread_object, root_jni_global, root_jni_local,
  root_java_frame, root_native_stack, root_sticky_class, root_thread_block, root_monitor_used,
  root_interned_string, root_finalizing, root_debugger, root_reference_cleanup, root_vm_internal,
  root_jni_monitor, unreachable, heap_dump_info, primitive_array_no_data_dump, instance_dump,
  object_array_dump, primitive_array_dump, class_dump,
}
use hprof_slurp.Parser.Record.{
  Record, utf8_string, load_class, unload_class, stack_frame, stack_trace, allocation_sites,
  start_thread, end_thread, heap_summary, heap_dump_start, heap_dump_end, control_settings,
  cpu_samples, gc_segment,
}
use hprof_slurp.Format.Fields.{ArrayFits}
use hprof_slurp.Format.Gc.{Ignored, GcFits}
use hprof_slurp.Format.Top.{TopFits}
use hprof_slurp.Format.Dump.{
  Item, top, segment, ItemFits, EntryFits, segments, item_records, records_of,
}
use hprof_slurp.Recorder.Events.{Recordable, RecordableGc}

ArrayFits-ne-object : (t : FieldType) (k size : ℕ) → ArrayFits t k size → t ≢ object
ArrayFits-ne-object t k size h e = subst (λ u. ArrayFits u k size) e h

gc-Recordable : (n : ℕ) (g : GcRecord) (x : Ignored) → GcFits n g x → RecordableGc g
gc-Recordable n (root_unknown _) x h = tt
gc-Recordable n (root_thread_object _ _ _) x h = tt
gc-Recordable n (root_jni_global _ _) x h = tt
gc-Recordable n (root_jni_local _ _ _) x h = tt
gc-Recordable n (root_java_frame _ _ _) x h = tt
gc-Recordable n (root_native_stack _ _) x h = tt
gc-Recordable n (root_sticky_class _) x h = tt
gc-Recordable n (root_thread_block _ _) x h = tt
gc-Recordable n (root_monitor_used _) x h = tt
gc-Recordable n (root_interned_string _) x h = tt
gc-Recordable n (root_finalizing _) x h = tt
gc-Recordable n (root_debugger _) x h = tt
gc-Recordable n (root_reference_cleanup _) x h = tt
gc-Recordable n (root_vm_internal _) x h = tt
gc-Recordable n (root_jni_monitor _ _ _) x h = tt
gc-Recordable n (unreachable _) x h = tt
gc-Recordable n (heap_dump_info _ _) x h = tt
gc-Recordable n (primitive_array_no_data_dump _ _ _ _) x h = tt
gc-Recordable n (instance_dump _ _ _ _) x h = tt
gc-Recordable n (object_array_dump _ _ _ _) x h = h.2
gc-Recordable n (primitive_array_dump _ _ k t) x h = (h.2, ArrayFits-ne-object t k _ h.3)
gc-Recordable n (class_dump _) x h = tt

top-Recordable : (n : ℕ) (r : Record) (raw : Bytes) → TopFits n r raw → Recordable r
top-Recordable n (utf8_string _ _) raw h = tt
top-Recordable n (load_class _) raw h = tt
top-Recordable n (unload_class _) raw h = tt
top-Recordable n (stack_frame _) raw h = tt
top-Recordable n (stack_trace _) raw h = tt
top-Recordable n (allocation_sites _ _ _ _ _ _ _ _) raw h = tt
top-Recordable n (start_thread _ _ _ _ _ _) raw h = tt
top-Recordable n (end_thread _) raw h = tt
top-Recordable n (heap_summary _ _ _ _) raw h = tt
top-Recordable n (heap_dump_start _) raw h = tt
top-Recordable n (heap_dump_end _) raw h = tt
top-Recordable n (control_settings _ _) raw h = tt
top-Recordable n (cpu_samples _ _ _) raw h = tt
top-Recordable n (gc_segment _) raw h = absurd h

segments-Recordable :
    (n : ℕ) (entries : List (GcRecord × Ignored))
    → All (EntryFits n) entries
    → All Recordable (segments entries)
segments-Recordable n [] h = tt
segments-Recordable n ((g, x) ∷ entries) h =
    (gc-Recordable n g x h.0, segments-Recordable n entries h.1)

item-Recordable : (n : ℕ) (i : Item) → ItemFits n i → All Recordable (item_records n i)
item-Recordable n (top timestamp r raw) h = (top-Recordable n r raw h.1, tt)
item-Recordable n (segment timestamp tag entries) h = (tt, segments-Recordable n entries h.2)

All-append : {A : Type 0} (P : A → Type 0) (xs ys : List A) → All P xs → All P ys → All P (xs ++ ys)
All-append P [] ys h k = k
All-append P (x ∷ xs) ys h k = (h.0, All-append P xs ys h.1 k)

pub records_of-Recordable :
    (n : ℕ) (items : List Item) → All (ItemFits n) items → All Recordable (records_of n items)
records_of-Recordable n [] h = tt
records_of-Recordable n (i ∷ items) h =
    All-append Recordable (item_records n i) (records_of n items) (item-Recordable n i h.0)
      (records_of-Recordable n items h.1)
