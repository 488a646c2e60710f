-- ===== src/Recorder/SubCounts/Steps.antt =====
-- What one record of src/result_recorder.rs does to the counters of sub-records.
use hprof_slurp.Prelude.{ℕ, ◌≡◌, refl, ap, ◌∙◌, Option, none, some, ◌>>=◌, List, ◌∷◌}
use mathlib.Core.Option.{none-ne-some, some-injective}
use hprof_slurp.Parser.GcRecord.{
  GcRecord, root_unknown, root_thread_object, root_jni_global, root_jni_local, root_java_frame,
  root_native_stack, root_sticky_class, root_thread_block, root_monitor_used, root_interned_string,
  root_finalizing, root_debugger, root_reference_cleanup, root_vm_internal, root_jni_monitor,
  unreachable, heap_dump_info, primitive_array_no_data_dump, instance_dump, object_array_dump,
  primitive_array_dump, class_dump,
}
use hprof_slurp.Parser.Record.{
  Record, utf8_string, load_class, unload_class, stack_frame, stack_trace, allocation_sites,
  start_thread, end_thread, heap_summary, heap_dump_start, heap_dump_end, control_settings,
  cpu_samples, gc_segment,
}
use hprof_slurp.Recorder.State.{ResultRecorder, bump32}
use hprof_slurp.Recorder.Sizes.{object_array_size, primitive_array_size}
use hprof_slurp.Recorder.Records.{record_gc, record_one}
use hprof_slurp.Recorder.SubCounts.{tallied_sub}

-- One step: what the counters are in the end is what they were before a sub-record.
Tallies : ResultRecorder → GcRecord → ResultRecorder → Type 0
Tallies s g s1 = (rs : List Record) → tallied_sub s.gc (gc_segment g ∷ rs) ≡ tallied_sub s1.gc rs

abbrev begun : ResultRecorder → ResultRecorder
begun s = record s { gc = record s.gc { all_sub_records = bump32 s.gc.all_sub_records } }

bound-Tallies :
    (s s1 : ResultRecorder) (g : GcRecord) (o : Option ℕ) (f : ℕ → ResultRecorder)
    → ((n : ℕ) → Tallies s g (f n))
    → (o >>= λ n. some (f n)) ≡ some s1
    → Tallies s g s1
unfolding Tallies
bound-Tallies s s1 g none f h e rs = absurd (none-ne-some _ e)
bound-Tallies s s1 g (some n) f h e rs =
    h n rs ∙ ap (λ x. tallied_sub x.gc rs) (some-injective _ _ e)

record_gc-Tallies :
    (s s1 : ResultRecorder) (g : GcRecord) → record_gc (begun s) g ≡ some s1 → Tallies s g s1
unfolding record_gc Tallies
record_gc-Tallies s s1 (root_unknown _) e rs = ap (λ x. tallied_sub x.gc rs) (some-injective _ _ e)
record_gc-Tallies s s1 (root_thread_object _ _ _) e rs =
    ap (λ x. tallied_sub x.gc rs) (some-injective _ _ e)
record_gc-Tallies s s1 (root_jni_global _ _) e rs =
    ap (λ x. tallied_sub x.gc rs) (some-injective _ _ e)
record_gc-Tallies s s1 (root_jni_local _ _ _) e rs =
    ap (λ x. tallied_sub x.gc rs) (some-injective _ _ e)
record_gc-Tallies s s1 (root_java_frame _ _ _) e rs =
    ap (λ x. tallied_sub x.gc rs) (some-injective _ _ e)
record_gc-Tallies s s1 (root_native_stack _ _) e rs =
    ap (λ x. tallied_sub x.gc rs) (some-injective _ _ e)
record_gc-Tallies s s1 (root_sticky_class _) e rs =
    ap (λ x. tallied_sub x.gc rs) (some-injective _ _ e)
record_gc-Tallies s s1 (root_thread_block _ _) e rs =
    ap (λ x. tallied_sub x.gc rs) (some-injective _ _ e)
record_gc-Tallies s s1 (root_monitor_used _) e rs =
    ap (λ x. tallied_sub x.gc rs) (some-injective _ _ e)
record_gc-Tallies s s1 (root_interned_string _) e rs =
    ap (λ x. tallied_sub x.gc rs) (some-injective _ _ e)
record_gc-Tallies s s1 (root_finalizing _) e rs =
    ap (λ x. tallied_sub x.gc rs) (some-injective _ _ e)
record_gc-Tallies s s1 (root_debugger _) e rs = ap (λ x. tallied_sub x.gc rs) (some-injective _ _ e)
record_gc-Tallies s s1 (root_reference_cleanup _) e rs =
    ap (λ x. tallied_sub x.gc rs) (some-injective _ _ e)
record_gc-Tallies s s1 (root_vm_internal _) e rs =
    ap (λ x. tallied_sub x.gc rs) (some-injective _ _ e)
record_gc-Tallies s s1 (root_jni_monitor _ _ _) e rs =
    ap (λ x. tallied_sub x.gc rs) (some-injective _ _ e)
record_gc-Tallies s s1 (unreachable _) e rs = ap (λ x. tallied_sub x.gc rs) (some-injective _ _ e)
record_gc-Tallies s s1 (heap_dump_info _ _) e rs =
    ap (λ x. tallied_sub x.gc rs) (some-injective _ _ e)
record_gc-Tallies s s1 (primitive_array_no_data_dump _ _ _ _) e rs =
    ap (λ x. tallied_sub x.gc rs) (some-injective _ _ e)
record_gc-Tallies s s1 (instance_dump _ _ _ _) e rs =
    ap (λ x. tallied_sub x.gc rs) (some-injective _ _ e)
record_gc-Tallies s s1 (class_dump _) e rs = ap (λ x. tallied_sub x.gc rs) (some-injective _ _ e)
record_gc-Tallies s s1 (object_array_dump a b n c) e rs =
    bound-Tallies s s1 (object_array_dump a b n c) (object_array_size s.id_size n) _ (λ _ _. refl) e
      rs
record_gc-Tallies s s1 (primitive_array_dump a b n t) e rs =
    bound-Tallies s s1 (primitive_array_dump a b n t) (primitive_array_size s.id_size t n) _
      (λ _ _. refl) e rs

pub record_one-tallied_sub :
    (s s1 : ResultRecorder) (r : Record) (rs : List Record)
    → record_one s r ≡ some s1
    → tallied_sub s.gc (r ∷ rs) ≡ tallied_sub s1.gc rs
unfolding record_one Tallies
record_one-tallied_sub s s1 (utf8_string _ _) rs e =
    ap (λ x. tallied_sub x.gc rs) (some-injective _ _ e)
record_one-tallied_sub s s1 (load_class _) rs e =
    ap (λ x. tallied_sub x.gc rs) (some-injective _ _ e)
record_one-tallied_sub s s1 (unload_class _) rs e =
    ap (λ x. tallied_sub x.gc rs) (some-injective _ _ e)
record_one-tallied_sub s s1 (stack_frame _) rs e =
    ap (λ x. tallied_sub x.gc rs) (some-injective _ _ e)
record_one-tallied_sub s s1 (stack_trace _) rs e =
    ap (λ x. tallied_sub x.gc rs) (some-injective _ _ e)
record_one-tallied_sub s s1 (allocation_sites _ _ _ _ _ _ _ _) rs e =
    ap (λ x. tallied_sub x.gc rs) (some-injective _ _ e)
record_one-tallied_sub s s1 (start_thread _ _ _ _ _ _) rs e =
    ap (λ x. tallied_sub x.gc rs) (some-injective _ _ e)
record_one-tallied_sub s s1 (end_thread _) rs e =
    ap (λ x. tallied_sub x.gc rs) (some-injective _ _ e)
record_one-tallied_sub s s1 (heap_summary _ _ _ _) rs e =
    ap (λ x. tallied_sub x.gc rs) (some-injective _ _ e)
record_one-tallied_sub s s1 (heap_dump_start _) rs e =
    ap (λ x. tallied_sub x.gc rs) (some-injective _ _ e)
record_one-tallied_sub s s1 (heap_dump_end _) rs e =
    ap (λ x. tallied_sub x.gc rs) (some-injective _ _ e)
record_one-tallied_sub s s1 (control_settings _ _) rs e =
    ap (λ x. tallied_sub x.gc rs) (some-injective _ _ e)
record_one-tallied_sub s s1 (cpu_samples _ _ _) rs e =
    ap (λ x. tallied_sub x.gc rs) (some-injective _ _ e)
record_one-tallied_sub s s1 (gc_segment g) rs e = record_gc-Tallies s s1 g e rs
