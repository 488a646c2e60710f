-- ===== src/Recorder/Counts.antt =====
-- The tag counters of src/result_recorder.rs, in terms of the tags of the records that came in.
use hprof_slurp.Prelude.{
  ℕ, zero, suc, ◌+◌, ◌%◌, ◌^◌, ◌≡◌, refl, sym, ap, ◌∙◌, Bool, Option, none, some, ◌>>=◌, List, [],
  ◌∷◌, ◌==◌, if◌then◌else◌, All, arith,
}
use mathlib.Core.Option.{none-ne-some, some-injective}
use hprof_slurp.Parser.GcRecord.{
  GcRecord, root_unknown, root_thread_object, root_jni_global, root_jni_local, root_java_frame,
  root_native_stack, root_sticky_class, root_thread_block, root_monitor_used, root_interned_string,
  root_finalizing, root_debugger, root_reference_cleanup, root_vm_internal, root_jni_monitor,
  unreachable, heap_dump_info, primitive_array_no_data_dump, instance_dump, object_array_dump,
  primitive_array_dump, class_dump,
}
use hprof_slurp.Parser.Record.{
  Record, utf8_string, load_class, unload_class, stack_frame, stack_trace, allocation_sites,
  start_thread, end_thread, heap_summary, heap_dump_start, heap_dump_end, control_settings,
  cpu_samples, gc_segment,
}
use hprof_slurp.Format.Top
use hprof_slurp.Format.Fields.{IsIdSize}
use hprof_slurp.Recorder.Events.{Recordable}
use hprof_slurp.Recorder.Captures.{record_records-captures}
use hprof_slurp.Recorder.State.{ResultRecorder, TagCounters, bump32, new}
use hprof_slurp.Recorder.Sizes.{object_array_size, primitive_array_size}
use hprof_slurp.Recorder.Records.{record_gc, record_one, record_records}

-- How many of the records have a tag of the format; a segment's start counts as one of 0x1c.
abbrev pub count : ℕ → List Record → ℕ
count tag [] = 0
count tag (r ∷ rs) = let n = count tag rs in if Top.tag_of r == tag then suc n else n

abbrev pub bumped : ℕ → ℕ → ℕ
bumped zero x = x
bumped (suc n) x = bumped n (bump32 x)

bumped_lem : (n x : ℕ) → bumped n (x % 2 ^ 32) ≡ (x + n) % 2 ^ 32
bumped_lem zero x = omega arith
bumped_lem (suc n) x =
    let once : (x % 2 ^ 32 + 1) % 2 ^ 32 ≡ (x + 1) % 2 ^ 32 = omega arith in
    ap (bumped n) once ∙ bumped_lem n (x + 1) ∙ omega arith

abbrev tallied : TagCounters → List Record → TagCounters
tallied c rs = record {
  classes_unloaded = bumped (count 0x03 rs) c.classes_unloaded;
  stack_frames = bumped (count 0x04 rs) c.stack_frames;
  stack_traces = bumped (count 0x05 rs) c.stack_traces;
  start_threads = bumped (count 0x0a rs) c.start_threads;
  end_threads = bumped (count 0x0b rs) c.end_threads;
  heap_summaries = bumped (count 0x07 rs) c.heap_summaries;
  heap_dumps = bumped (count 0x1c rs) c.heap_dumps;
  allocation_sites = bumped (count 0x06 rs) c.allocation_sites;
  control_settings = bumped (count 0x0e rs) c.control_settings;
  cpu_samples = bumped (count 0x0d rs) c.cpu_samples;
}

bound-tags :
    (s s1 : ResultRecorder) (o : Option ℕ) (f : ℕ → ResultRecorder)
    → ((n : ℕ) → (f n).tags ≡ s.tags)
    → (o >>= λ n. some (f n)) ≡ some s1
    → s1.tags ≡ s.tags
bound-tags s s1 none f h e = absurd (none-ne-some _ e)
bound-tags s s1 (some n) f h e = ap (λ x. x.tags) (sym (some-injective _ _ e)) ∙ h n

record_gc-tags : (s s1 : ResultRecorder) (g : GcRecord) → record_gc s g ≡ some s1 → s1.tags ≡ s.tags
unfolding record_gc
record_gc-tags s s1 (root_unknown _) e = ap (λ x. x.tags) (sym (some-injective _ _ e))
record_gc-tags s s1 (root_thread_object _ _ _) e = ap (λ x. x.tags) (sym (some-injective _ _ e))
record_gc-tags s s1 (root_jni_global _ _) e = ap (λ x. x.tags) (sym (some-injective _ _ e))
record_gc-tags s s1 (root_jni_local _ _ _) e = ap (λ x. x.tags) (sym (some-injective _ _ e))
record_gc-tags s s1 (root_java_frame _ _ _) e = ap (λ x. x.tags) (sym (some-injective _ _ e))
record_gc-tags s s1 (root_native_stack _ _) e = ap (λ x. x.tags) (sym (some-injective _ _ e))
record_gc-tags s s1 (root_sticky_class _) e = ap (λ x. x.tags) (sym (some-injective _ _ e))
record_gc-tags s s1 (root_thread_block _ _) e = ap (λ x. x.tags) (sym (some-injective _ _ e))
record_gc-tags s s1 (root_monitor_used _) e = ap (λ x. x.tags) (sym (some-injective _ _ e))
record_gc-tags s s1 (root_interned_string _) e = ap (λ x. x.tags) (sym (some-injective _ _ e))
record_gc-tags s s1 (root_finalizing _) e = ap (λ x. x.tags) (sym (some-injective _ _ e))
record_gc-tags s s1 (root_debugger _) e = ap (λ x. x.tags) (sym (some-injective _ _ e))
record_gc-tags s s1 (root_reference_cleanup _) e = ap (λ x. x.tags) (sym (some-injective _ _ e))
record_gc-tags s s1 (root_vm_internal _) e = ap (λ x. x.tags) (sym (some-injective _ _ e))
record_gc-tags s s1 (root_jni_monitor _ _ _) e = ap (λ x. x.tags) (sym (some-injective _ _ e))
record_gc-tags s s1 (unreachable _) e = ap (λ x. x.tags) (sym (some-injective _ _ e))
record_gc-tags s s1 (heap_dump_info _ _) e = ap (λ x. x.tags) (sym (some-injective _ _ e))
record_gc-tags s s1 (primitive_array_no_data_dump _ _ _ _) e =
    ap (λ x. x.tags) (sym (some-injective _ _ e))
record_gc-tags s s1 (instance_dump _ _ _ _) e = ap (λ x. x.tags) (sym (some-injective _ _ e))
record_gc-tags s s1 (class_dump _) e = ap (λ x. x.tags) (sym (some-injective _ _ e))
record_gc-tags s s1 (object_array_dump _ _ n _) e =
    bound-tags s s1 (object_array_size s.id_size n) _ (λ _. refl) e
record_gc-tags s s1 (primitive_array_dump _ _ n t) e =
    bound-tags s s1 (primitive_array_size s.id_size t n) _ (λ _. refl) e

tallied_step :
    (s s1 : ResultRecorder) (r : Record) (rs : List Record)
    → record_one s r ≡ some s1
    → tallied s.tags (r ∷ rs) ≡ tallied s1.tags rs
unfolding record_one
tallied_step s s1 (utf8_string _ _) rs e = ap (λ x. tallied x.tags rs) (some-injective _ _ e)
tallied_step s s1 (load_class _) rs e = ap (λ x. tallied x.tags rs) (some-injective _ _ e)
tallied_step s s1 (unload_class _) rs e = ap (λ x. tallied x.tags rs) (some-injective _ _ e)
tallied_step s s1 (stack_frame _) rs e = ap (λ x. tallied x.tags rs) (some-injective _ _ e)
tallied_step s s1 (stack_trace _) rs e = ap (λ x. tallied x.tags rs) (some-injective _ _ e)
tallied_step s s1 (allocation_sites _ _ _ _ _ _ _ _) rs e =
    ap (λ x. tallied x.tags rs) (some-injective _ _ e)
tallied_step s s1 (start_thread _ _ _ _ _ _) rs e =
    ap (λ x. tallied x.tags rs) (some-injective _ _ e)
tallied_step s s1 (end_thread _) rs e = ap (λ x. tallied x.tags rs) (some-injective _ _ e)
tallied_step s s1 (heap_summary _ _ _ _) rs e = ap (λ x. tallied x.tags rs) (some-injective _ _ e)
tallied_step s s1 (heap_dump_start _) rs e = ap (λ x. tallied x.tags rs) (some-injective _ _ e)
tallied_step s s1 (heap_dump_end _) rs e = ap (λ x. tallied x.tags rs) (some-injective _ _ e)
tallied_step s s1 (control_settings _ _) rs e = ap (λ x. tallied x.tags rs) (some-injective _ _ e)
tallied_step s s1 (cpu_samples _ _ _) rs e = ap (λ x. tallied x.tags rs) (some-injective _ _ e)
tallied_step s s1 (gc_segment g) rs e = ap (λ c. tallied c rs) (sym (record_gc-tags _ s1 g e))

record_records-tallied :
    (s s' : ResultRecorder) (rs : List Record)
    → record_records s rs ≡ some s'
    → s'.tags ≡ tallied s.tags rs
unfolding record_records
record_records-tallied s s' [] e = ap (λ x. x.tags) (sym (some-injective _ _ e))
record_records-tallied s s' (r ∷ rs) e =
    go (record_one s r) refl (λ s1. record_records-tallied s1 s' rs)
  where
    go :
        (o : Option ResultRecorder)
        → record_one s r ≡ o
        → ((s1 : ResultRecorder) → record_records s1 rs ≡ some s' → s'.tags ≡ tallied s1.tags rs)
        → s'.tags ≡ tallied s.tags (r ∷ rs)
    go none h ih = absurd (none-ne-some _ (sym (ap (λ x. x >>= λ s1. record_records s1 rs) h) ∙ e))
    go (some s1) h ih =
        ih s1 (sym (ap (λ x. x >>= λ s2. record_records s2 rs) h) ∙ e)
        ∙ sym (tallied_step s s1 r rs h)

-- The number of records with each tag, in 32 bits.
abbrev pub counts : List Record → TagCounters
counts rs = record {
  classes_unloaded = count 0x03 rs % 2 ^ 32;
  stack_frames = count 0x04 rs % 2 ^ 32;
  stack_traces = count 0x05 rs % 2 ^ 32;
  start_threads = count 0x0a rs % 2 ^ 32;
  end_threads = count 0x0b rs % 2 ^ 32;
  heap_summaries = count 0x07 rs % 2 ^ 32;
  heap_dumps = count 0x1c rs % 2 ^ 32;
  allocation_sites = count 0x06 rs % 2 ^ 32;
  control_settings = count 0x0e rs % 2 ^ 32;
  cpu_samples = count 0x0d rs % 2 ^ 32;
}

pub bumped_zero : (n : ℕ) → bumped n 0 ≡ n % 2 ^ 32
bumped_zero n = bumped_lem n 0 ∙ omega arith

tallied-new :
    (id_size timestamp : ℕ) (list_strings : Bool) (rs : List Record)
    → tallied (new id_size list_strings timestamp).tags rs ≡ counts rs
tallied-new id_size timestamp list_strings rs i = record {
  classes_unloaded = bumped_zero (count 0x03 rs) i;
  stack_frames = bumped_zero (count 0x04 rs) i;
  stack_traces = bumped_zero (count 0x05 rs) i;
  start_threads = bumped_zero (count 0x0a rs) i;
  end_threads = bumped_zero (count 0x0b rs) i;
  heap_summaries = bumped_zero (count 0x07 rs) i;
  heap_dumps = bumped_zero (count 0x1c rs) i;
  allocation_sites = bumped_zero (count 0x06 rs) i;
  control_settings = bumped_zero (count 0x0e rs) i;
  cpu_samples = bumped_zero (count 0x0d rs) i;
}

-- For an id size of 4 or 8 and records whose counts fit 32 bits and whose primitive arrays hold no
-- objects, `record_records` does not panic from a new recorder on. Then each of the ten tag counters
-- is the number of the records with its tag, in 32 bits, whatever else came in.
pub record_records-counts :
    (id_size timestamp : ℕ) (list_strings : Bool) (rs : List Record)
    → IsIdSize id_size
    → All Recordable rs
    → (s' : ResultRecorder) × (record_records (new id_size list_strings timestamp) rs ≡ some s')
      × (s'.tags ≡ counts rs)
record_records-counts id_size timestamp list_strings rs hn h =
    let (s', e, _, _) = record_records-captures (new id_size list_strings timestamp) rs hn h in
    (s', e, record_records-tallied _ s' rs e ∙ tallied-new id_size timestamp list_strings rs)
