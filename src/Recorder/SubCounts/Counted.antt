-- ===== src/Recorder/SubCounts/Counted.antt =====
-- The counters of sub-records that `record_records` of src/result_recorder.rs leaves.
use hprof_slurp.Prelude.{
  ℕ, ◌≡◌, refl, sym, ap, ◌∙◌, Bool, Option, none, some, ◌>>=◌, List, [], ◌∷◌, All,
}
use mathlib.Core.Option.{none-ne-some, some-injective}
use hprof_slurp.Parser.Record.{Record}
use hprof_slurp.Format.Fields.{IsIdSize}
use hprof_slurp.Recorder.Events.{Recordable}
use hprof_slurp.Recorder.Captures.{record_records-captures}
use hprof_slurp.Recorder.Counts.{bumped_zero}
use hprof_slurp.Recorder.State.{ResultRecorder, new}
use hprof_slurp.Recorder.Records.{record_one, record_records}
use hprof_slurp.Recorder.SubCounts.Steps.{record_one-tallied_sub}
use hprof_slurp.Recorder.SubCounts.{
  count_sub, with_tag, any_sub, primitive_array, tallied_sub, sub_counts,
}

bind-some :
    {A B : Type 0} (o : Option A) (f : A → Option B) (b : B)
    → (o >>= f) ≡ some b
    → (a : A) × (o ≡ some a) × (f a ≡ some b)
bind-some none f b e = absurd (none-ne-some _ e)
bind-some (some a) f b e = (a, refl, e)

record_records-tallied_sub :
    (s s' : ResultRecorder) (rs : List Record)
    → record_records s rs ≡ some s'
    → s'.gc ≡ tallied_sub s.gc rs
unfolding record_records
record_records-tallied_sub s s' [] e = ap (λ x. x.gc) (sym (some-injective _ _ e))
record_records-tallied_sub s s' (r ∷ rs) e =
    let (s1, one, more) = bind-some (record_one s r) (λ s1. record_records s1 rs) s' e in
    record_records-tallied_sub s1 s' rs more ∙ sym (record_one-tallied_sub s s1 r rs one)

tallied_sub-new :
    (id_size timestamp : ℕ) (list_strings : Bool) (rs : List Record)
    → tallied_sub (new id_size list_strings timestamp).gc rs ≡ sub_counts rs
tallied_sub-new id_size timestamp list_strings rs i = record {
  all_sub_records = bumped_zero (count_sub any_sub rs) i;
  gc_root_unknown = bumped_zero (count_sub (with_tag 0xff) rs) i;
  gc_root_thread_object = bumped_zero (count_sub (with_tag 0x08) rs) i;
  gc_root_jni_global = bumped_zero (count_sub (with_tag 0x01) rs) i;
  gc_root_jni_local = bumped_zero (count_sub (with_tag 0x02) rs) i;
  gc_root_java_frame = bumped_zero (count_sub (with_tag 0x03) rs) i;
  gc_root_native_stack = bumped_zero (count_sub (with_tag 0x04) rs) i;
  gc_root_sticky_class = bumped_zero (count_sub (with_tag 0x05) rs) i;
  gc_root_thread_block = bumped_zero (count_sub (with_tag 0x06) rs) i;
  gc_root_monitor_used = bumped_zero (count_sub (with_tag 0x07) rs) i;
  gc_object_array_dump = bumped_zero (count_sub (with_tag 0x22) rs) i;
  gc_instance_dump = bumped_zero (count_sub (with_tag 0x21) rs) i;
  gc_class_dump = bumped_zero (count_sub (with_tag 0x20) rs) i;
  gc_primitive_array_dump = bumped_zero (count_sub primitive_array rs) i;
}

-- For an id size of 4 or 8 and records whose counts fit 32 bits and whose primitive arrays hold no
-- objects, `record_records` does not panic from a new recorder on. Then the counter of all
-- sub-records is their number, and each of the 13 others is the number of the sub-records of its
-- kind, in 32 bits, where primitive arrays without their elements count as primitive arrays.
pub record_records-sub_counts :
    (id_size timestamp : ℕ) (list_strings : Bool) (rs : List Record)
    → IsIdSize id_size
    → All Recordable rs
    → (s' : ResultRecorder) × (record_records (new id_size list_strings timestamp) rs ≡ some s')
      × (s'.gc ≡ sub_counts rs)
record_records-sub_counts id_size timestamp list_strings rs hn h =
    let (s', e, _, _) = record_records-captures (new id_size list_strings timestamp) rs hn h in
    (
      s',
      e,
      record_records-tallied_sub _ s' rs e ∙ tallied_sub-new id_size timestamp list_strings rs,
    )
