-- ===== src/Report/Usage.antt =====
-- `aggregate_memory_usage` of src/result_recorder.rs.
use mathlib.Core.List.{map}
use hprof_slurp.Prelude.{ℕ, ◌*◌, ◌%◌, ◌^◌, List, [], ◌∷◌, ◌++◌, Option, none, some}
use hprof_slurp.Nom.{Bytes}
use hprof_slurp.Text.{text}
use hprof_slurp.Parser.GcRecord.{FieldType}
use hprof_slurp.Recorder.AHashMap.{AHashMap}
use hprof_slurp.Recorder.State.{ResultRecorder, ClassInstanceCounter, ArrayCounter}
use hprof_slurp.Recorder.InstanceSize.{Sized, sized, panics, stuck, calculate_instance_size}
use hprof_slurp.Rendered.Stats.{ClassAllocationStats, by_allocation, by_largest}
use hprof_slurp.Rendered.Stats
use hprof_slurp.Report.Names.{get_class_name_string, type_name, cleaned_class_name}
use hprof_slurp.Sort.{sort}
use hprof_slurp.Sort.Orders.{Order, ascending, lexicographic, by_key, reversed, then_by}

-- A value and the set of missing class ids, or a panic; `loops` says that the fuel ran out.
pub data Outcome (A : Type 0) : Type 0 where
  done : (value : A) (missing_class_ids : List ℕ) → Outcome A
  panicked loops : Outcome A

abbrev pub and_then : {A B : Type 0} → Outcome A → (A → List ℕ → Outcome B) → Outcome B
and_then (done a ids) f = f a ids
and_then panicked f = panicked
and_then loops f = loops

-- What each element of a list makes, in order.
abbrev pub collect : {A B : Type 0} → (A → List ℕ → Outcome B) → List A → List ℕ → Outcome (List B)
collect f [] ids = done [] ids
collect f (x ∷ xs) ids =
    and_then (f x ids) λ b ids'. and_then (collect f xs ids') λ bs ids''. done (b ∷ bs) ids''

-- All instances of a class have its size; the total is multiplied in 64 bits.
abbrev pub with_size : Bytes → ℕ → Sized → Outcome ClassAllocationStats
with_size class_name number_of_instances (sized size ids) =
    done (Stats.new class_name number_of_instances size (size * number_of_instances % 2 ^ 64)) ids
with_size class_name number_of_instances panics = panicked
with_size class_name number_of_instances stuck = loops

abbrev pub class_usage :
    ℕ → ResultRecorder → ℕ × ClassInstanceCounter → List ℕ → Outcome ClassAllocationStats
class_usage fuel s (class_id, v) ids =
    let (class_name, ids') = get_class_name_string s class_id ids in
    with_size class_name v.number_of_instances (calculate_instance_size fuel s class_id ids')

abbrev pub array_stats : Bytes → ArrayCounter → ClassAllocationStats
array_stats label ac =
    Stats.new (label ++ text "[]") ac.number_of_arrays ac.max_size_bytes_seen ac.total_size_bytes

abbrev pub primitive_array_usage : FieldType × ArrayCounter → ClassAllocationStats
primitive_array_usage (field_type, ac) = array_stats (type_name field_type) ac

abbrev pub with_label : ArrayCounter → List ℕ → Option Bytes → Outcome ClassAllocationStats
with_label ac ids none = panicked
with_label ac ids (some label) = done (array_stats label ac) ids

abbrev pub object_array_usage :
    ResultRecorder → ℕ × ArrayCounter → List ℕ → Outcome ClassAllocationStats
object_array_usage s (class_id, ac) ids =
    let (raw_class_name, ids') = get_class_name_string s class_id ids in
    with_label ac ids' (cleaned_class_name raw_class_name)

abbrev pub by_name : Order ClassAllocationStats
by_name = by_key (λ s. s.class_name) (reversed lexicographic)

abbrev pub by_count : Order ClassAllocationStats
by_count = by_key (λ s. s.instance_count) (reversed ascending)

abbrev pub by_names_sizes : Order ClassAllocationStats
by_names_sizes = then_by by_name by_allocation

abbrev pub by_names_sizes_counts : Order ClassAllocationStats
by_names_sizes_counts = then_by by_names_sizes by_count

-- Ties are broken on every field.
abbrev pub on_every_field : Order ClassAllocationStats
on_every_field = then_by by_names_sizes_counts by_largest

-- The rows of three maps, in the order in which these are iterated.
abbrev pub rows_of :
    ℕ
    → ResultRecorder
    → AHashMap ℕ ClassInstanceCounter
    → AHashMap FieldType ArrayCounter
    → AHashMap ℕ ArrayCounter
    → List ℕ
    → Outcome (List ClassAllocationStats)
rows_of fuel s classes primitive_arrays object_arrays ids =
    and_then (collect (class_usage fuel s) classes ids) λ class_rows ids'.
      and_then (collect (object_array_usage s) object_arrays ids') λ object_rows ids''.
        done
          (sort on_every_field
            (class_rows ++ (map primitive_array_usage primitive_arrays ++ object_rows)))
          ids''

unfoldable pub aggregate_memory_usage :
    ℕ → ResultRecorder → List ℕ → Outcome (List ClassAllocationStats)
aggregate_memory_usage fuel s ids =
    rows_of fuel s s.captured.classes_all_instance_total_size_by_id
      s.captured.primitive_array_counters s.captured.object_array_counters ids
