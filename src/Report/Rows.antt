-- ===== src/Report/Rows.antt =====
-- What `aggregate_memory_usage` of src/result_recorder.rs returns.
use mathlib.Core.Path.{ap₂}
use mathlib.Core.List.{Perm, Pairwise, map}
use mathlib.Core.List.Pairwise
use hprof_slurp.Prelude.{
  ℕ, ◌*◌, ◌%◌, ◌^◌, ◌<◌, ◌≡◌, refl, ap, ◌∙◌, List, [], ◌∷◌, ◌++◌, Option, All, length,
}
use hprof_slurp.Nom.{Bytes}
use hprof_slurp.Format.Fields.{IsIdSize}
use hprof_slurp.Parser.GcRecord.{FieldType}
use hprof_slurp.Recorder.State.{ResultRecorder, ClassInstanceCounter, ArrayCounter}
use hprof_slurp.Recorder.Events.{padded}
use hprof_slurp.Recorder.InstanceSize.{Chain, layout, with_missing, calculate_instance_size_lem}
use hprof_slurp.Rendered.Stats.{ClassAllocationStats}
use hprof_slurp.Rendered.Stats
use hprof_slurp.Sort.{sort}
use hprof_slurp.Sort.Laws.{sort-Perm, sort-IsSorted}
use hprof_slurp.Report.Names.{get_class_name_string, cleaned_class_name}
use hprof_slurp.Report.Usage.{
  Outcome, done, collect, class_usage, with_size, with_label, object_array_usage,
  primitive_array_usage, on_every_field, aggregate_memory_usage,
}
use hprof_slurp.Recorder.Results.{find_class_name}
use hprof_slurp.Report.Labels.{
  java_name, class_name_lem, primitive_label, primitive_label_lem, Labelled, Labelled-cleaned,
}
use hprof_slurp.Report.Descending.{Before, on_every_field-Before}

-- A class whose super classes end, with a layout that fits 32 bits, and with enough fuel.
pub record Sizable (fuel : ℕ) (s : ResultRecorder) (class_id : ℕ) : Type 0 where
  pub layers : List (List FieldType)
  pub end : Option ℕ
  pub chain : Chain s.captured.classes_single_instance_size_by_id class_id layers end
  pub fits : padded (layout s.id_size layers) < 2 ^ 32
  pub enough : length layers < fuel

-- The name of a class, in the notation of Java.
abbrev pub class_name : ResultRecorder → ℕ → Bytes
class_name s class_id = java_name class_id (find_class_name s class_id)

-- A class of arrays, and its label.
pub record IsArrayClass (s : ResultRecorder) (class_id : ℕ) : Type 0 where
  pub label : Bytes
  pub labelled : Labelled (class_name s class_id) label

module _ {A B : Type 0} (P : A → Type 0) (g : (x : A) → P x → B) where
  abbrev pub rows : (l : List A) → All P l → List B
  rows [] hs = []
  rows (x ∷ xs) (h, hs) = g x h ∷ rows xs hs

  collect-rows :
      (f : A → List ℕ → Outcome B)
      → ((x : A) (h : P x) (ids : List ℕ) → (j : List ℕ) × (f x ids ≡ done (g x h) j))
      → (l : List A) (hs : All P l) (ids : List ℕ)
      → (j : List ℕ) × (collect f l ids ≡ done (rows l hs) j)
  collect-rows f ok [] hs ids = (ids, refl)
  collect-rows f ok (x ∷ xs) (h, hs) ids =
      let (i, e) = ok x h ids in let (j, k) = collect-rows f ok xs hs i in (j, rw (e, k) refl)

-- The row of a class, by the layout of its instances.
abbrev pub class_row :
    (fuel : ℕ) (s : ResultRecorder) (e : ℕ × ClassInstanceCounter)
    → Sizable fuel s e.0
    → ClassAllocationStats
class_row fuel s (class_id, v) h = record {
  class_name = class_name s class_id;
  instance_count = v.number_of_instances;
  largest_allocation_bytes = padded (layout s.id_size h.layers);
  allocation_size_bytes = padded (layout s.id_size h.layers) * v.number_of_instances % 2 ^ 64;
}

-- The row of a class or a type of arrays, by their counter.
abbrev pub array_row : Bytes → ArrayCounter → ClassAllocationStats
array_row label ac = record {
  class_name = label;
  instance_count = ac.number_of_arrays;
  largest_allocation_bytes = ac.max_size_bytes_seen;
  allocation_size_bytes = ac.total_size_bytes;
}

abbrev pub object_array_row :
    (s : ResultRecorder) (e : ℕ × ArrayCounter) → IsArrayClass s e.0 → ClassAllocationStats
object_array_row s (class_id, ac) h = array_row h.label ac

abbrev pub primitive_array_row : FieldType × ArrayCounter → ClassAllocationStats
primitive_array_row (field_type, ac) = array_row (primitive_label field_type) ac

primitive_array_usage-row :
    (l : List (FieldType × ArrayCounter)) → map primitive_array_usage l ≡ map primitive_array_row l
primitive_array_usage-row [] = refl
primitive_array_usage-row ((t, ac) ∷ l) =
    ap₂ ◌∷◌ (ap (λ n. array_row n ac) (primitive_label_lem t)) (primitive_array_usage-row l)

class_usage-row :
    (fuel : ℕ) (s : ResultRecorder) (e : ℕ × ClassInstanceCounter) (h : Sizable fuel s e.0)
    (ids : List ℕ)
    → IsIdSize s.id_size
    → (j : List ℕ) × (class_usage fuel s e ids ≡ done (class_row fuel s e h) j)
class_usage-row fuel s (k, v) h ids hn =
    let (name, i) = get_class_name_string s k ids in
    let size = padded (layout s.id_size h.layers) in
    let n = v.number_of_instances in
    (
      with_missing h.end i,
      ap (with_size name n)
            (calculate_instance_size_lem s fuel k i h.layers h.end hn h.chain h.fits h.enough)
          ∙ ap (λ x. done (Stats.new x n size (size * n % 2 ^ 64)) (with_missing h.end i))
              (class_name_lem s k ids),
    )

object_array_usage-row :
    (s : ResultRecorder) (e : ℕ × ArrayCounter) (h : IsArrayClass s e.0) (ids : List ℕ)
    → (j : List ℕ) × (object_array_usage s e ids ≡ done (object_array_row s e h) j)
object_array_usage-row s (k, ac) h ids =
    let (name, i) = get_class_name_string s k ids in
    let (cut, cleans, whole) = Labelled-cleaned (class_name s k) h.label h.labelled in
    (
      i,
      ap (λ x. with_label ac i (cleaned_class_name x)) (class_name_lem s k ids)
          ∙ ap (with_label ac i) cleans
          ∙ ap (λ x. done (array_row x ac) i) whole,
    )

abbrev pub all_rows :
    (fuel : ℕ) (s : ResultRecorder)
    → All (λ e. Sizable fuel s e.0) s.captured.classes_all_instance_total_size_by_id
    → All (λ e. IsArrayClass s e.0) s.captured.object_array_counters
    → List ClassAllocationStats
all_rows fuel s classes objects =
    rows (λ e. Sizable fuel s e.0) (class_row fuel s)
      s.captured.classes_all_instance_total_size_by_id classes
    ++ (map primitive_array_row s.captured.primitive_array_counters
        ++ rows (λ e. IsArrayClass s e.0) (object_array_row s) s.captured.object_array_counters
            objects)

-- For an id size of 4 or 8, let each class that has instances have a chain of super classes that
-- ends, a padded layout that fits 32 bits and enough fuel, and let the name of each class of object
-- arrays be of the form of such names, or begin otherwise. Then the aggregation neither panics nor
-- runs out of fuel. Its rows are those of the classes, with the padded layout as the size of an
-- instance and its product with their number, in 64 bits, as the total, those of the types of
-- primitive arrays, and those of the classes of object arrays, with the numbers, the largest and the
-- total sizes of their counters. They are in the descending order of their names, then of their total
-- sizes, their counts and their largest sizes.
pub aggregate_memory_usage_lem :
    (fuel : ℕ) (s : ResultRecorder) (ids : List ℕ)
    (classes : All (λ e. Sizable fuel s e.0) s.captured.classes_all_instance_total_size_by_id)
    (objects : All (λ e. IsArrayClass s e.0) s.captured.object_array_counters)
    → IsIdSize s.id_size
    → (usage : List ClassAllocationStats) × (missing : List ℕ) × (aggregate_memory_usage fuel s ids
        ≡ done usage missing)
      × Pairwise Before usage
      × Perm usage (all_rows fuel s classes objects)
unfolding aggregate_memory_usage
aggregate_memory_usage_lem fuel s ids classes objects hn =
    let (i, e) =
      collect-rows (λ e. Sizable fuel s e.0) (class_row fuel s) (class_usage fuel s)
        (λ x h k. class_usage-row fuel s x h k hn) s.captured.classes_all_instance_total_size_by_id
        classes ids in
    let (j, f) =
      collect-rows (λ e. IsArrayClass s e.0) (object_array_row s) (object_array_usage s)
        (object_array_usage-row s) s.captured.object_array_counters objects i in
    let l = all_rows fuel s classes objects in
    (
      sort on_every_field l,
      j,
      rw (e, f, primitive_array_usage-row s.captured.primitive_array_counters) refl,
      Pairwise.imp on_every_field-Before (sort-IsSorted on_every_field l),
      sort-Perm on_every_field l,
    )
