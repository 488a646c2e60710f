-- ===== src/Tests/Reporting.antt =====
-- The result of a small recorder.
use mathlib.Core.List.{Perm, Pairwise, Nodup}
use mathlib.Core.List.Perm
use hprof_slurp.Prelude.{ℕ, ◌≡◌, ◌↔◌, refl, inl, false, List, [], ◌∷◌, none, some, arith}
use hprof_slurp.Text.{text}
use hprof_slurp.Text.Digits.{hex}
use hprof_slurp.Parser.GcRecord.{FieldType}
use hprof_slurp.Parser.Record.{LoadClassData}
use hprof_slurp.Recorder.AHashMap.{AHashMap}
use hprof_slurp.Recorder.State.{
  ClassInstanceCounter, ArrayCounter, ResultRecorder, new, nothing_captured,
}
use hprof_slurp.Recorder.InstanceSize.{missing, root, child, calculate_instance_size_recursive}
use hprof_slurp.Rendered.Stats
use hprof_slurp.Rendered.Stats.{ClassAllocationStats}
use hprof_slurp.Report.Names.{get_class_name_string, cleaned_class_name}
use hprof_slurp.Report.Usage.{done, rows_of, aggregate_memory_usage}
use hprof_slurp.Report.Texts.{
  values, render_captured_strings, render_duplicated_strings, render_missing_class_warning,
}
use hprof_slurp.Report.Orderless.{texts_orderless}
use hprof_slurp.Report.Unordered.{rows_of_unordered}
use hprof_slurp.Report.Labels.{one_dimension}
use hprof_slurp.Report.Descending.{Before}
use hprof_slurp.Report.Rows.{Sizable, IsArrayClass, all_rows, aggregate_memory_usage_lem}
use hprof_slurp.Report.Duplicates.{render_duplicated_strings-none_iff}

abbrev counter : ℕ → ClassInstanceCounter
counter n = record { number_of_instances = n }

abbrev arrays : ArrayCounter
arrays = record { number_of_arrays = 2; max_size_bytes_seen = 32; total_size_bytes = 56 }

abbrev instances : AHashMap ℕ ClassInstanceCounter
instances = (7, counter 5) ∷ (9, counter 1) ∷ []

abbrev object_arrays : AHashMap ℕ ArrayCounter
object_arrays = (11, arrays) ∷ []

abbrev primitive_arrays : AHashMap FieldType ArrayCounter
primitive_arrays = (FieldType.int, arrays) ∷ []

abbrev class_at : ℕ → ℕ → LoadClassData
class_at id name_id = record {
  serial_number = id;
  class_object_id = id;
  stack_trace_serial_number = 0;
  class_name_id = name_id;
}

abbrev recorder : ResultRecorder
recorder = record (new 4 false 0) {
  captured = record nothing_captured {
    utf8_strings_by_id = (1, text "a/Node") ∷ (2, text "[La/Node;") ∷ (3, text "a/Node") ∷ [];
    class_data = class_at 7 1 ∷ class_at 11 2 ∷ [];
    class_data_by_id = (7, 0) ∷ (11, 1) ∷ [];
    classes_single_instance_size_by_id =
        (
          7,
          record {
            super_class_object_id = 8;
            instance_field_types = FieldType.object ∷ FieldType.byte ∷ [];
          },
        )
        ∷ (8, record { super_class_object_id = 0; instance_field_types = [] })
        ∷ [];
    classes_all_instance_total_size_by_id = instances;
    object_array_counters = object_arrays;
    primitive_array_counters = primitive_arrays;
  };
}

abbrev rows : List ClassAllocationStats
rows =
    Stats.new (text "int[]") 2 32 56
    ∷ Stats.new (text "a.Node[]") 2 32 56
    ∷ Stats.new (text "a.Node") 5 16 80
    ∷ Stats.new (text "<unknown class 0x9>") 1 8 8
    ∷ []

rows_run : rows_of 2 recorder instances primitive_arrays object_arrays [] ≡ done rows (9 ∷ [])
unfolding get_class_name_string hex cleaned_class_name calculate_instance_size_recursive
rows_run = refl

rows_of_unordered_example :
    (missing' : List ℕ) × (rows_of 2 recorder
        ((9, counter 1) ∷ (7, counter 5) ∷ [])
        primitive_arrays
        object_arrays
        []
      ≡ done rows missing')
rows_of_unordered_example =
    rows_of_unordered 2 recorder instances ((9, counter 1) ∷ (7, counter 5) ∷ []) primitive_arrays
      primitive_arrays object_arrays object_arrays [] [] (9 ∷ []) rows
      (Perm.swap (9, counter 1) (7, counter 5) []) Perm.rfl Perm.rfl rows_run

sizable_7 : Sizable 2 recorder 7
sizable_7 = record {
  layers = (FieldType.object ∷ FieldType.byte ∷ []) ∷ [];
  end = none;
  chain = child refl refl (root refl refl);
  fits = omega arith;
  enough = omega arith;
}

sizable_9 : Sizable 2 recorder 9
sizable_9 = record {
  layers = [];
  end = some 9;
  chain = missing refl;
  fits = omega arith;
  enough = omega arith;
}

array_class_11 : IsArrayClass recorder 11
array_class_11 = record {
  label = text "a.Node[]";
  labelled = one_dimension (text "a.Node") (inl (omega arith));
}

aggregate_memory_usage_lem_example :
    (usage : List ClassAllocationStats) × (missing : List ℕ) × (aggregate_memory_usage 2 recorder []
      ≡ done usage missing)
    × Pairwise Before usage
    × Perm usage (all_rows 2 recorder (sizable_7, (sizable_9, tt)) (array_class_11, tt))
aggregate_memory_usage_lem_example =
    aggregate_memory_usage_lem 2 recorder [] (sizable_7, (sizable_9, tt)) (array_class_11, tt)
      (inl refl)

render_duplicated_strings-none_iff_example :
    (render_duplicated_strings recorder ≡ none)
    ↔ Nodup (values recorder.captured.utf8_strings_by_id)
render_duplicated_strings-none_iff_example = render_duplicated_strings-none_iff recorder

abbrev swapped : ResultRecorder
swapped = record recorder {
  captured = record recorder.captured {
    utf8_strings_by_id = (2, text "[La/Node;") ∷ (1, text "a/Node") ∷ (3, text "a/Node") ∷ [];
  };
}

texts_orderless_example :
    (render_captured_strings recorder ≡ render_captured_strings swapped)
    × (render_duplicated_strings recorder ≡ render_duplicated_strings swapped)
    × (render_missing_class_warning (9 ∷ 12 ∷ []) ≡ render_missing_class_warning (12 ∷ 9 ∷ []))
texts_orderless_example =
    texts_orderless recorder swapped (9 ∷ 12 ∷ []) (12 ∷ 9 ∷ [])
      (Perm.swap (2, text "[La/Node;") (1, text "a/Node") ((3, text "a/Node") ∷ []))
      (Perm.swap 12 9 [])
