-- ===== src/Tests/Sizing.antt =====
-- The size of an instance, along a chain of super classes and around a cycle.
use hprof_slurp.Prelude.{ℕ, ◌≡◌, refl, inl, false, none, [], ◌∷◌, arith}
use hprof_slurp.Parser.GcRecord.{FieldType}
use hprof_slurp.Recorder.AHashMap.{AHashMap}
use hprof_slurp.Recorder.State.{ClassInfo, ResultRecorder, new, nothing_captured}
use hprof_slurp.Recorder.InstanceSize.{
  sized, stuck, child, root, calculate_instance_size, calculate_instance_size_lem,
  calculate_instance_size_loops,
}

abbrev classes : AHashMap ℕ ClassInfo
classes =
    (
      7,
      record {
        super_class_object_id = 8;
        instance_field_types = FieldType.int ∷ FieldType.byte ∷ [];
      },
    )
    ∷ (8, record { super_class_object_id = 0; instance_field_types = [] })
    ∷ (9, record { super_class_object_id = 9; instance_field_types = [] })
    ∷ []

abbrev recorder : ResultRecorder
recorder = record (new 4 false 0) {
  captured = record nothing_captured { classes_single_instance_size_by_id = classes };
}

calculate_instance_size_lem_example : calculate_instance_size 2 recorder 7 [] ≡ sized 16 []
calculate_instance_size_lem_example =
    calculate_instance_size_lem recorder 2 7 [] ((FieldType.int ∷ FieldType.byte ∷ []) ∷ []) none
      (inl refl) (child refl refl (root refl refl)) (omega arith) (omega arith)

calculate_instance_size_loops_example : calculate_instance_size 100 recorder 9 [] ≡ stuck
calculate_instance_size_loops_example =
    calculate_instance_size_loops recorder 9 []
      (record { super_class_object_id = 9; instance_field_types = [] }) refl refl (omega arith) 100
