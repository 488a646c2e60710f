-- ===== src/Report/Unordered.antt =====
-- `aggregate_memory_usage` of src/result_recorder.rs does not depend on the order of the hash maps.
use mathlib.Core.List.{Perm, map}
use mathlib.Core.List.Perm
use mathlib.Core.Option.{some-injective}
use hprof_slurp.Prelude.{
  ℕ, zero, suc, ◌≡◌, refl, sym, ap, ◌∙◌, true, List, [], ◌++◌, Option, none, some, leb, ◌==◌, arith,
  Bool-cases, inl, inr, ◌⊎◌,
}
use hprof_slurp.Nom.{Bytes}
use hprof_slurp.Parser.GcRecord.{FieldType}
use hprof_slurp.Recorder.AHashMap.{AHashMap, get, number}
use hprof_slurp.Recorder.State.{ResultRecorder, ClassInstanceCounter, ArrayCounter}
use hprof_slurp.Recorder.Sizes.{object_header_size}
use hprof_slurp.Recorder.Results.{find_class_name}
use hprof_slurp.Recorder.InstanceSize.{
  Sized, sized, panics, stuck, header_sized, add_fields, fields_size, align, insert_id,
  calculate_instance_size, calculate_instance_size_recursive,
}
use hprof_slurp.Rendered.Stats.{ClassAllocationStats, by_allocation, by_largest}
use hprof_slurp.Rendered.Stats
use hprof_slurp.Sort.{sort}
use hprof_slurp.Sort.Orders.{then_le_both, lexicographic_le_antisymm}
use hprof_slurp.Sort.Laws.{Le, sort-Perm_unique}
use hprof_slurp.Report.Names.{get_class_name_string, named, cleaned_class_name}
use hprof_slurp.Report.Usage.{
  done, collect, with_size, class_usage, with_label, object_array_usage, primitive_array_usage,
  by_name, by_count, by_names_sizes, by_names_sizes_counts, on_every_field, rows_of,
}
use hprof_slurp.Report.Collect.{value_of, and_then-done, collect-Perm}

-- An outcome without its missing ids.
abbrev clear : Sized → Sized
clear (sized size ids) = sized size []
clear panics = panics
clear stuck = stuck

clear-header_sized :
    (o : Option ℕ) (ids ids' : List ℕ) → clear (header_sized o ids) ≡ clear (header_sized o ids')
clear-header_sized none ids ids' = refl
clear-header_sized (some n) ids ids' = refl

clear-add_fields : (n m : ℕ) (a : Sized) → clear (add_fields n m a) ≡ add_fields n m (clear a)
clear-add_fields n m (sized size ids) = refl
clear-add_fields n m panics = refl
clear-add_fields n m stuck = refl

clear-align : (a : Sized) → clear (align a) ≡ align (clear a)
clear-align (sized size ids) = refl
clear-align panics = refl
clear-align stuck = refl

Option-cases : {A : Type 0} (o : Option A) → (o ≡ none) ⊎ ((a : A) × (o ≡ some a))
Option-cases none = inl refl
Option-cases (some a) = inr (a, refl)

clear-recursive :
    (fuel : ℕ) (s : ResultRecorder) (k : ℕ) (ids ids' : List ℕ)
    → clear (calculate_instance_size_recursive fuel s k ids)
      ≡ clear (calculate_instance_size_recursive fuel s k ids')
unfolding calculate_instance_size_recursive
clear-recursive zero s k ids ids' = refl
clear-recursive (suc fuel) s k ids ids' =
    elim (Option-cases (get number k s.captured.classes_single_instance_size_by_id)) [
      | inl e ↦
          rw (e, calculate_instance_size_recursive)
            (clear-header_sized (object_header_size s.id_size) (insert_id k ids) (insert_id k ids'))
      | inr (info, e) ↦ elim (Bool-cases (info.super_class_object_id == 0)) [
        | inl z ↦
            rw (e, z, calculate_instance_size_recursive)
              (clear-header_sized (object_header_size s.id_size) ids ids')
        | inr z ↦
            let size = fields_size s.id_size info.instance_field_types in
            let super_id = info.super_class_object_id in
            rw (e, z, calculate_instance_size_recursive)
              (clear-add_fields s.id_size size
                  (calculate_instance_size_recursive fuel s super_id ids)
                ∙ ap (add_fields s.id_size size) (clear-recursive fuel s super_id ids ids')
                ∙ sym (
                    clear-add_fields s.id_size size
                      (calculate_instance_size_recursive fuel s super_id ids')))
      ]
    ]

clear-size :
    (fuel : ℕ) (s : ResultRecorder) (k : ℕ) (ids ids' : List ℕ)
    → clear (calculate_instance_size fuel s k ids) ≡ clear (calculate_instance_size fuel s k ids')
clear-size fuel s k ids ids' =
    clear-align (calculate_instance_size_recursive fuel s k ids)
    ∙ ap align (clear-recursive fuel s k ids ids')
    ∙ sym (clear-align (calculate_instance_size_recursive fuel s k ids'))

-- A row does not depend on the ids that are missing so far.
with_size-clear :
    (name : Bytes) (n : ℕ) (a : Sized)
    → value_of (with_size name n a) ≡ value_of (with_size name n (clear a))
with_size-clear name n (sized size ids) = refl
with_size-clear name n panics = refl
with_size-clear name n stuck = refl

name-same :
    (s : ResultRecorder) (k : ℕ) (ids ids' : List ℕ)
    → (get_class_name_string s k ids).0 ≡ (get_class_name_string s k ids').0
unfolding get_class_name_string
name-same s k ids ids' = go (find_class_name s k)
  where
    go : (o : Option Bytes) → (named k ids o).0 ≡ (named k ids' o).0
    go none = refl
    go (some name) = refl

class_usage-same :
    (fuel : ℕ) (s : ResultRecorder) (e : ℕ × ClassInstanceCounter) (ids ids' : List ℕ)
    → value_of (class_usage fuel s e ids) ≡ value_of (class_usage fuel s e ids')
class_usage-same fuel s (k, v) ids ids' =
    let n = v.number_of_instances in
    let (name, i) = get_class_name_string s k ids in
    let (name', i') = get_class_name_string s k ids' in
    with_size-clear name n (calculate_instance_size fuel s k i)
    ∙ ap (λ a. value_of (with_size name n a)) (clear-size fuel s k i i')
    ∙ sym (with_size-clear name n (calculate_instance_size fuel s k i'))
    ∙ ap (λ x. value_of (with_size x n (calculate_instance_size fuel s k i')))
        (name-same s k ids ids')

with_label-same :
    (ac : ArrayCounter) (ids ids' : List ℕ) (o : Option Bytes)
    → value_of (with_label ac ids o) ≡ value_of (with_label ac ids' o)
with_label-same ac ids ids' none = refl
with_label-same ac ids ids' (some label) = refl

object_array_usage-same :
    (s : ResultRecorder) (e : ℕ × ArrayCounter) (ids ids' : List ℕ)
    → value_of (object_array_usage s e ids) ≡ value_of (object_array_usage s e ids')
object_array_usage-same s (k, ac) ids ids' =
    let (name, i) = get_class_name_string s k ids in
    let (name', i') = get_class_name_string s k ids' in
    with_label-same ac i i' (cleaned_class_name name)
    ∙ ap (λ x. value_of (with_label ac i' (cleaned_class_name x))) (name-same s k ids ids')

same_stats :
    {a b : ClassAllocationStats}
    → a.class_name ≡ b.class_name
    → a.instance_count ≡ b.instance_count
    → a.largest_allocation_bytes ≡ b.largest_allocation_bytes
    → a.allocation_size_bytes ≡ b.allocation_size_bytes
    → a ≡ b
same_stats p q r s i = record {
  class_name = p i;
  instance_count = q i;
  largest_allocation_bytes = r i;
  allocation_size_bytes = s i;
}

pub leb_antisymm : (a b : ℕ) → leb a b ≡ true → leb b a ≡ true → a ≡ b
leb_antisymm a b h k = ground arith

on_every_field_antisymm :
    (a b : ClassAllocationStats) → Le on_every_field a b → Le on_every_field b a → a ≡ b
on_every_field_antisymm a b h k =
    let (o1, o2, p1, p2) = then_le_both by_names_sizes_counts by_largest a b h k in
    let (q1, q2, r1, r2) = then_le_both by_names_sizes by_count a b o1 o2 in
    let (s1, s2, t1, t2) = then_le_both by_name by_allocation a b q1 q2 in
    same_stats (lexicographic_le_antisymm a.class_name b.class_name s2 s1)
      (leb_antisymm a.instance_count b.instance_count r2 r1)
      (leb_antisymm a.largest_allocation_bytes b.largest_allocation_bytes p2 p1)
      (leb_antisymm a.allocation_size_bytes b.allocation_size_bytes t2 t1)

nothing : ClassAllocationStats
nothing = Stats.new [] 0 0 0

Option-ClassAllocationStats-set : IsSet (Option ClassAllocationStats)
Option-ClassAllocationStats-set = hlevel

-- Let the rows of three maps be made without a panic, and let three maps with the same entries come in
-- other orders. Then these make the same rows without a panic, whatever ids are missing so far.
pub rows_of_unordered :
    (fuel : ℕ) (s : ResultRecorder) (classes classes' : AHashMap ℕ ClassInstanceCounter)
    (primitives primitives' : AHashMap FieldType ArrayCounter)
    (objects objects' : AHashMap ℕ ArrayCounter) (ids ids' missing : List ℕ)
    (rows : List ClassAllocationStats)
    → Perm classes classes'
    → Perm primitives primitives'
    → Perm objects objects'
    → rows_of fuel s classes primitives objects ids ≡ done rows missing
    → (missing' : List ℕ) × (rows_of fuel s classes' primitives' objects' ids' ≡ done rows missing')
rows_of_unordered fuel s classes classes' primitives primitives' objects objects' ids ids' missing
      rows p q r h =
    let (a, i, e, k) =
      and_then-done (collect (class_usage fuel s) classes ids) _ rows (ap value_of h) in
    let (b, j, f, n) = and_then-done (collect (object_array_usage s) objects i) _ rows k in
    let (a', p', make_a) =
      collect-Perm (class_usage fuel s) nothing Option-ClassAllocationStats-set
        (class_usage-same fuel s) classes classes' ids i a p e in
    let (b', r', make_b) =
      collect-Perm (object_array_usage s) nothing Option-ClassAllocationStats-set
        (object_array_usage-same s) objects objects' i j b r f in
    let (i', e') = make_a ids' in
    let (j', f') = make_b i' in
    let l = a ++ (map primitive_array_usage primitives ++ b) in
    let l' = a' ++ (map primitive_array_usage primitives' ++ b') in
    let same : Perm l l' = Perm.append p' (Perm.append (Perm.map primitive_array_usage q) r') in
    let sorted : sort on_every_field l' ≡ rows =
      sym (sort-Perm_unique on_every_field on_every_field_antisymm l l' same)
      ∙ some-injective _ _ n in
    (j', rw (e', f') (ap (λ x. done x j') sorted))
