-- ===== src/Recorder/InstanceSize.antt =====
-- `calculate_instance_size` of src/result_recorder.rs: the size of a class's instances, along the
-- chain of its super classes.
use hprof_slurp.Prelude.{
  ℕ, zero, suc, ◌+◌, ◌*◌, ◌/◌, ◌%◌, ◌^◌, ◌<◌, ◌≡◌, refl, subst, sym, ap, ◌∙◌, inl, inr, false,
  Option, none, some, List, [], ◌∷◌, length, ◌==◌, if◌then◌else◌, arith,
}
use hprof_slurp.Parser.GcRecord.{
  FieldType, object, bool, char, float, double, byte, short, int, long,
}
use hprof_slurp.Format.Fields.{IsIdSize}
use hprof_slurp.Recorder.AHashMap.{AHashMap, get, number}
use hprof_slurp.Recorder.Sizes.{next_multiple_of, object_align, field_size, object_header_size}
use hprof_slurp.Recorder.Events.{padded, element_bytes}
use hprof_slurp.Recorder.State.{ClassInfo, ResultRecorder}

-- A size and the set of missing class ids, or a panic; `stuck` is no outcome of the program, it says
-- that the model's fuel ran out.
pub data Sized : Type 0 where
  sized : (size : ℕ) (missing_class_ids : List ℕ) → Sized
  panics stuck : Sized

-- Adding to the set.
abbrev pub insert_id : ℕ → List ℕ → List ℕ
insert_id k [] = k ∷ []
insert_id k (j ∷ ids) = let rest = insert_id k ids in if j == k then j ∷ ids else j ∷ rest

abbrev pub header_sized : Option ℕ → List ℕ → Sized
header_sized none ids = panics
header_sized (some size) ids = sized size ids

abbrev pub fields_size : ℕ → List FieldType → ℕ
fields_size id_size [] = 0
fields_size id_size (t ∷ ts) = field_size t id_size + fields_size id_size ts

-- The fields' bytes on top of the super class's, in 32 bits.
abbrev pub add_fields : ℕ → ℕ → Sized → Sized
add_fields id_size size (sized super_size ids) =
    sized (next_multiple_of ((size % 2 ^ 32 + super_size) % 2 ^ 32) id_size % 2 ^ 32) ids
add_fields id_size size panics = panics
add_fields id_size size stuck = stuck

unfoldable pub calculate_instance_size_recursive : ℕ → ResultRecorder → ℕ → List ℕ → Sized
calculate_instance_size_recursive zero s class_id ids = stuck
calculate_instance_size_recursive (suc fuel) s class_id ids =
    elim (get number class_id s.captured.classes_single_instance_size_by_id) [
      | none ↦ header_sized (object_header_size s.id_size) (insert_id class_id ids)
      | some info ↦
          let super_sized =
            calculate_instance_size_recursive fuel s info.super_class_object_id ids in
          if info.super_class_object_id == 0
          then header_sized (object_header_size s.id_size) ids
          else add_fields s.id_size (fields_size s.id_size info.instance_field_types) super_sized
    ]

abbrev pub align : Sized → Sized
align (sized size ids) = sized (next_multiple_of size object_align % 2 ^ 32) ids
align panics = panics
align stuck = stuck

abbrev pub calculate_instance_size : ℕ → ResultRecorder → ℕ → List ℕ → Sized
calculate_instance_size fuel s class_id ids =
    align (calculate_instance_size_recursive fuel s class_id ids)

-- The fields of a class and of its super classes, up to the root, whose own fields do not count, or
-- up to a class that the dump does not hold.
pub data Chain (infos : AHashMap ℕ ClassInfo) : ℕ → List (List FieldType) → Option ℕ → Type 0 where
  missing : {k : ℕ} → get number k infos ≡ none → Chain infos k [] (some k)
  root :
      {k : ℕ} {info : ClassInfo}
      → get number k infos ≡ some info
      → info.super_class_object_id ≡ 0
      → Chain infos k [] none
  child :
      {k : ℕ} {info : ClassInfo} {fs : List (List FieldType)} {end : Option ℕ}
      → get number k infos ≡ some info
      → (info.super_class_object_id == 0) ≡ false
      → Chain infos info.super_class_object_id fs end
      → Chain infos k (info.instance_field_types ∷ fs) end

abbrev pub round_up : ℕ → ℕ → ℕ
round_up n x = if n == 4 then 4 * ((x + 3) / 4) else 8 * ((x + 7) / 8)

-- The bytes that a field takes: an id for an object, and the bytes of its type for all else.
abbrev pub field_bytes : ℕ → FieldType → ℕ
field_bytes n object = n
field_bytes n t = element_bytes t

abbrev pub bytes_of_fields : ℕ → List FieldType → ℕ
bytes_of_fields n [] = 0
bytes_of_fields n (t ∷ ts) = field_bytes n t + bytes_of_fields n ts

-- The layout: a header of 8 or 16 bytes, and on it the fields of each class, rounded up to ids.
abbrev pub layout : ℕ → List (List FieldType) → ℕ
layout n [] = if n == 4 then 8 else 16
layout n (ts ∷ fs) = round_up n (bytes_of_fields n ts + layout n fs)

abbrev pub with_missing : Option ℕ → List ℕ → List ℕ
with_missing none ids = ids
with_missing (some k) ids = insert_id k ids

field_size_lem : (n : ℕ) (t : FieldType) → field_size t n ≡ field_bytes n t
field_size_lem n object = refl
field_size_lem n bool = refl
field_size_lem n char = refl
field_size_lem n float = refl
field_size_lem n double = refl
field_size_lem n byte = refl
field_size_lem n short = refl
field_size_lem n int = refl
field_size_lem n long = refl

fields_size_lem : (n : ℕ) (ts : List FieldType) → fields_size n ts ≡ bytes_of_fields n ts
fields_size_lem n [] = refl
fields_size_lem n (t ∷ ts) = rw (field_size_lem n t, fields_size_lem n ts) refl

header_lem :
    (n : ℕ) (ids : List ℕ)
    → IsIdSize n
    → header_sized (object_header_size n) ids ≡ sized (layout n []) ids
header_lem n ids (inl e) = rw e refl
header_lem n ids (inr e) = rw e refl

abbrev Rounds : ℕ → ℕ → ℕ → Type 0
Rounds x y n =
    round_up n (x + y) < 2 ^ 32
    → (next_multiple_of ((x % 2 ^ 32 + y) % 2 ^ 32) n % 2 ^ 32 ≡ round_up n (x + y)) × (y < 2 ^ 32)

Rounds-4 : (x y : ℕ) → Rounds x y 4
Rounds-4 x y h = (ground arith, omega arith)

Rounds-8 : (x y : ℕ) → Rounds x y 8
Rounds-8 x y h = (ground arith, omega arith)

round_up_lem : (n x y : ℕ) → IsIdSize n → Rounds x y n
round_up_lem n x y (inl e) = subst (Rounds x y) (sym e) (Rounds-4 x y)
round_up_lem n x y (inr e) = subst (Rounds x y) (sym e) (Rounds-8 x y)

aligned : (x : ℕ) → padded x < 2 ^ 32 → next_multiple_of x object_align % 2 ^ 32 ≡ padded x
aligned x h = ground arith

Chain-sized :
    (s : ResultRecorder) (fuel k : ℕ) (ids : List ℕ) (fs : List (List FieldType)) (end : Option ℕ)
    → IsIdSize s.id_size
    → Chain s.captured.classes_single_instance_size_by_id k fs end
    → layout s.id_size fs < 2 ^ 32
    → length fs < fuel
    → calculate_instance_size_recursive fuel s k ids
      ≡ sized (layout s.id_size fs) (with_missing end ids)
unfolding calculate_instance_size_recursive
Chain-sized s zero k ids fs end hn c h hf = absurd (omega arith)
Chain-sized s (suc fuel) k ids fs end hn (missing e) h hf =
    rw (e, calculate_instance_size_recursive) (header_lem s.id_size (insert_id k ids) hn)
Chain-sized s (suc fuel) k ids fs end hn (root e z) h hf =
    rw (e, z, calculate_instance_size_recursive) (header_lem s.id_size ids hn)
Chain-sized s (suc fuel) k ids fs end hn (child {info} {fs = gs} e z c) h hf =
    let (same, small) =
      round_up_lem s.id_size (bytes_of_fields s.id_size info.instance_field_types)
        (layout s.id_size gs) hn h in
    rw
      (
        e,
        z,
        calculate_instance_size_recursive,
        fields_size_lem s.id_size info.instance_field_types,
        Chain-sized s fuel info.super_class_object_id ids gs end hn c small (omega arith),
        same,
      )
      refl

-- For an id size of 4 or 8, let the classes from `class_id` up be a chain that ends at a root or at a
-- class that the dump does not hold, and let their layout, padded to 8 bytes, fit 32 bits. Then fuel
-- beyond the number of classes is enough, the size of an instance is that padded layout, and the
-- class that is not held, if there is one, joins the missing ids.
pub calculate_instance_size_lem :
    (s : ResultRecorder) (fuel class_id : ℕ) (ids : List ℕ) (fs : List (List FieldType))
    (end : Option ℕ)
    → IsIdSize s.id_size
    → Chain s.captured.classes_single_instance_size_by_id class_id fs end
    → padded (layout s.id_size fs) < 2 ^ 32
    → length fs < fuel
    → calculate_instance_size fuel s class_id ids
      ≡ sized (padded (layout s.id_size fs)) (with_missing end ids)
calculate_instance_size_lem s fuel class_id ids fs end hn c h hf =
    ap align (Chain-sized s fuel class_id ids fs end hn c (omega arith) hf)
    ∙ ap (λ size. sized size (with_missing end ids)) (aligned (layout s.id_size fs) h)

loops :
    (s : ResultRecorder) (class_id : ℕ) (ids : List ℕ) (info : ClassInfo)
    → get number class_id s.captured.classes_single_instance_size_by_id ≡ some info
    → info.super_class_object_id ≡ class_id
    → (class_id == 0) ≡ false
    → (fuel : ℕ) → calculate_instance_size_recursive fuel s class_id ids ≡ stuck
unfolding calculate_instance_size_recursive
loops s class_id ids info e own pos zero = refl
loops s class_id ids info e own pos (suc fuel) =
    rw (e, own, pos, calculate_instance_size_recursive, loops s class_id ids info e own pos fuel)
      refl

-- Where a class is its own super class and is not 0, no fuel is enough: the recursion does not end.
pub calculate_instance_size_loops :
    (s : ResultRecorder) (class_id : ℕ) (ids : List ℕ) (info : ClassInfo)
    → get number class_id s.captured.classes_single_instance_size_by_id ≡ some info
    → info.super_class_object_id ≡ class_id
    → 0 < class_id
    → (fuel : ℕ) → calculate_instance_size fuel s class_id ids ≡ stuck
calculate_instance_size_loops s class_id ids info e own pos fuel =
    ap align (loops s class_id ids info e own (ground arith) fuel)
