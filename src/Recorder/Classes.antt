-- ===== src/Recorder/Classes.antt =====
-- The class data of src/result_recorder.rs: its two indices are valid, and lead to the last class
-- that was loaded under a key.
use hprof_slurp.Prelude.{
  ℕ, ◌-◌, ◌<◌, ◌≡◌, refl, sym, ap, ◌∙◌, Bool, true, false, Option, none, some, ◌>>=◌, List, [], ◌∷◌,
  ◌++◌, length, length-append, get_elem?, get_elem?-append, get_elem?-length, ◌==◌, Bool-cases, inl,
  inr, arith,
}
use mathlib.Core.Option.{none-ne-some}
use hprof_slurp.Parser.Record.{LoadClassData}
use hprof_slurp.Recorder.AHashMap.{AHashMap, get, insert, number}
use hprof_slurp.Recorder.State.{Captured, nothing_captured}
use hprof_slurp.Recorder.Events.{
  Event, string, class, frame, trace, instance_of, object_array, primitive_array, dumped, other,
  capture, captures,
}
use hprof_slurp.Recorder.Summary.{pick, when, put, get-upsert-put, captures_summary}
use hprof_slurp.Recorder.Measures.{last, last-append}

abbrev pub loaded : Event → Option LoadClassData
loaded (class d) = some d
loaded _ = none

-- The class that an event loads, if its key is `k`.
abbrev pub class_of : (LoadClassData → ℕ) → ℕ → Event → Option LoadClassData
class_of key_of k e = loaded e >>= λ d. when (key_of d == k) d

-- The two indices.
abbrev pub Index : Type 0
Index = Captured → AHashMap ℕ ℕ

-- An index changes when a class is loaded, and only then.
pub record IsIndex (index : Index) (key_of : LoadClassData → ℕ) : Type 0 where
  pub empty : index nothing_captured ≡ []
  pub on_class :
      (c : Captured) (d : LoadClassData)
      → index (capture c (class d))
        ≡ insert number (key_of d) (length (c.class_data ++ d ∷ []) - 1) (index c)
  pub on_other :
      (c : Captured) (e : Event)
      → loaded e ≡ none
      → (index (capture c e) ≡ index c) × ((capture c e).class_data ≡ c.class_data)

abbrev pub find_class : Index → Captured → ℕ → Option LoadClassData
find_class index c k = get number k (index c) >>= get_elem? c.class_data

seek :
    (xs : List LoadClassData) (d : LoadClassData) (o : Option ℕ) (b : Bool)
    → ((i : ℕ) → o ≡ some i → i < length xs)
    → (put (λ a _. a) (when b (length xs)) o >>= get_elem? (xs ++ d ∷ []))
      ≡ put (λ a _. a) (when b d) (o >>= get_elem? xs)
seek xs d o true v = get_elem?-length xs d
seek xs d none false v = refl
seek xs d (some i) false v = get_elem?-append xs (d ∷ []) i (v i refl)

module _ {index : Index} {key_of : LoadClassData → ℕ} (is : IsIndex index key_of) where
  -- Every entry of the index is a position of the class data.
  abbrev InRange : Captured → Type 0
  InRange c = (k i : ℕ) → get number k (index c) ≡ some i → i < length c.class_data

  get-loaded :
      (k : ℕ) (c : Captured) (d : LoadClassData)
      → get number k (index (capture c (class d)))
        ≡ put (λ a _. a) (when (key_of d == k) (length c.class_data)) (get number k (index c))
  get-loaded k c d =
      let at_end : length (c.class_data ++ d ∷ []) - 1 ≡ length c.class_data =
        omega (arith, length-append c.class_data (d ∷ [])) in
      ap (get number k) (is.on_class c d)
      ∙ get-upsert-put number (key_of d) k (λ a _. a) _ (index c)
      ∙ rw at_end refl

  loaded-InRange : (c : Captured) (d : LoadClassData) → InRange c → InRange (capture c (class d))
  loaded-InRange c d v k i h =
      let longer = length-append c.class_data (d ∷ []) in
      elim (Bool-cases (key_of d == k)) [
        | inl e ↦
            let same : length c.class_data ≡ i = cc (get-loaded k c d, h, e) in
            omega (arith, longer, same)
        | inr e ↦
            let old : get number k (index c) ≡ some i = cc (get-loaded k c d, h, e) in
            let before = v k i old in omega (arith, longer, before)
      ]

  find_class-loaded :
      (k : ℕ) (c : Captured) (d : LoadClassData)
      → InRange c
      → find_class index (capture c (class d)) k
        ≡ put (λ a _. a) (when (key_of d == k) d) (find_class index c k)
  find_class-loaded k c d v =
      ap (λ o. o >>= get_elem? (c.class_data ++ d ∷ [])) (get-loaded k c d)
      ∙ seek c.class_data d (get number k (index c)) (key_of d == k) (v k)

  find_class-other :
      (k : ℕ) (c : Captured) (e : Event)
      → loaded e ≡ none
      → find_class index (capture c e) k ≡ find_class index c k
  find_class-other k c e n = let (same, kept) = is.on_other c e n in rw (same, kept) refl

  other-InRange : (c : Captured) (e : Event) → loaded e ≡ none → InRange c → InRange (capture c e)
  other-InRange c e n v k i h =
      let (same, kept) = is.on_other c e n in rw kept (v k i (sym (ap (get number k) same) ∙ h))

  capture-InRange : (c : Captured) (e : Event) → InRange c → InRange (capture c e)
  capture-InRange c (class d) v = loaded-InRange c d v
  capture-InRange c (string id str) v = other-InRange c (string id str) refl v
  capture-InRange c (frame f) v = other-InRange c (frame f) refl v
  capture-InRange c (trace t) v = other-InRange c (trace t) refl v
  capture-InRange c (instance_of id) v = other-InRange c (instance_of id) refl v
  capture-InRange c (object_array id n) v = other-InRange c (object_array id n) refl v
  capture-InRange c (primitive_array t n) v = other-InRange c (primitive_array t n) refl v
  capture-InRange c (dumped id info) v = other-InRange c (dumped id info) refl v
  capture-InRange c other v = other-InRange c other refl v

  find_class_step :
      (k : ℕ) (c : Captured) (e : Event)
      → InRange c
      → find_class index (capture c e) k
        ≡ put (λ a _. a) (class_of key_of k e) (find_class index c k)
  find_class_step k c (class d) v = find_class-loaded k c d v
  find_class_step k c (string id str) v = find_class-other k c (string id str) refl
  find_class_step k c (frame f) v = find_class-other k c (frame f) refl
  find_class_step k c (trace t) v = find_class-other k c (trace t) refl
  find_class_step k c (instance_of id) v = find_class-other k c (instance_of id) refl
  find_class_step k c (object_array id n) v = find_class-other k c (object_array id n) refl
  find_class_step k c (primitive_array t n) v = find_class-other k c (primitive_array t n) refl
  find_class_step k c (dumped id info) v = find_class-other k c (dumped id info) refl
  find_class_step k c other v = find_class-other k c other refl

  -- Through an index, the last class that was loaded with the key is found.
  pub find_class_lem :
      (es : List Event) (k : ℕ)
      → find_class index (captures nothing_captured es) k ≡ last (pick (class_of key_of k) es)
  find_class_lem es k =
      captures_summary (λ c. find_class index c k) InRange (class_of key_of k) last (λ a _. a)
        (find_class_step k) capture-InRange last-append nothing_captured es []
        (λ j i h. absurd (none-ne-some _ (sym (ap (get number j) is.empty) ∙ h)))
        (ap (λ m. get number k m >>= get_elem? []) is.empty)

on_other :
    (c : Captured) (e : Event)
    → loaded e ≡ none
    → ((capture c e).class_data_by_id ≡ c.class_data_by_id)
      × ((capture c e).class_data_by_serial_number ≡ c.class_data_by_serial_number)
      × ((capture c e).class_data ≡ c.class_data)
on_other c (class d) h = absurd (none-ne-some _ (sym h))
on_other c (string id str) h = (refl, refl, refl)
on_other c (frame f) h = (refl, refl, refl)
on_other c (trace t) h = (refl, refl, refl)
on_other c (instance_of id) h = (refl, refl, refl)
on_other c (object_array id n) h = (refl, refl, refl)
on_other c (primitive_array t n) h = (refl, refl, refl)
on_other c (dumped id info) h = (refl, refl, refl)
on_other c other h = (refl, refl, refl)

pub class_data_by_id-IsIndex : IsIndex (λ c. c.class_data_by_id) (λ d. d.class_object_id)
class_data_by_id-IsIndex = record {
  empty = refl;
  on_class = λ c d. refl;
  on_other = λ c e h. let (i, s, d) = on_other c e h in (i, d);
}

pub class_data_by_serial_number-IsIndex :
    IsIndex (λ c. c.class_data_by_serial_number) (λ d. d.serial_number)
class_data_by_serial_number-IsIndex = record {
  empty = refl;
  on_class = λ c d. refl;
  on_other = λ c e h. let (i, s, d) = on_other c e h in (s, d);
}
