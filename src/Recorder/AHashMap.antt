-- ===== src/Recorder/AHashMap.antt =====
-- The hash maps of src/result_recorder.rs, as association lists.
use hprof_slurp.Prelude.{
  ℕ, Bool, true, false, Option, none, some, List, [], ◌∷◌, ◌==◌, if◌then◌else◌, ◌≡◌, refl, arith,
  Bool-cases, inl, inr, ap, ◌∙◌, sym,
}
use hprof_slurp.Parser.GcRecord.{
  FieldType, object, bool, char, float, double, byte, short, int, long,
}

-- A key's equality test.
pub record Key (K : Type 0) : Type 0 where
  pub same : K → K → Bool
  pub same-refl : (k : K) → same k k ≡ true
  pub same_sound : (j k : K) → same j k ≡ true → j ≡ k

abbrev pub AHashMap : Type 0 → Type 0 → Type 0
AHashMap K V = List (K × V)

module _ {K V : Type 0} (key : Key K) where
  abbrev pub get : K → AHashMap K V → Option V
  get k [] = none
  get k ((j, v) ∷ m) = if key.same j k then some v else get k m

  -- `entry(k)` and what is then done to the value, which gets `none` at a vacant entry.
  abbrev pub upsert : K → (Option V → V) → AHashMap K V → AHashMap K V
  upsert k f [] = (k, f none) ∷ []
  upsert k f ((j, v) ∷ m) =
      let rest = upsert k f m in if key.same j k then (j, f (some v)) ∷ m else (j, v) ∷ rest

  abbrev pub insert : K → V → AHashMap K V → AHashMap K V
  insert k v = upsert k (λ _. v)

  pub get-upsert :
      (k : K) (f : Option V → V) (m : AHashMap K V) → get k (upsert k f m) ≡ some (f (get k m))
  get-upsert k f [] = rw (key.same-refl k)
  get-upsert k f ((j, v) ∷ m) = elim (Bool-cases (key.same j k)) [
    | inl e ↦ rw (e, e)
    | inr e ↦ rw (e, e) (get-upsert k f m)
  ]

  pub get-upsert_other :
      (j k : K) (f : Option V → V) (m : AHashMap K V)
      → key.same k j ≡ false
      → get j (upsert k f m) ≡ get j m
  get-upsert_other j k f [] h = rw h
  get-upsert_other j k f ((i, v) ∷ m) h = elim (Bool-cases (key.same i k)) [
    | inl e ↦ rw (e, (ap (λ x. key.same x j) (key.same_sound i k e) ∙ h))
    | inr e ↦ rw (e, get-upsert_other j k f m h)
  ]

pub ==-refl : (k : ℕ) → (k == k) ≡ true
==-refl k = ground arith

pub ==_sound : (j k : ℕ) → (j == k) ≡ true → j ≡ k
==_sound j k h = ground arith

abbrev pub number : Key ℕ
number = record { same = λ j k. j == k; same-refl = ==-refl; same_sound = ==_sound }

-- The position of a type in `FieldType`.
abbrev pub index_of : FieldType → ℕ
index_of object = 0
index_of bool = 1
index_of char = 2
index_of float = 3
index_of double = 4
index_of byte = 5
index_of short = 6
index_of int = 7
index_of long = 8

abbrev nth_type : ℕ → FieldType
nth_type n =
    if n == 0
    then object
    else if n == 1
    then bool
    else if n == 2
    then char
    else if n == 3
    then float
    else if n == 4
    then double
    else if n == 5
    then byte
    else if n == 6
    then short
    else if n == 7
    then int
    else long

nth_type-index_of : (t : FieldType) → nth_type (index_of t) ≡ t
nth_type-index_of object = refl
nth_type-index_of bool = refl
nth_type-index_of char = refl
nth_type-index_of float = refl
nth_type-index_of double = refl
nth_type-index_of byte = refl
nth_type-index_of short = refl
nth_type-index_of int = refl
nth_type-index_of long = refl

pub index_of_injective : (j k : FieldType) → (index_of j == index_of k) ≡ true → j ≡ k
index_of_injective j k h =
    sym (nth_type-index_of j) ∙ ap nth_type (==_sound _ _ h) ∙ nth_type-index_of k

pub index_of_refl : (k : FieldType) → (index_of k == index_of k) ≡ true
index_of_refl k = ==-refl (index_of k)

-- The derived equality of `FieldType`.
abbrev pub field_type : Key FieldType
field_type = record {
  same = λ j k. index_of j == index_of k;
  same-refl = index_of_refl;
  same_sound = index_of_injective;
}
