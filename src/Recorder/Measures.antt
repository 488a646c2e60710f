-- ===== src/Recorder/Measures.antt =====
-- Summaries of what came in under one key: the last, the first, the number, and the measures of arrays,
-- with the counters of src/result_recorder.rs.
use hprof_slurp.Prelude.{
  ℕ, ◌+◌, ◌%◌, ◌^◌, ◌≡◌, refl, ap, Option, none, some, List, [], ◌∷◌, ◌++◌, length, length-append,
  arith, max,
}
use hprof_slurp.Recorder.State.{
  ClassInstanceCounter, ArrayCounter, no_instances, add_instance, no_arrays, add_array,
}
use hprof_slurp.Recorder.Records.{or_insert_with}

abbrev pub last : {A : Type 0} → List A → Option A
last [] = none
last (x ∷ []) = some x
last (x ∷ y ∷ xs) = last (y ∷ xs)

abbrev pub head : {A : Type 0} → List A → Option A
head [] = none
head (x ∷ _) = some x

pub last-append : {A : Type 0} (xs : List A) (a : A) → last (xs ++ a ∷ []) ≡ some a
last-append [] a = refl
last-append (x ∷ []) a = refl
last-append (x ∷ y ∷ xs) a = last-append (y ∷ xs) a

pub head-append :
    {A : Type 0} (xs : List A) (a : A)
    → head (xs ++ a ∷ []) ≡ some (or_insert_with a (λ i. i) (head xs))
head-append [] a = refl
head-append (x ∷ xs) a = refl

-- The number of instances, in 64 bits.
abbrev pub counted : List (Unit {0}) → Option ClassInstanceCounter
counted [] = none
counted (x ∷ xs) = some (record { number_of_instances = length (x ∷ xs) % 2 ^ 64 })

pub counted-append :
    (xs : List Unit) (a : Unit)
    → counted (xs ++ a ∷ []) ≡ some (or_insert_with no_instances add_instance (counted xs))
counted-append [] a = refl
counted-append (x ∷ xs) a =
    ap (λ n. some (record { number_of_instances = n })) (omega (arith, length-append xs (a ∷ [])))

abbrev pub sum : List ℕ → ℕ
sum [] = 0
sum (n ∷ ns) = n + sum ns

abbrev pub maximum : List ℕ → ℕ
maximum [] = 0
maximum (n ∷ ns) = max n (maximum ns)

-- The number of arrays, their largest size, and the sum of their sizes in 64 bits.
abbrev pub measured : List ℕ → Option ArrayCounter
measured [] = none
measured (n ∷ ns) = some (record {
  number_of_arrays = length (n ∷ ns) % 2 ^ 64;
  max_size_bytes_seen = maximum (n ∷ ns);
  total_size_bytes = sum (n ∷ ns) % 2 ^ 64;
})

sum-append : (ns : List ℕ) (n : ℕ) → sum (ns ++ n ∷ []) ≡ sum ns + n
sum-append [] n = omega arith
sum-append (m ∷ ns) n = omega (arith, sum-append ns n)

maximum-append : (ns : List ℕ) (n : ℕ) → maximum (ns ++ n ∷ []) ≡ max (maximum ns) n
maximum-append [] n = omega arith
maximum-append (m ∷ ns) n = omega (arith, maximum-append ns n)

measures :
    {c d : ArrayCounter}
    → c.number_of_arrays ≡ d.number_of_arrays
    → c.max_size_bytes_seen ≡ d.max_size_bytes_seen
    → c.total_size_bytes ≡ d.total_size_bytes
    → some c ≡ some d
measures p q r i =
    some (record { number_of_arrays = p i; max_size_bytes_seen = q i; total_size_bytes = r i })

pub measured-append :
    (ns : List ℕ) (n : ℕ)
    → measured (ns ++ n ∷ []) ≡ some (or_insert_with no_arrays (add_array n) (measured ns))
measured-append [] n = measures refl (ground arith) (omega arith)
measured-append (m ∷ ns) n =
    measures (omega (arith, length-append ns (n ∷ []))) (ground (arith, maximum-append ns n))
      (omega (arith, sum-append ns n))
