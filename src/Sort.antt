-- ===== src/Sort.antt =====
-- The sorting functions of Rust's standard library that the program calls, over a total order: their
-- result is determined by the order, so they are written as an insertion sort.
pub mod Orders
pub mod Laws
pub mod Texts
pub mod Distinct
use hprof_slurp.Prelude.{ℕ, Bool, List, [], ◌∷◌, if◌then◌else◌}
use hprof_slurp.Sort.Orders.{Order}

module _ {A : Type 0} (o : Order A) where
  -- In front of the first element that is not smaller.
  abbrev pub insert : A → List A → List A
  insert x [] = x ∷ []
  insert x (y ∷ ys) = let rest = insert x ys in if o.le x y then x ∷ y ∷ ys else y ∷ rest

  -- Stable: elements that tie keep their order.
  abbrev pub sort : List A → List A
  sort [] = []
  sort (x ∷ xs) = insert x (sort xs)

-- `Vec::dedup`: of equal neighbours the first one stays.
module _ {A : Type 0} (same : A → A → Bool) where
  abbrev pub dedup_from : A → List A → List A
  dedup_from x [] = x ∷ []
  dedup_from x (y ∷ ys) =
      let merged = dedup_from x ys in
      let split = dedup_from y ys in if same x y then merged else x ∷ split

  abbrev pub dedup : List A → List A
  dedup [] = []
  dedup (x ∷ xs) = dedup_from x xs
