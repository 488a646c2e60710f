-- ===== src/Diff/Sums.antt =====
-- Sums over the classes of a dump, at once and by their names, as src/diff.rs makes them.
use mathlib.Core.List.{
  Mem, Pairwise, Nodup, map, mem-cons, mem-cons_self, mem-cons_of_mem, not-mem-nil,
}
use mathlib.Core.Logic.Or
use native.Mathlib.Nat.{ℕ_set}
use hprof_slurp.Prelude.{
  ℕ, ◌+◌, ◌%◌, ◌^◌, ◌≡◌, ◌≢◌, refl, sym, ap, ◌∙◌, List, [], ◌∷◌, if◌then◌else◌, Bool-cases, inl,
  inr, arith,
}
use hprof_slurp.Nom.{Bytes}
use hprof_slurp.Parser.LazyMany.{bytes_eq}
use hprof_slurp.Recorder.Measures.{sum}
use hprof_slurp.Rendered.Stats.{ClassAllocationStats}
use hprof_slurp.Sort.{insert, sort}
use hprof_slurp.Sort.Orders.{Order}
use hprof_slurp.Diff.Compute.{bytes_eq_refl, bytes_eq_sound}
use hprof_slurp.Diff.Totals.{sum_of}

-- The sum of a function over a list.
abbrev pub sum_over : {A : Type 0} → (A → ℕ) → List A → ℕ
sum_over f [] = 0
sum_over f (x ∷ xs) = f x + sum_over f xs

module _ {A : Type 0} where
  pub sum_over-plus :
      (f g : A → ℕ) (l : List A) → sum_over (λ x. f x + g x) l ≡ sum_over f l + sum_over g l
  sum_over-plus f g [] = refl
  sum_over-plus f g (x ∷ xs) = omega (arith, sum_over-plus f g xs)

  pub sum_over-zero : (f : A → ℕ) (l : List A) → ((x : A) → Mem x l → f x ≡ 0) → sum_over f l ≡ 0
  sum_over-zero f [] h = refl
  sum_over-zero f (x ∷ xs) h =
      omega (arith, h x mem-cons_self, sum_over-zero f xs λ y m. h y (mem-cons_of_mem x m))

  pub sum_over-insert :
      (o : Order A) (f : A → ℕ) (x : A) (l : List A)
      → sum_over f (insert o x l) ≡ f x + sum_over f l
  sum_over-insert o f x [] = refl
  sum_over-insert o f x (y ∷ ys) = elim (Bool-cases (o.le x y)) [
    | inl e ↦ rw e refl
    | inr e ↦ rw e (omega (arith, sum_over-insert o f x ys))
  ]

  pub sum_over-sort : (o : Order A) (f : A → ℕ) (l : List A) → sum_over f (sort o l) ≡ sum_over f l
  sum_over-sort o f [] = refl
  sum_over-sort o f (x ∷ xs) =
      sum_over-insert o f x (sort o xs) ∙ ap (λ n. f x + n) (sum_over-sort o f xs)

-- A value at one of some different names.
abbrev only_at : Bytes → ℕ → Bytes → ℕ
only_at k v n = if bytes_eq k n then v else 0

not_at : (k : Bytes) (v : ℕ) (n : Bytes) → k ≢ n → only_at k v n ≡ 0
not_at k v n h = elim (Bool-cases (bytes_eq k n)) [
  | inl e ↦ absurd (h (bytes_eq_sound k n e))
  | inr e ↦ rw e refl
]

pub sum_over-only_at :
    (k : Bytes) (v : ℕ) (names : List Bytes)
    → Nodup names
    → Mem k names
    → sum_over (only_at k v) names ≡ v
sum_over-only_at k v [] h m = absurd (not-mem-nil m)
sum_over-only_at k v (n ∷ ns) (Pairwise.cons h d) m =
    Or.elim (ℕ_set _ _) (mem-cons.0 m)
      (λ e.
        let here : only_at k v n ≡ v = rw (sym e, bytes_eq_refl k) refl in
        let rest = sum_over-zero (only_at k v) ns λ x i. not_at k v x (λ f. h x i (sym e ∙ f)) in
        omega (arith, here, rest))
      (λ i.
        let away = not_at k v n (λ f. h k i (sym f)) in
        omega (arith, away, sum_over-only_at k v ns d i))

-- Summed by names and over the names, or summed at once.
pub sum_over-sum_of :
    (field : ClassAllocationStats → ℕ) (names : List Bytes) (stats : List ClassAllocationStats)
    → Nodup names
    → ((s : ClassAllocationStats) → Mem s stats → Mem s.class_name names)
    → sum_over (λ n. sum_of field n stats) names ≡ sum (map field stats)
sum_over-sum_of field names [] d h = sum_over-zero (λ n. 0) names (λ x m. refl)
sum_over-sum_of field names (s ∷ stats) d h =
    let first = sum_over-only_at s.class_name (field s) names d (h s mem-cons_self) in
    let rest = sum_over-sum_of field names stats d (λ t m. h t (mem-cons_of_mem s m)) in
    let split = sum_over-plus (only_at s.class_name (field s)) (λ n. sum_of field n stats) names in
    omega (arith, first, rest, split)

pub sum_over-mod :
    {A : Type 0} (f : A → ℕ) (l : List A)
    → sum_over (λ x. f x % 2 ^ 64) l % 2 ^ 64 ≡ sum_over f l % 2 ^ 64
sum_over-mod f [] = refl
sum_over-mod f (x ∷ xs) = omega (arith, sum_over-mod f xs)
