-- ===== src/Diff/Net.antt =====
-- The entries of a diff of src/diff.rs account for the whole difference of two dumps.
use mathlib.Core.Bool.{Bool-discrete}
use mathlib.Core.List.{
  Mem, Mem-prop, map, filter, mem-cons, mem-cons_self, mem-cons_of_mem, not-mem-nil, mem-append,
}
use mathlib.Core.Logic.Or
use hprof_slurp.Prelude.{
  ℕ, ◌+◌, ◌%◌, ◌^◌, ◌≡◌, refl, sym, ap, ◌∙◌, subst, Option, Bool, true, false, List, [], ◌∷◌, ◌++◌,
  ◌||◌, fun_ext, Bool-cases, inl, inr, arith,
}
use hprof_slurp.Nom.{Bytes}
use hprof_slurp.Parser.LazyMany.{bytes_eq}
use hprof_slurp.Rendered.Stats.{ClassAllocationStats, total_shallow_bytes}
use hprof_slurp.Sort.{sort}
use hprof_slurp.Sort.Orders.{lexicographic}
use hprof_slurp.Diff.Compute.{
  DiffEntry, bytes_eq_sound, string, add_stats, add_totals, keys, class_names, is_changed,
  is_nonzero, delta_bytes, delta_instances, entry_in, compute, by_growth,
}
use hprof_slurp.Diff.Totals.{sum_of, mem-keys}
use hprof_slurp.Diff.Entries.{
  by_from, by_to, entry_of, entry_in-entry_of, names_IsSorted, wrapping_delta-zero,
}
use hprof_slurp.Recorder.AHashMap.{AHashMap, get, upsert, get-upsert}
use hprof_slurp.Sort.Laws.{sort-Perm}
use hprof_slurp.Sort.Distinct.{mem-dedup}
use mathlib.Core.List.Perm
use hprof_slurp.Diff.Sums.{sum_over, sum_over-mod, sum_over-sort, sum_over-sum_of}

-- Every class name is a key of its totals.
mem-upsert :
    (j k : Bytes) (f : Option (ℕ × ℕ) → ℕ × ℕ) (m : AHashMap Bytes (ℕ × ℕ))
    → Mem k (keys m)
    → Mem k (keys (upsert string j f m))
mem-upsert j k f [] h = absurd (not-mem-nil h)
mem-upsert j k f ((i, v) ∷ m) h = elim (Bool-cases (bytes_eq i j)) [
  | inl e ↦ rw e h
  | inr e ↦ rw e (
      Or.elim (Mem-prop {a = k} {l = i ∷ keys (upsert string j f m)}) (mem-cons.0 h)
        (λ g. subst (λ x. Mem x (i ∷ keys (upsert string j f m))) (sym g) mem-cons_self)
        (λ n. mem-cons_of_mem i (mem-upsert j k f m n)))
]

mem-upsert_self :
    (k : Bytes) (f : Option (ℕ × ℕ) → ℕ × ℕ) (m : AHashMap Bytes (ℕ × ℕ))
    → Mem k (keys (upsert string k f m))
mem-upsert_self k f m =
    mem-keys k (upsert string k f m) (f (get string k m)) (get-upsert string k f m)

mem-add_totals :
    (k : Bytes) (stats : List ClassAllocationStats) (m : AHashMap Bytes (ℕ × ℕ))
    → Mem k (keys m)
    → Mem k (keys (add_totals stats m))
mem-add_totals k [] m h = h
mem-add_totals k (s ∷ stats) m h =
    mem-add_totals k stats (upsert string s.class_name (add_stats s) m)
      (mem-upsert s.class_name k (add_stats s) m h)

mem-totals :
    (s : ClassAllocationStats) (stats : List ClassAllocationStats) (m : AHashMap Bytes (ℕ × ℕ))
    → Mem s stats
    → Mem s.class_name (keys (add_totals stats m))
mem-totals s [] m h = absurd (not-mem-nil h)
mem-totals s (x ∷ stats) m h =
    let m' = upsert string x.class_name (add_stats x) m in
    Or.elim (Mem-prop {a = s.class_name} {l = keys (add_totals stats m')}) (mem-cons.0 h)
      (λ e. mem-add_totals s.class_name stats m' (
        subst (λ y. Mem y.class_name (keys m')) (sym e)
          (mem-upsert_self x.class_name (add_stats x) m)))
      (λ n. mem-totals s stats m' n)

first_false : (a b : Bool) → (a || b) ≡ false → a ≡ false
first_false false b h = refl
first_false true b h = h

module _ (from to : List ClassAllocationStats) where
  abbrev names : List Bytes
  names = class_names (by_from from to) (by_to from to)

  mem-names : (k : Bytes) → Mem k (keys (by_from from to) ++ keys (by_to from to)) → Mem k names
  mem-names k h =
      let l = keys (by_from from to) ++ keys (by_to from to) in
      (mem-dedup bytes_eq bytes_eq_sound (sort lexicographic l) k).1
        ((Perm.mem_iff (sort-Perm lexicographic l)).1 h)

  all_from :
      sum_over (λ n. (entry_of from to n).bytes_from) names % 2 ^ 64 ≡ total_shallow_bytes from
  all_from =
      sum_over-mod (λ n. sum_of (λ s. s.allocation_size_bytes) n from) names
      ∙ ap (λ x. x % 2 ^ 64)
          (sum_over-sum_of (λ s. s.allocation_size_bytes) names from
            (names_IsSorted (by_from from to) (by_to from to)).1
            λ s m. mem-names s.class_name (mem-append.1 ∣ inl (mem-totals s from [] m) ∣₁))

  all_to : sum_over (λ n. (entry_of from to n).bytes_to) names % 2 ^ 64 ≡ total_shallow_bytes to
  all_to =
      sum_over-mod (λ n. sum_of (λ s. s.allocation_size_bytes) n to) names
      ∙ ap (λ x. x % 2 ^ 64)
          (sum_over-sum_of (λ s. s.allocation_size_bytes) names to
            (names_IsSorted (by_from from to) (by_to from to)).1
            λ s m. mem-names s.class_name (mem-append.1 ∣ inr (mem-totals s to [] m) ∣₁))

  abbrev kept : List Bytes → List DiffEntry
  kept l = filter (λ e. Bool-discrete (is_changed e) true) (map (entry_of from to) l)

  -- What is left out is the same on both sides.
  unchanged :
      (n : Bytes)
      → is_changed (entry_of from to n) ≡ false
      → (entry_of from to n).bytes_to ≡ (entry_of from to n).bytes_from
  unchanged n h =
      let e = entry_of from to n in
      wrapping_delta-zero e.bytes_to e.bytes_from (omega arith) (omega arith)
        (first_false (is_nonzero (delta_bytes e)) (is_nonzero (delta_instances e)) h)

  balance :
      (l : List Bytes)
      → sum_over (λ e. e.bytes_to) (kept l) + sum_over (λ n. (entry_of from to n).bytes_from) l
        ≡ sum_over (λ e. e.bytes_from) (kept l) + sum_over (λ n. (entry_of from to n).bytes_to) l
  balance [] = refl
  balance (n ∷ l) = elim (Bool-cases (is_changed (entry_of from to n))) [
    | inl e ↦ rw e (omega (arith, balance l))
    | inr e ↦ rw e (omega (arith, unchanged n e, balance l))
  ]

  kept_entries :
      filter
        (λ e. Bool-discrete (is_changed e) true)
        (map (entry_in (by_from from to) (by_to from to)) names)
      ≡ kept names
  kept_entries =
      ap (λ g. filter (λ e. Bool-discrete (is_changed e) true) (map g names))
        (fun_ext λ n. entry_in-entry_of from to n)

  -- The bytes of all entries on both sides differ as the totals of the two dumps do, in 64 bits: no
  -- difference is lost and none counts twice.
  pub compute_net :
      (sum_over (λ e. e.bytes_to) (compute from to) + total_shallow_bytes from) % 2 ^ 64
      ≡ (sum_over (λ e. e.bytes_from) (compute from to) + total_shallow_bytes to) % 2 ^ 64
  unfolding compute
  compute_net =
      let sums : (f : DiffEntry → ℕ) → sum_over f (compute from to) ≡ sum_over f (kept names) =
        λ f. sum_over-sort by_growth f _ ∙ ap (sum_over f) kept_entries in
      omega
        (arith, sums (λ e. e.bytes_to), sums (λ e. e.bytes_from), balance names, all_from, all_to)
