-- ===== src/Diff/Entries.antt =====
-- The entries of a diff of src/diff.rs: one for each class name whose totals differ.
use mathlib.Core.Bool.{Bool-discrete, Bool-set, true≢false}
use mathlib.Core.HLevel.{¬_prop}
use mathlib.Core.List.{
  Mem, Pairwise, map, filter, mem-filter, mem-map_of_mem, exists_of_mem-map, mem-append,
}
use mathlib.Core.List.Pairwise
use mathlib.Core.List.Perm
use mathlib.Core.Logic.{∥∥₁_elim}
use hprof_slurp.Prelude.{
  ℕ, ◌≡◌, ◌≢◌, ◌↔◌, refl, sym, ap, ◌∙◌, subst, true, false, List, Option, ◌++◌, ◌<◌, ◌^◌, none,
  some, Bool-cases, inl, inr, arith,
}
use hprof_slurp.Nom.{Bytes}
use hprof_slurp.Parser.LazyMany.{bytes_eq}
use hprof_slurp.Recorder.AHashMap.{AHashMap, get}
use hprof_slurp.Rendered.Stats.{ClassAllocationStats}
use hprof_slurp.Sort.{sort}
use hprof_slurp.Sort.Orders.{lexicographic, lexicographic_le_antisymm}
use hprof_slurp.Sort.Laws.{IsSorted, sort-Perm, sort-IsSorted, sort_stable}
use hprof_slurp.Sort.Distinct.{mem-dedup, dedup-Nodup}
use hprof_slurp.Diff.Compute.{
  DiffEntry, bytes_eq_refl, bytes_eq_sound, string, totals_by_class_name, new_entry, is_changed,
  by_growth, keys, wrapping_delta, is_nonzero, class_names, entry_in, compute,
}
use hprof_slurp.Diff.Growth.{by_name, GrewMore, by_growth-GrewMore}
use hprof_slurp.Diff.Totals.{both, total_of, total_in-totals_by_class_name, mem-keys}

-- The entry of a class name, from the sums over its classes.
abbrev pub entry_of : (from to : List ClassAllocationStats) → Bytes → DiffEntry
entry_of from to name = record {
  class_name = name;
  instances_from = (total_of name from).0;
  instances_to = (total_of name to).0;
  bytes_from = (total_of name from).1;
  bytes_to = (total_of name to).1;
}

DiffEntry-set : IsSet DiffEntry
DiffEntry-set = hlevel

pub names_IsSorted :
    (m n : AHashMap Bytes (ℕ × ℕ))
    → IsSorted lexicographic (class_names m n) × Pairwise (λ a b. a ≢ b) (class_names m n)
names_IsSorted m n =
    dedup-Nodup bytes_eq bytes_eq_sound bytes_eq_refl lexicographic lexicographic_le_antisymm
      (sort lexicographic (keys m ++ keys n)) (sort-IsSorted lexicographic (keys m ++ keys n))

-- A name without totals in both dumps makes no entry.
changed_known :
    (m n : AHashMap Bytes (ℕ × ℕ)) (name : Bytes) (o p : Option (ℕ × ℕ))
    → get string name m ≡ o
    → get string name n ≡ p
    → is_changed (entry_in m n name) ≡ true
    → Mem name (keys m ++ keys n)
changed_known m n name (some t) p e f h = mem-append.1 ∣ inl (mem-keys name m t e) ∣₁
changed_known m n name none (some t) e f h = mem-append.1 ∣ inr (mem-keys name n t f) ∣₁
changed_known m n name none none e f h = absurd (ground (arith, rw (e, f) at h))

mem-class_names :
    (m n : AHashMap Bytes (ℕ × ℕ)) (name : Bytes)
    → is_changed (entry_in m n name) ≡ true
    → Mem name (class_names m n)
mem-class_names m n name h =
    (mem-dedup bytes_eq bytes_eq_sound (sort lexicographic (keys m ++ keys n)) name).1 (
      (Perm.mem_iff (sort-Perm lexicographic (keys m ++ keys n))).1
        (changed_known m n name (get string name m) (get string name n) refl refl h))

-- The difference of two words is zero only for equal ones.
pub wrapping_delta-zero :
    (a b : ℕ) → a < 2 ^ 64 → b < 2 ^ 64 → is_nonzero (wrapping_delta a b) ≡ false → a ≡ b
wrapping_delta-zero a b h k e = ground arith

wrapping_delta-same : (a : ℕ) → a < 2 ^ 64 → is_nonzero (wrapping_delta a a) ≡ false
wrapping_delta-same a h = ground arith

-- An entry is changed if and only if its totals differ.
is_changed-new_entry :
    (name : Bytes) (i b j c : ℕ)
    → i < 2 ^ 64
    → b < 2 ^ 64
    → j < 2 ^ 64
    → c < 2 ^ 64
    → (is_changed (new_entry name (i, b) (j, c)) ≡ true) ↔ ¬ ((i ≡ j) × (b ≡ c))
is_changed-new_entry name i b j c hi hb hj hc = (
  λ h (p, q).
      let d = ap (λ x. is_nonzero (wrapping_delta x b)) (sym q) ∙ wrapping_delta-same b hb in
      let e = ap (λ x. is_nonzero (wrapping_delta x i)) (sym p) ∙ wrapping_delta-same i hi in
      true≢false (sym h ∙ rw (d, e) refl),
  λ n. elim (Bool-cases (is_nonzero (wrapping_delta c b))) [
    | inl d ↦ rw d refl
    | inr d ↦ elim (Bool-cases (is_nonzero (wrapping_delta j i))) [
      | inl e ↦ rw (d, e) refl
      | inr e ↦
          absurd (n (sym (wrapping_delta-zero j i hj hi e), sym (wrapping_delta-zero c b hc hb d)))
    ]
  ],
)

module _ (from to : List ClassAllocationStats) where
  abbrev pub by_from : AHashMap Bytes (ℕ × ℕ)
  by_from = totals_by_class_name from

  abbrev pub by_to : AHashMap Bytes (ℕ × ℕ)
  by_to = totals_by_class_name to

  pub entry_in-entry_of : (name : Bytes) → entry_in by_from by_to name ≡ entry_of from to name
  entry_in-entry_of name =
      rw (total_in-totals_by_class_name name from, total_in-totals_by_class_name name to) refl

  abbrev changed : List DiffEntry
  changed =
      filter (λ e. Bool-discrete (is_changed e) true)
        (map (entry_in by_from by_to) (class_names by_from by_to))

  changed-IsSorted : IsSorted by_name changed
  changed-IsSorted = Pairwise.filter _ (
      Pairwise.map' (entry_in by_from by_to) (λ a b. Bool-set _ _) (names_IsSorted by_from by_to).0)

  changed_distinct : Pairwise (λ a b. a.class_name ≢ b.class_name) changed
  changed_distinct =
      Pairwise.filter _
        (Pairwise.map' (entry_in by_from by_to) (λ a b. ¬_prop) (names_IsSorted by_from by_to).1)

  mem-changed :
      (e : DiffEntry)
      → Mem e changed ↔ ((e ≡ entry_of from to e.class_name) × (is_changed e ≡ true))
  mem-changed e = (
    λ m.
        let (n, c) = (mem-filter (λ x. Bool-discrete (is_changed x) true)).0 m in
        (
          ∥∥₁_elim (exists_of_mem-map n) (DiffEntry-set _ _) (λ (name, _, f).
              sym f ∙ entry_in-entry_of name ∙ ap (λ x. entry_of from to x.class_name) f),
          c,
        ),
    λ (f, c).
        let g = f ∙ sym (entry_in-entry_of e.class_name) in
        (mem-filter (λ x. Bool-discrete (is_changed x) true)).1 (
          subst (λ x. Mem x (map (entry_in by_from by_to) (class_names by_from by_to))) (sym g)
              (mem-map_of_mem (entry_in by_from by_to)
                (mem-class_names by_from by_to e.class_name (ap is_changed (sym g) ∙ c))),
          c,
        ),
  )

  differ :
      (name : Bytes)
      → (is_changed (entry_of from to name) ≡ true) ↔ (total_of name from ≢ total_of name to)
  differ name =
      let (p, q) =
        is_changed-new_entry name (total_of name from).0 (total_of name from).1 (total_of name to).0
          (total_of name to).1 (omega arith) (omega arith) (omega arith) (omega arith) in
      (λ h e. p h (ap (λ t. t.0) e, ap (λ t. t.1) e), λ n. q (λ (e, f). n (both e f)))

  -- The entries of a diff come in the descending order of their growth in bytes, the wrapped difference
  -- of 64 bits with its sign, those that tie in the ascending order of their names, and no two have the
  -- same name. An entry is among them if and only if it has the sums, in 64 bits, of
  -- the instances and of the bytes of all classes of its name on both sides, and these differ.
  pub compute_lem :
      Pairwise GrewMore (compute from to)
      × Pairwise (λ a b. a.class_name ≢ b.class_name) (compute from to)
      × ((e : DiffEntry)
          → Mem e (compute from to) ↔ (
              (e ≡ entry_of from to e.class_name)
              × (total_of e.class_name from ≢ total_of e.class_name to)))
  unfolding compute
  compute_lem = (
    Pairwise.imp by_growth-GrewMore (sort_stable by_growth by_name changed changed-IsSorted),
    Perm.pairwise (λ a b. ¬_prop) (λ a b n e. n (sym e)) (Perm.symm (sort-Perm by_growth changed))
        changed_distinct,
    λ e.
        let (p, q) = mem-changed e in
        let (u, v) = differ e.class_name in
        let (k, l) = Perm.mem_iff (sort-Perm by_growth changed) in
        (
          λ m. let (f, c) = p (k m) in (f, u (ap is_changed (sym f) ∙ c)),
          λ (f, n). l (q (f, ap is_changed f ∙ v n)),
        ),
  )
