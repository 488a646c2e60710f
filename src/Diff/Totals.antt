-- ===== src/Diff/Totals.antt =====
-- What a class name's totals of src/diff.rs are: the sums over the classes of that name.
use mathlib.Core.List.{Mem, mem-cons_self, mem-cons_of_mem}
use mathlib.Core.Option.{none-ne-some}
use hprof_slurp.Prelude.{
  ℕ, ◌+◌, ◌%◌, ◌^◌, ◌≡◌, refl, ap, ◌∙◌, subst, List, [], ◌∷◌, some, if◌then◌else◌, Bool-cases, inl,
  inr, arith,
}
use hprof_slurp.Nom.{Bytes}
use hprof_slurp.Parser.LazyMany.{bytes_eq}
use hprof_slurp.Recorder.AHashMap.{AHashMap, get, upsert, get-upsert, get-upsert_other}
use hprof_slurp.Rendered.Stats.{ClassAllocationStats}
use hprof_slurp.Diff.Compute.{
  bytes_eq_sound, string, or_default, add_stats, add_totals, totals_by_class_name, keys,
}

-- The sum of a field over the classes with a name.
abbrev pub sum_of : (ClassAllocationStats → ℕ) → Bytes → List ClassAllocationStats → ℕ
sum_of field name [] = 0
sum_of field name (s ∷ stats) =
    (if bytes_eq s.class_name name then field s else 0) + sum_of field name stats

-- Instances and bytes, in 64 bits.
abbrev pub total_of : Bytes → List ClassAllocationStats → ℕ × ℕ
total_of name stats = (
  sum_of (λ s. s.instance_count) name stats % 2 ^ 64,
  sum_of (λ s. s.allocation_size_bytes) name stats % 2 ^ 64,
)

abbrev pub total_in : Bytes → AHashMap Bytes (ℕ × ℕ) → ℕ × ℕ
total_in name m = or_default (get string name m)

pub both : {a b c d : ℕ} → a ≡ c → b ≡ d → ◌≡◌ {A = ℕ × ℕ} (a, b) (c, d)
both p q i = (p i, q i)

-- One more class of a name.
total_in-upsert :
    (s : ClassAllocationStats) (m : AHashMap Bytes (ℕ × ℕ)) (a b : ℕ)
    → total_in s.class_name m ≡ (a % 2 ^ 64, b % 2 ^ 64)
    → total_in s.class_name (upsert string s.class_name (add_stats s) m)
      ≡ ((a + s.instance_count) % 2 ^ 64, (b + s.allocation_size_bytes) % 2 ^ 64)
total_in-upsert s m a b h =
    ap or_default (get-upsert string s.class_name (add_stats s) m)
    ∙ ap (λ t. ((t.0 + s.instance_count) % 2 ^ 64, (t.1 + s.allocation_size_bytes) % 2 ^ 64)) h
    ∙ both (omega arith) (omega arith)

total_in-add_totals :
    (name : Bytes) (stats : List ClassAllocationStats) (m : AHashMap Bytes (ℕ × ℕ)) (a b : ℕ)
    → total_in name m ≡ (a % 2 ^ 64, b % 2 ^ 64)
    → total_in name (add_totals stats m) ≡ (
      (a + sum_of (λ s. s.instance_count) name stats) % 2 ^ 64,
      (b + sum_of (λ s. s.allocation_size_bytes) name stats) % 2 ^ 64,
    )
total_in-add_totals name [] m a b h = h ∙ both (omega arith) (omega arith)
total_in-add_totals name (s ∷ stats) m a b h = elim (Bool-cases (bytes_eq s.class_name name)) [
  | inl e ↦
      let n = bytes_eq_sound s.class_name name e in
      let start =
        subst
          (λ k.
            total_in k (upsert string s.class_name (add_stats s) m)
            ≡ ((a + s.instance_count) % 2 ^ 64, (b + s.allocation_size_bytes) % 2 ^ 64))
          n (total_in-upsert s m a b (ap (λ k. total_in k m) n ∙ h)) in
      rw e (
        total_in-add_totals name stats _ (a + s.instance_count) (b + s.allocation_size_bytes) start
        ∙ both (omega arith) (omega arith))
  | inr e ↦ rw e (
      total_in-add_totals name stats _ a b
        (ap or_default (get-upsert_other string name s.class_name (add_stats s) m e) ∙ h)
      ∙ both (omega arith) (omega arith))
]

pub total_in-totals_by_class_name :
    (name : Bytes) (stats : List ClassAllocationStats)
    → total_in name (totals_by_class_name stats) ≡ total_of name stats
total_in-totals_by_class_name name stats =
    total_in-add_totals name stats [] 0 0 refl ∙ both (omega arith) (omega arith)

-- A name with a total is one of the keys.
pub mem-keys :
    {V : Type 0} (name : Bytes) (m : AHashMap Bytes V) (v : V)
    → get string name m ≡ some v
    → Mem name (keys m)
mem-keys name [] v h = absurd (none-ne-some v h)
mem-keys name ((k, w) ∷ m) v h = elim (Bool-cases (bytes_eq k name)) [
  | inl e ↦ subst (λ n. Mem n (k ∷ keys m)) (bytes_eq_sound k name e) mem-cons_self
  | inr e ↦ mem-cons_of_mem k (mem-keys name m v (rw e at h))
]
