-- ===== src/Rendered/Stats.antt =====
-- `ClassAllocationStats` of src/rendered_result.rs, and the orders that lists of them are sorted by.
use mathlib.Core.List.{map}
use hprof_slurp.Prelude.{ℕ, ◌%◌, ◌^◌, List}
use hprof_slurp.Nom.{Bytes}
use hprof_slurp.Recorder.Measures.{sum}
use hprof_slurp.Sort.Orders.{Order, ascending, by_key, reversed}

pub record ClassAllocationStats : Type 0 where
  pub class_name : Bytes
  pub instance_count : ℕ
  pub largest_allocation_bytes : ℕ
  pub allocation_size_bytes : ℕ

abbrev pub new : Bytes → ℕ → ℕ → ℕ → ClassAllocationStats
new class_name instance_count largest_allocation_bytes allocation_size_bytes = record {
  class_name = class_name;
  instance_count = instance_count;
  largest_allocation_bytes = largest_allocation_bytes;
  allocation_size_bytes = allocation_size_bytes;
}

-- The sizes are added in 64 bits.
abbrev pub total_shallow_bytes : List ClassAllocationStats → ℕ
total_shallow_bytes memory_usage = sum (map (λ s. s.allocation_size_bytes) memory_usage) % 2 ^ 64

abbrev pub by_allocation : Order ClassAllocationStats
by_allocation = by_key (λ s. s.allocation_size_bytes) (reversed ascending)

abbrev pub by_largest : Order ClassAllocationStats
by_largest = by_key (λ s. s.largest_allocation_bytes) (reversed ascending)
