-- ===== src/Report/Descending.antt =====
-- The order of the memory usage of src/result_recorder.rs, spelled out.
use hprof_slurp.Prelude.{◌≤◌, ◌≡◌, subst, true, arith}
use hprof_slurp.Sort.Orders.{
  lexicographic, lexicographic_le, then_le_intro, then_le_first, then_le_second,
}
use hprof_slurp.Sort.Texts.{AtMost, lexicographic_le-AtMost}
use hprof_slurp.Sort.Laws.{Le, Le_refl}
use hprof_slurp.Rendered.Stats.{ClassAllocationStats, by_allocation, by_largest}
use hprof_slurp.Report.Usage.{
  by_name, by_count, by_names_sizes, by_names_sizes_counts, on_every_field,
}

-- Descending by names, then by sizes, then by the numbers of instances, then by the largest ones.
abbrev pub Before : ClassAllocationStats → ClassAllocationStats → Type 0
Before a b =
    AtMost b.class_name a.class_name
    × (a.class_name ≡ b.class_name
        → (b.allocation_size_bytes ≤ a.allocation_size_bytes)
          × (a.allocation_size_bytes ≡ b.allocation_size_bytes
              → (b.instance_count ≤ a.instance_count)
                × (a.instance_count ≡ b.instance_count
                    → b.largest_allocation_bytes ≤ a.largest_allocation_bytes)))

pub on_every_field-Before : (a b : ClassAllocationStats) → Le on_every_field a b → Before a b
on_every_field-Before a b h =
    let on_counts = then_le_first by_names_sizes_counts by_largest a b h in
    let on_sizes = then_le_first by_names_sizes by_count a b on_counts in
    let on_names = then_le_first by_name by_allocation a b on_sizes in
    (
      lexicographic_le-AtMost b.class_name a.class_name on_names,
      λ name.
          let named : Le by_name b a =
            subst (λ n. lexicographic_le a.class_name n ≡ true) name
              (Le_refl lexicographic a.class_name) in
          let sized = then_le_second by_name by_allocation a b on_sizes named in
          (
            ground (arith, sized),
            λ size.
                let tied : Le by_names_sizes b a =
                  then_le_intro by_name by_allocation b a named λ _. ground (arith, size) in
                let counted = then_le_second by_names_sizes by_count a b on_counts tied in
                (
                  ground (arith, counted),
                  λ count.
                      let all : Le by_names_sizes_counts b a =
                        then_le_intro by_names_sizes by_count b a tied λ _. ground (arith, count) in
                      let most = then_le_second by_names_sizes_counts by_largest a b h all in
                      ground (arith, most),
                ),
          ),
    )
