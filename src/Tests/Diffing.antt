-- ===== src/Tests/Diffing.antt =====
-- The difference of two small dumps.
use mathlib.Core.List.{Mem, Pairwise}
use hprof_slurp.Prelude.{◌+◌, ◌%◌, ◌^◌, ◌≡◌, ◌≢◌, ◌↔◌, refl, List, [], ◌∷◌}
use hprof_slurp.Text.{text}
use hprof_slurp.Rendered.Stats
use hprof_slurp.Rendered.Stats.{ClassAllocationStats, total_shallow_bytes}
use hprof_slurp.Diff.Compute.{DiffEntry, new_entry, compute}
use hprof_slurp.Diff.Growth.{GrewMore}
use hprof_slurp.Diff.Totals.{total_of}
use hprof_slurp.Diff.Entries.{entry_of, compute_lem}
use hprof_slurp.Diff.Sums.{sum_over}
use hprof_slurp.Diff.Net.{compute_net}
use hprof_slurp.Tests.Rendering.{usage, bytes}

-- A class of a second class loader, and a new class.
abbrev later : List ClassAllocationStats
later =
    Stats.new (text "java.lang.String") 12 24 288
    ∷ bytes
    ∷ bytes
    ∷ Stats.new (text "Leak") 1 16 16
    ∷ []

compute_lem_example :
    Pairwise GrewMore (compute usage later)
    × Pairwise (λ a b. a.class_name ≢ b.class_name) (compute usage later)
    × ((e : DiffEntry)
        → Mem e (compute usage later) ↔ (
            (e ≡ entry_of usage later e.class_name)
            × (total_of e.class_name usage ≢ total_of e.class_name later)))
compute_lem_example = compute_lem usage later

compute_run :
    compute usage later
    ≡ new_entry (text "byte[]") (3, 5000) (6, 10000) ∷ new_entry (text "Leak") (0, 0) (1, 16) ∷ []
unfolding compute
compute_run = refl

compute_net_example :
    (sum_over (λ e. e.bytes_to) (compute usage later) + total_shallow_bytes usage) % 2 ^ 64
    ≡ (sum_over (λ e. e.bytes_from) (compute usage later) + total_shallow_bytes later) % 2 ^ 64
compute_net_example = compute_net usage later
