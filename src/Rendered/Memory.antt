-- ===== src/Rendered/Memory.antt =====
-- src/rendered_result.rs: `RenderedResult` and the text that `serialize` makes of it.
use hprof_slurp.Prelude.{ℕ, List, Option, none, some, ◌++◌, ◌>>=◌}
use hprof_slurp.Nom.{Bytes}
use hprof_slurp.Text.{text}
use hprof_slurp.Text.Digits.{decimal}
use hprof_slurp.Utils.PrettySize.{F64, pretty_bytes_size}
use hprof_slurp.Sort.{sort}
use hprof_slurp.Rendered.Stats.{
  ClassAllocationStats, total_shallow_bytes, by_allocation, by_largest,
}
use hprof_slurp.Rendered.Table.{render_table}

pub record RenderedResult : Type 0 where
  pub summary : Bytes
  pub thread_info : Bytes
  pub memory_usage : List ClassAllocationStats
  pub duplicated_strings : Option Bytes
  pub captured_strings : Option Bytes
  pub warnings : Option Bytes

-- `analysis`, around its two tables.
abbrev pub analysis : F64 → List ClassAllocationStats → ℕ → Bytes → Bytes → Bytes
analysis f64 memory_usage top allocated_table largest_table =
    text "Found a total of "
    ++ (pretty_bytes_size f64 (total_shallow_bytes memory_usage)
        ++ (text " of raw shallow heap objects in the dump.\n"
            ++ (text "\nTop "
                ++ (decimal top
                    ++ (text " raw shallow heap classes:\n\n"
                        ++ (allocated_table
                            ++ (text "\nTop "
                                ++ (decimal top
                                    ++ (text " largest instances:\n\n" ++ largest_table)))))))))

-- `none` is a panic, as in `padding_for_header`.
unfoldable pub render_memory_usage : F64 → List ClassAllocationStats → ℕ → Option Bytes
render_memory_usage f64 memory_usage top = do
  let allocated = sort by_allocation memory_usage
  allocated_table ← render_table f64 top allocated
  largest_table ← render_table f64 top (sort by_largest allocated)
  some (analysis f64 memory_usage top allocated_table largest_table)

abbrev pub or_nothing : Option Bytes → Bytes
or_nothing none = text ""
or_nothing (some s) = s

abbrev pub line_or_nothing : Option Bytes → Bytes
line_or_nothing none = text ""
line_or_nothing (some s) = s ++ text "\n"

abbrev pub assembled : RenderedResult → Bytes → Bytes
assembled r memory =
    r.summary
    ++ (text "\n"
        ++ (r.thread_info
            ++ (text "\n"
                ++ (memory
                    ++ (line_or_nothing r.duplicated_strings
                        ++ (or_nothing r.captured_strings ++ or_nothing r.warnings))))))

unfoldable pub serialize : F64 → RenderedResult → ℕ → Option Bytes
serialize f64 r top = do
  memory ← render_memory_usage f64 r.memory_usage top
  some (assembled r memory)
