-- ===== src/Tests/Rendering.antt =====
-- Dates, tables and the JSON result.
use mathlib.Core.List.{Perm, map}
use hprof_slurp.Prelude.{
  ◌%◌, ◌^◌, ℕ, ◌+◌, ◌*◌, ◌/◌, ◌≡◌, ◌↔◌, ◌⊎◌, refl, inr, leb, List, [], ◌∷◌, ◌++◌, none, some,
  length, min, All, arith,
}
use hprof_slurp.Nom.{Bytes}
use hprof_slurp.Text.{text, char_count}
use hprof_slurp.Text.Digits.{decimal}
use hprof_slurp.Utils.Civil.{civil_from_days}
use hprof_slurp.Utils.Civil.Calendar.{next_day, civil_from_days-suc}
use hprof_slurp.Utils.Timestamp.{pretty_timestamp_utc}
use hprof_slurp.Utils.Dates.{date_of, utc_text, pretty_timestamp_utc_lem}
use hprof_slurp.Utils.PrettySize.{F64, pretty_bytes_size}
use hprof_slurp.Recorder.Measures.{sum}
use hprof_slurp.Sort.{sort}
use hprof_slurp.Sort.Laws.{any, any-IsSorted}
use hprof_slurp.Rendered.Stats
use hprof_slurp.Rendered.Stats.{
  ClassAllocationStats, total_shallow_bytes, by_allocation, by_largest,
}
use hprof_slurp.Rendered.Json
use hprof_slurp.Rendered.Json.{DumpInfo, dump_info}
use hprof_slurp.Rendered.Table.{render_table, unlines}
use hprof_slurp.Rendered.Widths.{render_table_lem}
use hprof_slurp.Rendered.Memory.{RenderedResult, serialize}
use hprof_slurp.Rendered.Tops.{Ahead, BySize, IsTop, new_lem, serialize-none_iff}

civil_from_days-suc_example :
    (civil_from_days 0 ≡ (1970, 1, 1)) × (civil_from_days 11016 ≡ next_day (civil_from_days 11015))
civil_from_days-suc_example = civil_from_days-suc 11015

leap_day : civil_from_days 11016 ≡ (2000, 2, 29)
unfolding civil_from_days
leap_day = refl

pretty_timestamp_utc_lem_example :
    pretty_timestamp_utc ((((18613 * 24 + 8) * 60 + 4) * 60 + 33) * 1000 + 831)
    ≡ utc_text (date_of 18613) 8 4 33
pretty_timestamp_utc_lem_example =
    pretty_timestamp_utc_lem 18613 8 4 33 831 (omega arith) (omega arith) (omega arith)
      (omega arith)

timestamp_run : pretty_timestamp_utc 1608192273831 ≡ text "2020-12-17 08:04:33 UTC"
unfolding pretty_timestamp_utc civil_from_days decimal
timestamp_run = refl

-- Whole numbers in place of an `f64`.
abbrev pub whole : F64
whole = record {
  Float = ℕ;
  from_u64 = λ n. n;
  mul = λ a b. a * b;
  div = λ a b. a / b;
  ge = λ a b. leb b a;
  two_decimals = λ n. decimal n ++ text ".00";
}

abbrev strings : ClassAllocationStats
strings = Stats.new (text "java.lang.String") 12 24 288

abbrev pub bytes : ClassAllocationStats
bytes = Stats.new (text "byte[]") 3 4096 5000

abbrev pub usage : List ClassAllocationStats
usage = strings ∷ bytes ∷ []

render_table_lem_example :
    (lines : List Bytes) × (render_table whole 5 usage ≡ some (unlines lines))
    × (length lines ≡ min 5 2 + 4)
    × (w : ℕ) × All (λ l. char_count l ≡ w) lines
render_table_lem_example = render_table_lem whole 4 strings (bytes ∷ [])

table_run :
    render_table whole 5 usage
    ≡ some (
        text
          "+-------------+-----------+------------+------------------+\n|  Total size | Instances |    Largest | Class name       |\n+-------------+-----------+------------+------------------+\n| 288.00bytes |        12 | 24.00bytes | java.lang.String |\n|     4.00KiB |         3 |    4.00KiB | byte[]           |\n+-------------+-----------+------------+------------------+\n")
unfolding render_table pretty_bytes_size decimal
table_run = refl

abbrev pub dump : DumpInfo
dump = dump_info (text "heap.hprof") 100000 (text "JAVA PROFILE 1.0.2") 8 0

new_lem_example :
    ((Json.new dump usage 1).0.heap.total_shallow_bytes
      ≡ sum (map (λ s. s.allocation_size_bytes) usage) % 2 ^ 64)
    × ((Json.new dump usage 1).0.heap.class_count ≡ length usage)
    × IsTop (BySize any) 1 (Json.new dump usage 1).0.heap.top_allocated_classes usage
    × IsTop
        (Ahead (λ s. s.largest_allocation_bytes) (BySize any))
        1
        (Json.new dump usage 1).0.heap.top_largest_instances
        usage
    × Perm (Json.new dump usage 1).1 usage
new_lem_example = new_lem any dump usage 1 (any-IsSorted usage)

top_run : (Json.new dump usage 1).0.heap.top_allocated_classes ≡ bytes ∷ []
top_run = refl

-- Two classes of the same size: the JSON result leaves them in another order than it found them.
abbrev small : ClassAllocationStats
small = Stats.new (text "b.Small") 10 10 100

abbrev large : ClassAllocationStats
large = Stats.new (text "a.Large") 2 50 100

order_without_json : sort by_allocation (small ∷ large ∷ []) ≡ small ∷ large ∷ []
order_without_json = refl

order_with_json : sort by_allocation (Json.new dump (small ∷ large ∷ []) 20).1 ≡ large ∷ small ∷ []
order_with_json = refl

abbrev nothing_in_it : RenderedResult
nothing_in_it = record {
  summary = [];
  thread_info = [];
  memory_usage = [];
  duplicated_strings = none;
  captured_strings = none;
  warnings = none;
}

serialize-none_iff_example :
    (serialize whole nothing_in_it 20 ≡ none)
    ↔ (◌≡◌ {A = ℕ} 20 0 ⊎ (nothing_in_it.memory_usage ≡ []))
serialize-none_iff_example = serialize-none_iff whole nothing_in_it 20

serialize_panics : serialize whole nothing_in_it 20 ≡ none
serialize_panics = (serialize-none_iff whole nothing_in_it 20).1 (inr refl)
