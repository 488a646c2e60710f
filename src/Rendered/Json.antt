-- ===== src/Rendered/Json.antt =====
-- src/rendered_result.rs: the result that `--json` writes. Its fields' serialization is serde's.
use hprof_slurp.Prelude.{ℕ, List, Option, none, some, length, take, ◌==◌, if◌then◌else◌}
use mathlib.Core.Option
use hprof_slurp.Nom.{Bytes}
use hprof_slurp.Text.{text}
use hprof_slurp.Utils.Timestamp.{pretty_timestamp_utc}
use hprof_slurp.Sort.{sort}
use hprof_slurp.Rendered.Stats.{
  ClassAllocationStats, total_shallow_bytes, by_allocation, by_largest,
}

abbrev pub json_schema_version : ℕ
json_schema_version = 1

pub record ToolInfo : Type 0 where
  pub name : Bytes
  pub version : Bytes

pub record DumpInfo : Type 0 where
  pub file : Bytes
  pub file_size_bytes : ℕ
  pub format : Bytes
  pub id_size_bytes : ℕ
  pub captured_at_epoch_millis : Option ℕ
  pub captured_at_utc : Option Bytes

abbrev pub dump_info : Bytes → ℕ → Bytes → ℕ → ℕ → DumpInfo
dump_info file file_size_bytes format id_size_bytes timestamp_epoch_millis =
    let captured_at_epoch_millis =
      if timestamp_epoch_millis == 0 then none else some timestamp_epoch_millis in
    record {
      file = file;
      file_size_bytes = file_size_bytes;
      format = format;
      id_size_bytes = id_size_bytes;
      captured_at_epoch_millis = captured_at_epoch_millis;
      captured_at_utc = Option.map pretty_timestamp_utc captured_at_epoch_millis;
    }

pub record HeapInfo : Type 0 where
  pub total_shallow_bytes : ℕ
  pub class_count : ℕ
  pub top_allocated_classes : List ClassAllocationStats
  pub top_largest_instances : List ClassAllocationStats

pub record JsonResult : Type 0 where
  pub schema_version : ℕ
  pub tool : ToolInfo
  pub dump : DumpInfo
  pub heap : HeapInfo

-- The name and the version are the package's.
abbrev pub tool_info : ToolInfo
tool_info = record { name = text "hprof-slurp"; version = text "0.9.0" }

-- The result, and the memory usage as it is left sorted.
abbrev pub new : DumpInfo → List ClassAllocationStats → ℕ → JsonResult × List ClassAllocationStats
new dump memory_usage top =
    let allocated = sort by_allocation memory_usage in
    let largest = sort by_largest allocated in
    (
      record {
        schema_version = json_schema_version;
        tool = tool_info;
        dump = dump;
        heap = record {
          total_shallow_bytes = total_shallow_bytes memory_usage;
          class_count = length memory_usage;
          top_allocated_classes = take top allocated;
          top_largest_instances = take top largest;
        };
      },
      largest,
    )
