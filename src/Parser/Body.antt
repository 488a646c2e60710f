-- ===== src/Parser/Body.antt =====
-- src/parser/record_parser.rs: the bodies of the top-level records, from the header's timestamp on.
use hprof_slurp.Prelude.{ℕ, ◌-◌, ◌/◌, if◌then◌else◌, ◌==◌}
use hprof_slurp.Nom.{Nom, Parser, panicked}
use hprof_slurp.Utf8.{from_utf8_lossy}
use hprof_slurp.Parser.Primitive.{parse_u8, parse_u16, parse_u32, parse_u64, parse_i32}
use hprof_slurp.Parser.Field.{parse_id}
use hprof_slurp.Parser.Record.{
  RecordHeader, AllocationSite, CpuSample, Record, utf8_string, load_class, unload_class,
  stack_frame, stack_trace, allocation_sites, start_thread, end_thread, heap_summary, heap_dump_end,
  control_settings, cpu_samples,
}

module _ (nom : Nom) where
  unfoldable pub parse_header_record : Parser RecordHeader
  parse_header_record =
      nom.map (nom.tuple2 (parse_u32 nom) (parse_u32 nom))
        λ (a, b). record { timestamp = a; length = b }

  unfoldable pub parse_utf8_string : ℕ → Parser Record
  parse_utf8_string id_size = nom.flat_map parse_header_record λ header.
      nom.map (nom.tuple2 (parse_id nom id_size) (nom.take (header.length - id_size)))
        λ (a, b). utf8_string a (from_utf8_lossy b)

  unfoldable pub parse_load_class : ℕ → Parser Record
  parse_load_class id_size = nom.preceded parse_header_record (
      nom.map
        (nom.tuple4 (parse_u32 nom) (parse_id nom id_size) (parse_u32 nom) (parse_id nom id_size))
        λ (a, b, c, d). load_class (record {
          serial_number = a;
          class_object_id = b;
          stack_trace_serial_number = c;
          class_name_id = d;
        }))

  unfoldable pub parse_unload_class : Parser Record
  parse_unload_class = nom.preceded parse_header_record (nom.map (parse_u32 nom) unload_class)

  unfoldable pub parse_stack_frame : ℕ → Parser Record
  parse_stack_frame id_size =
      let p_id = parse_id nom id_size in
      nom.preceded parse_header_record (
        nom.map (nom.tuple6 p_id p_id p_id p_id (parse_u32 nom) (parse_i32 nom))
          λ (a, b, c, d, e, f). stack_frame (record {
            stack_frame_id = a;
            method_name_id = b;
            method_signature_id = c;
            source_file_name_id = d;
            class_serial_number = e;
            line_number = f;
          }))

  -- The division by an id size of 0 would panic.
  unfoldable pub parse_stack_trace : ℕ → Parser Record
  parse_stack_trace id_size = nom.flat_map parse_header_record λ header.
      if id_size == 0
      then (λ i. panicked)
      else nom.map
          (nom.tuple4 (parse_u32 nom) (parse_u32 nom) (parse_u32 nom)
            (nom.count (parse_id nom id_size) ((header.length - 12) / id_size)))
          λ (a, b, c, d). stack_trace (record {
            serial_number = a;
            thread_serial_number = b;
            number_of_frames = c;
            stack_frame_ids = d;
          })

  unfoldable pub parse_start_thread : ℕ → Parser Record
  parse_start_thread id_size =
      let p_id = parse_id nom id_size in
      nom.preceded parse_header_record (
        nom.map (nom.tuple6 (parse_u32 nom) p_id (parse_u32 nom) p_id p_id p_id)
          λ (a, b, c, d, e, f). start_thread a b c d e f)

  unfoldable pub parse_heap_summary : Parser Record
  parse_heap_summary = nom.preceded parse_header_record (
      nom.map (nom.tuple4 (parse_u32 nom) (parse_u32 nom) (parse_u64 nom) (parse_u64 nom))
        λ (a, b, c, d). heap_summary a b c d)

  unfoldable pub parse_end_thread : Parser Record
  parse_end_thread = nom.preceded parse_header_record (nom.map (parse_u32 nom) end_thread)

  unfoldable pub parse_allocation_site : Parser AllocationSite
  parse_allocation_site =
      let u32 = parse_u32 nom in
      nom.map (nom.tuple7 (parse_u8 nom) u32 u32 u32 u32 u32 u32) λ (a, b, c, d, e, f, g). record {
        is_array = a;
        class_serial_number = b;
        stack_trace_serial_number = c;
        bytes_alive = d;
        instances_alive = e;
        bytes_allocated = f;
        instances_allocated = g;
      }

  unfoldable pub parse_allocation_sites : Parser Record
  parse_allocation_sites =
      let u32 = parse_u32 nom in
      nom.flat_map
        (nom.preceded parse_header_record
          (nom.tuple7 (parse_u16 nom) u32 u32 u32 (parse_u64 nom) (parse_u64 nom) u32))
        λ (a, b, c, d, e, f, number_of_sites).
          nom.map (nom.count parse_allocation_site number_of_sites)
            λ sites. allocation_sites a b c d e f number_of_sites sites

  unfoldable pub parse_heap_dump_end : Parser Record
  parse_heap_dump_end = nom.map parse_header_record λ rb. heap_dump_end rb.length

  unfoldable pub parse_control_settings : Parser Record
  parse_control_settings =
      nom.preceded parse_header_record
        (nom.map (nom.tuple2 (parse_u32 nom) (parse_u16 nom)) λ (a, b). control_settings a b)

  unfoldable pub parse_cpu_sample : Parser CpuSample
  parse_cpu_sample =
      nom.map (nom.tuple2 (parse_u32 nom) (parse_u32 nom))
        λ (a, b). record { number_of_samples = a; stack_trace_serial_number = b }

  unfoldable pub parse_cpu_samples : Parser Record
  parse_cpu_samples =
      nom.flat_map (nom.preceded parse_header_record (nom.tuple2 (parse_u32 nom) (parse_u32 nom)))
        λ (total_number_of_samples, number_of_traces).
          nom.map (nom.count parse_cpu_sample total_number_of_samples)
            λ samples. cpu_samples total_number_of_samples number_of_traces samples
