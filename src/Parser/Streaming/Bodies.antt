-- ===== src/Parser/Streaming/Bodies.antt =====
-- The bodies of the records keep the promises of a parser over a stream.
use hprof_slurp.Prelude.{ℕ}
use hprof_slurp.Nom.{Nom, NomLaws}
use hprof_slurp.Nom.Streams.{Streams}
use hprof_slurp.Parser.Streaming.Fields.{field_rules}
use hprof_slurp.Parser.Body.{
  parse_header_record, parse_utf8_string, parse_load_class, parse_unload_class, parse_stack_frame,
  parse_stack_trace, parse_start_thread, parse_heap_summary, parse_end_thread,
  parse_allocation_site, parse_allocation_sites, parse_heap_dump_end, parse_control_settings,
  parse_cpu_sample, parse_cpu_samples,
}

module _ {nom : Nom} (laws : NomLaws nom) where
  pub parse_header_record-Streams : Streams (parse_header_record nom)
  unfolding parse_header_record
  parse_header_record-Streams = search (field_rules, laws)

  pub parse_utf8_string-Streams : (n : ℕ) → Streams (parse_utf8_string nom n)
  unfolding parse_utf8_string
  parse_utf8_string-Streams n = search (field_rules, laws, parse_header_record-Streams)

  pub parse_load_class-Streams : (n : ℕ) → Streams (parse_load_class nom n)
  unfolding parse_load_class
  parse_load_class-Streams n = search (field_rules, laws, parse_header_record-Streams)

  pub parse_unload_class-Streams : Streams (parse_unload_class nom)
  unfolding parse_unload_class
  parse_unload_class-Streams = search (field_rules, laws, parse_header_record-Streams)

  pub parse_stack_frame-Streams : (n : ℕ) → Streams (parse_stack_frame nom n)
  unfolding parse_stack_frame
  parse_stack_frame-Streams n = search (field_rules, laws, parse_header_record-Streams)

  pub parse_stack_trace-Streams : (n : ℕ) → Streams (parse_stack_trace nom n)
  unfolding parse_stack_trace
  parse_stack_trace-Streams n = search (field_rules, laws, parse_header_record-Streams) depth 8

  pub parse_start_thread-Streams : (n : ℕ) → Streams (parse_start_thread nom n)
  unfolding parse_start_thread
  parse_start_thread-Streams n = search (field_rules, laws, parse_header_record-Streams)

  pub parse_heap_summary-Streams : Streams (parse_heap_summary nom)
  unfolding parse_heap_summary
  parse_heap_summary-Streams = search (field_rules, laws, parse_header_record-Streams)

  pub parse_end_thread-Streams : Streams (parse_end_thread nom)
  unfolding parse_end_thread
  parse_end_thread-Streams = search (field_rules, laws, parse_header_record-Streams)

  pub parse_allocation_site-Streams : Streams (parse_allocation_site nom)
  unfolding parse_allocation_site
  parse_allocation_site-Streams = search (field_rules, laws)

  pub parse_allocation_sites-Streams : Streams (parse_allocation_sites nom)
  unfolding parse_allocation_sites
  parse_allocation_sites-Streams =
      search (field_rules, laws, parse_header_record-Streams, parse_allocation_site-Streams)

  pub parse_heap_dump_end-Streams : Streams (parse_heap_dump_end nom)
  unfolding parse_heap_dump_end
  parse_heap_dump_end-Streams = search (field_rules, laws, parse_header_record-Streams)

  pub parse_control_settings-Streams : Streams (parse_control_settings nom)
  unfolding parse_control_settings
  parse_control_settings-Streams = search (field_rules, laws, parse_header_record-Streams)

  pub parse_cpu_sample-Streams : Streams (parse_cpu_sample nom)
  unfolding parse_cpu_sample
  parse_cpu_sample-Streams = search (field_rules, laws)

  pub parse_cpu_samples-Streams : Streams (parse_cpu_samples nom)
  unfolding parse_cpu_samples
  parse_cpu_samples-Streams =
      search (field_rules, laws, parse_header_record-Streams, parse_cpu_sample-Streams)

pub ruleset body_rules = (
  field_rules, parse_header_record-Streams, parse_utf8_string-Streams, parse_load_class-Streams,
  parse_unload_class-Streams, parse_stack_frame-Streams, parse_stack_trace-Streams,
  parse_start_thread-Streams, parse_heap_summary-Streams, parse_end_thread-Streams,
  parse_allocation_site-Streams, parse_allocation_sites-Streams, parse_heap_dump_end-Streams,
  parse_control_settings-Streams, parse_cpu_sample-Streams, parse_cpu_samples-Streams,
)
