-- ===== src/Format/Bodies.antt =====
-- About the parsers of src/parser/record_parser.rs on the bytes of the top-level records.
use hprof_slurp.Prelude.{
  ℕ, ◌*◌, ◌-◌, ◌/◌, ◌≡◌, refl, inl, inr, List, [], ◌∷◌, ◌++◌, length, length-append, arith,
  append_assoc, append-nil, subst, sym, ◌∙◌, ap, ◌==◌, false,
}
use hprof_slurp.Nom.{Nom, NomLaws, Bytes}
use hprof_slurp.Nom.Reads.{Reads, be_bytes, length-be_bytes, Fits, write_all, Reads-take, Reads-map}
use hprof_slurp.Nom.Reads.Combinators.{
  Reads-flat_map, Reads-preceded, Reads-count, Reads-tuple2, Reads-tuple4, Reads-tuple6,
  Reads-tuple7,
}
use hprof_slurp.Parser.Field.{parse_id}
use hprof_slurp.Parser.Record.{
  AllocationSite, CpuSample, StackTraceData, Record, utf8_string, load_class, unload_class,
  stack_frame, stack_trace, allocation_sites, start_thread, end_thread, heap_summary,
  heap_dump_start, heap_dump_end, control_settings, cpu_samples, gc_segment,
}
use hprof_slurp.Parser.Body.{
  parse_header_record, parse_utf8_string, parse_load_class, parse_unload_class, parse_stack_frame,
  parse_stack_trace, parse_start_thread, parse_heap_summary, parse_end_thread,
  parse_allocation_site, parse_allocation_sites, parse_heap_dump_end, parse_control_settings,
  parse_cpu_sample, parse_cpu_samples,
}
use hprof_slurp.Parser.Dispatch.{parse_body}
use hprof_slurp.Format.Fields.{
  IsIdSize, Reads-u8, Reads-u16, Reads-u32, Reads-u64, Reads-i32, Reads-id,
}
use hprof_slurp.Format.Top.{
  tag_of, write_site, SiteFits, write_sample, SampleFits, write_body, write_header, TopFits,
  TotalIsCount,
}

module _ {nom : Nom} (laws : NomLaws nom) (n : ℕ) (s : IsIdSize n) where
  read_id : (v : ℕ) → Fits n v → Reads (parse_id nom n) (be_bytes n v) v
  read_id v h = Reads-id laws n v s h

  pub Reads-header :
      (timestamp len : ℕ)
      → Fits 4 timestamp
      → Fits 4 len
      → Reads
          (parse_header_record nom)
          (write_header timestamp len)
          (record { timestamp = timestamp; length = len })
  unfolding parse_header_record
  Reads-header timestamp len ht hl =
      Reads-map laws (Reads-tuple2 laws (Reads-u32 laws timestamp ht) (Reads-u32 laws len hl))

  Reads-site :
      (a : AllocationSite) → SiteFits a → Reads (parse_allocation_site nom) (write_site a) a
  unfolding parse_allocation_site
  Reads-site a h = Reads-map laws (
      Reads-tuple7 laws (Reads-u8 laws _ h.is_array) (Reads-u32 laws _ h.class_serial)
        (Reads-u32 laws _ h.trace) (Reads-u32 laws _ h.alive) (Reads-u32 laws _ h.instances)
        (Reads-u32 laws _ h.allocated) (Reads-u32 laws _ h.instances_allocated))

  Reads-sample : (c : CpuSample) → SampleFits c → Reads (parse_cpu_sample nom) (write_sample c) c
  unfolding parse_cpu_sample
  Reads-sample c h =
      Reads-map laws (Reads-tuple2 laws (Reads-u32 laws _ h.0) (Reads-u32 laws _ h.1))

  length-write_ids : (ids : List ℕ) → length (write_all (be_bytes n) ids) ≡ n * length ids
  length-write_ids [] = omega arith
  length-write_ids (v ∷ ids) = omega (
    arith,
    length-append (be_bytes n v) (write_all (be_bytes n) ids),
    length-be_bytes n v,
    length-write_ids ids,
  )

  -- The number of frames that the parser works out from the length of the body.
  frame_count :
      (t : StackTraceData)
      → (length (write_body n (stack_trace t) []) - 12) / n ≡ length t.stack_frame_ids
  frame_count t = elim s [
    | inl e ↦ rw e (
        omega (arith, length-write_ids t.stack_frame_ids, ap (λ k. k * length t.stack_frame_ids) e))
    | inr e ↦ rw e (
        omega (arith, length-write_ids t.stack_frame_ids, ap (λ k. k * length t.stack_frame_ids) e))
  ]

  id_size_nonzero : (n == 0) ≡ false
  id_size_nonzero = ground arith

  module _ (timestamp : ℕ) (ht : Fits 4 timestamp) where
    -- For an id size of 4 or 8, the parser that the tag selects reads every top-level record that
    -- fits its fields off a header with a timestamp of 4 bytes and the body that the format lays
    -- down for it, where the body's length fits the header, and leaves what follows them. CPU
    -- samples are read where, beyond the format, their total number is the number of their traces,
    -- which is the length of their list.
    pub Reads-body :
        (r : Record) (raw : Bytes)
        → TopFits n r raw
        → Fits 4 (length (write_body n r raw))
        → TotalIsCount r
        → Reads
            (parse_body nom n (tag_of r))
            (write_header timestamp (length (write_body n r raw)) ++ write_body n r raw)
            r
    unfolding parse_body parse_utf8_string parse_load_class parse_unload_class parse_stack_frame
        parse_stack_trace parse_start_thread parse_heap_summary parse_end_thread
        parse_allocation_sites parse_heap_dump_end parse_control_settings parse_cpu_samples
    Reads-body (utf8_string a str) raw h hl hc =
        subst
          (λ t.
            Reads (parse_utf8_string nom n)
              (write_header timestamp (length (be_bytes n a ++ raw)) ++ (be_bytes n a ++ raw))
              (utf8_string a t))
          h.1
          (Reads-flat_map laws (Reads-header timestamp _ ht hl) (
            Reads-map laws (
              Reads-tuple2 laws (read_id a h.0) (
                Reads-take laws raw
                  (omega (arith, length-append (be_bytes n a) raw, length-be_bytes n a))))))
    Reads-body (load_class c) raw h hl hc = Reads-preceded laws (Reads-header timestamp _ ht hl) (
        Reads-map laws (
          Reads-tuple4 laws (Reads-u32 laws _ h.0) (read_id _ h.1) (Reads-u32 laws _ h.2)
            (read_id _ h.3)))
    Reads-body (unload_class a) raw h hl hc =
        Reads-preceded laws (Reads-header timestamp _ ht hl) (Reads-map laws (Reads-u32 laws a h))
    Reads-body (stack_frame f) raw h hl hc = Reads-preceded laws (Reads-header timestamp _ ht hl) (
        Reads-map laws (
          Reads-tuple6 laws (read_id _ h.0) (read_id _ h.1) (read_id _ h.2) (read_id _ h.3)
            (Reads-u32 laws _ h.4) (Reads-i32 laws _ h.5)))
    Reads-body (stack_trace t) raw h hl hc = Reads-flat_map laws (Reads-header timestamp _ ht hl) (
        rw (id_size_nonzero, frame_count t)
          (Reads-map laws (
            Reads-tuple4 laws (Reads-u32 laws _ h.0) (Reads-u32 laws _ h.1) (Reads-u32 laws _ h.2)
              (Reads-count laws (be_bytes n) (λ v. read_id v) t.stack_frame_ids refl h.3))))
    Reads-body (allocation_sites a b c d e f g sites) raw h hl hc = rw (← append_assoc) (
        Reads-flat_map laws
          (Reads-preceded laws (Reads-header timestamp _ ht hl) (
            Reads-tuple7 laws (Reads-u16 laws _ h.0) (Reads-u32 laws _ h.1) (Reads-u32 laws _ h.2)
              (Reads-u32 laws _ h.3) (Reads-u64 laws _ h.4) (Reads-u64 laws _ h.5)
              (Reads-u32 laws _ h.6)))
          (Reads-map laws (Reads-count laws write_site Reads-site sites h.7 h.8)))
    Reads-body (start_thread a b c d e f) raw h hl hc =
        Reads-preceded laws (Reads-header timestamp _ ht hl) (
          Reads-map laws (
            Reads-tuple6 laws (Reads-u32 laws _ h.0) (read_id _ h.1) (Reads-u32 laws _ h.2)
              (read_id _ h.3) (read_id _ h.4) (read_id _ h.5)))
    Reads-body (end_thread a) raw h hl hc =
        Reads-preceded laws (Reads-header timestamp _ ht hl) (Reads-map laws (Reads-u32 laws a h))
    Reads-body (heap_summary a b c d) raw h hl hc =
        Reads-preceded laws (Reads-header timestamp _ ht hl) (
          Reads-map laws (
            Reads-tuple4 laws (Reads-u32 laws _ h.0) (Reads-u32 laws _ h.1) (Reads-u64 laws _ h.2)
              (Reads-u64 laws _ h.3)))
    Reads-body (heap_dump_start len) raw h hl hc = absurd h
    Reads-body (heap_dump_end len) raw h hl hc =
        rw (h, append-nil) (Reads-map laws (Reads-header timestamp 0 ht hl))
    Reads-body (control_settings a b) raw h hl hc =
        Reads-preceded laws (Reads-header timestamp _ ht hl)
          (Reads-map laws (Reads-tuple2 laws (Reads-u32 laws _ h.0) (Reads-u16 laws _ h.1)))
    Reads-body (cpu_samples a b samples) raw h hl hc = rw (← append_assoc) (
        Reads-flat_map laws
          (Reads-preceded laws (Reads-header timestamp _ ht hl)
            (Reads-tuple2 laws (Reads-u32 laws _ h.0) (Reads-u32 laws _ h.1)))
          (Reads-map laws (Reads-count laws write_sample Reads-sample samples (h.2 ∙ sym hc) h.3)))
    Reads-body (gc_segment r) raw h hl hc = absurd h
