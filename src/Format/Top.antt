-- ===== src/Format/Top.antt =====
-- The top-level records as bytes. A heap dump segment is in `Dump`.
use hprof_slurp.Prelude.{ℕ, ◌<◌, ◌≡◌, [], ◌∷◌, ◌++◌, length, All}
use hprof_slurp.Nom.{Bytes}
use hprof_slurp.Nom.Reads.{be_bytes, Fits, FitsSigned, pattern_of, write_all}
use hprof_slurp.Utf8.{from_utf8_lossy}
use hprof_slurp.Parser.Record.{
  AllocationSite, CpuSample, Record, utf8_string, load_class, unload_class, stack_frame,
  stack_trace, allocation_sites, start_thread, end_thread, heap_summary, heap_dump_start,
  heap_dump_end, control_settings, cpu_samples, gc_segment,
}

abbrev pub tag_of : Record → ℕ
tag_of (utf8_string _ _) = 0x01
tag_of (load_class _) = 0x02
tag_of (unload_class _) = 0x03
tag_of (stack_frame _) = 0x04
tag_of (stack_trace _) = 0x05
tag_of (allocation_sites _ _ _ _ _ _ _ _) = 0x06
tag_of (heap_summary _ _ _ _) = 0x07
tag_of (start_thread _ _ _ _ _ _) = 0x0a
tag_of (end_thread _) = 0x0b
tag_of (heap_dump_start _) = 0x1c
tag_of (heap_dump_end _) = 0x2c
tag_of (control_settings _ _) = 0x0e
tag_of (cpu_samples _ _ _) = 0x0d
tag_of (gc_segment _) = 0

abbrev pub write_site : AllocationSite → Bytes
write_site a =
    (a.is_array ∷ [])
    ++ (be_bytes 4 a.class_serial_number
        ++ (be_bytes 4 a.stack_trace_serial_number
            ++ (be_bytes 4 a.bytes_alive
                ++ (be_bytes 4 a.instances_alive
                    ++ (be_bytes 4 a.bytes_allocated ++ be_bytes 4 a.instances_allocated)))))

pub record SiteFits (a : AllocationSite) : Type 0 where
  pub is_array : a.is_array < 256
  pub class_serial : Fits 4 a.class_serial_number
  pub trace : Fits 4 a.stack_trace_serial_number
  pub alive : Fits 4 a.bytes_alive
  pub instances : Fits 4 a.instances_alive
  pub allocated : Fits 4 a.bytes_allocated
  pub instances_allocated : Fits 4 a.instances_allocated

abbrev pub write_sample : CpuSample → Bytes
write_sample c = be_bytes 4 c.number_of_samples ++ be_bytes 4 c.stack_trace_serial_number

abbrev pub SampleFits : CpuSample → Type 0
SampleFits c = Fits 4 c.number_of_samples × Fits 4 c.stack_trace_serial_number

-- `raw` is the text of a string record as it stands in the file.
abbrev pub write_body : ℕ → Record → Bytes → Bytes
write_body n (utf8_string a _) raw = be_bytes n a ++ raw
write_body n (load_class c) raw =
    be_bytes 4 c.serial_number
    ++ (be_bytes n c.class_object_id
        ++ (be_bytes 4 c.stack_trace_serial_number ++ be_bytes n c.class_name_id))
write_body n (unload_class a) raw = be_bytes 4 a
write_body n (stack_frame f) raw =
    be_bytes n f.stack_frame_id
    ++ (be_bytes n f.method_name_id
        ++ (be_bytes n f.method_signature_id
            ++ (be_bytes n f.source_file_name_id
                ++ (be_bytes 4 f.class_serial_number ++ be_bytes 4 (pattern_of 32 f.line_number)))))
write_body n (stack_trace t) raw =
    be_bytes 4 t.serial_number
    ++ (be_bytes 4 t.thread_serial_number
        ++ (be_bytes 4 t.number_of_frames ++ write_all (be_bytes n) t.stack_frame_ids))
write_body n (allocation_sites a b c d e f g sites) raw =
    (be_bytes 2 a
      ++ (be_bytes 4 b
          ++ (be_bytes 4 c ++ (be_bytes 4 d ++ (be_bytes 8 e ++ (be_bytes 8 f ++ be_bytes 4 g))))))
    ++ write_all write_site sites
write_body n (start_thread a b c d e f) raw =
    be_bytes 4 a
    ++ (be_bytes n b ++ (be_bytes 4 c ++ (be_bytes n d ++ (be_bytes n e ++ be_bytes n f))))
write_body n (end_thread a) raw = be_bytes 4 a
write_body n (heap_summary a b c d) raw =
    be_bytes 4 a ++ (be_bytes 4 b ++ (be_bytes 8 c ++ be_bytes 8 d))
write_body n (heap_dump_start len) raw = []
write_body n (heap_dump_end len) raw = []
write_body n (control_settings a b) raw = be_bytes 4 a ++ be_bytes 2 b
write_body n (cpu_samples a b samples) raw =
    (be_bytes 4 a ++ be_bytes 4 b) ++ write_all write_sample samples
write_body n (gc_segment r) raw = []

abbrev pub write_header : ℕ → ℕ → Bytes
write_header timestamp len = be_bytes 4 timestamp ++ be_bytes 4 len

-- The tag, the header with the body's length, and the body.
abbrev pub write_top : ℕ → ℕ → Record → Bytes → Bytes
write_top n timestamp r raw =
    tag_of r ∷ (write_header timestamp (length (write_body n r raw)) ++ write_body n r raw)

-- The numbers fit their fields, and counts announce what follows: CPU samples are as many as their
-- number of traces.
abbrev pub TopFits : ℕ → Record → Bytes → Type 0
TopFits n (utf8_string a str) raw = Fits n a × (from_utf8_lossy raw ≡ str)
TopFits n (load_class c) raw =
    Fits 4 c.serial_number
    × Fits n c.class_object_id
    × Fits 4 c.stack_trace_serial_number
    × Fits n c.class_name_id
TopFits n (unload_class a) raw = Fits 4 a
TopFits n (stack_frame f) raw =
    Fits n f.stack_frame_id
    × Fits n f.method_name_id
    × Fits n f.method_signature_id
    × Fits n f.source_file_name_id
    × Fits 4 f.class_serial_number
    × FitsSigned 32 f.line_number
TopFits n (stack_trace t) raw =
    Fits 4 t.serial_number
    × Fits 4 t.thread_serial_number
    × Fits 4 t.number_of_frames
    × All (Fits n) t.stack_frame_ids
TopFits n (allocation_sites a b c d e f g sites) raw =
    Fits 2 a
    × Fits 4 b
    × Fits 4 c
    × Fits 4 d
    × Fits 8 e
    × Fits 8 f
    × Fits 4 g
    × (length sites ≡ g)
    × All SiteFits sites
TopFits n (start_thread a b c d e f) raw =
    Fits 4 a × Fits n b × Fits 4 c × Fits n d × Fits n e × Fits n f
TopFits n (end_thread a) raw = Fits 4 a
TopFits n (heap_summary a b c d) raw = Fits 4 a × Fits 4 b × Fits 8 c × Fits 8 d
TopFits n (heap_dump_start len) raw = ⊥
TopFits n (heap_dump_end len) raw = len ≡ 0
TopFits n (control_settings a b) raw = Fits 4 a × Fits 2 b
TopFits n (cpu_samples a b samples) raw =
    Fits 4 a × Fits 4 b × (length samples ≡ b) × All SampleFits samples
TopFits n (gc_segment r) raw = ⊥

-- CPU samples whose total number of samples is the number of their traces. The format does not ask
-- for it, but `parse_cpu_samples` takes the total for the count of the list.
abbrev pub TotalIsCount : Record → Type 0
TotalIsCount (cpu_samples a b samples) = a ≡ b
TotalIsCount r = Unit
