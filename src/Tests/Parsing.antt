-- ===== src/Tests/Parsing.antt =====
-- The parsers' theorems at concrete inputs.
use hprof_slurp.Prelude.{
  ℕ, ◌↔◌, ◌<◌, ◌≡◌, refl, inl, inr, true, false, List, [], ◌∷◌, ◌++◌, length, take, drop, negsuc,
  arith, All,
}
use hprof_slurp.Nom.{Bytes, ok, incomplete, size}
use hprof_slurp.Nom.Reads.{Reads, write_all}
use hprof_slurp.Nom.Reference.{nom, laws}
use hprof_slurp.Nom.Streams.{Waits}
use hprof_slurp.Utf8.{from_utf8_lossy}
use hprof_slurp.Parser.GcRecord.{GcRecord, FieldType, FieldValue}
use hprof_slurp.Parser.Record.{CpuSample, Record, utf8_string, stack_trace, end_thread, cpu_samples}
use hprof_slurp.Parser.Dispatch.{
  new, parse_hprof_record, parse_gc_record, parse_body, parse_record, parse_tagged,
}
use hprof_slurp.Parser.Body.{parse_end_thread, parse_header_record}
use hprof_slurp.Parser.Primitive.{parse_u8, parse_u32}
use hprof_slurp.Parser.LazyMany.{lazy_many1}
use hprof_slurp.Parser.LazyMany.Reaches.{Reaches}
use hprof_slurp.Parser.LazyMany.Maximal.{Outcome, lazy_many1-Outcome}
use hprof_slurp.Parser.Stream
use hprof_slurp.Parser.Stream.{run}
use hprof_slurp.Parser.Stream.Chunks.{Delivered, run_chunks, start-Waits}
use hprof_slurp.Parser.Streaming.Dispatch.{parse_hprof_record-Streams}
use hprof_slurp.Parser.Streaming.Takes.{parse_hprof_record-Takes}
use hprof_slurp.Parser.Streaming.Laws.{parse_hprof_record-append, parse_hprof_record_needed}
use hprof_slurp.Format.Gc.{Ignored, write_gc, Reads-gc_record}
use hprof_slurp.Format.Top
use hprof_slurp.Format.Top.{write_header}
use hprof_slurp.Format.Bodies.{Reads-body}
use hprof_slurp.Format.CpuSamples.{Reads-cpu_samples_iff}
use hprof_slurp.Format.Dump.{Item, top, segment, ItemFits, write_item, records_of, Reaches-dump}

abbrev pub nothing : Ignored
nothing = record {
  body = [];
  class_loader_object_id = 0;
  signers_object_id = 0;
  protection_domain_object_id = 0;
  reserved_1 = 0;
  reserved_2 = 0;
}

-- A class with a constant, a static `int` of -2, and two instance fields.
abbrev class_7 : GcRecord
class_7 = GcRecord.class_dump (record {
  class_object_id = 7;
  stack_trace_serial_number = 1;
  super_class_object_id = 3;
  instance_size = 12;
  const_fields =
      (record { const_pool_idx = 1; const_type = FieldType.bool }, FieldValue.bool true) ∷ [];
  static_fields =
      (record { name_id = 20; field_type = FieldType.int }, FieldValue.int (negsuc 1)) ∷ [];
  instance_fields =
      record { name_id = 21; field_type = FieldType.object }
      ∷ record { name_id = 22; field_type = FieldType.long }
      ∷ [];
})

Reads-gc_record_example : Reads (parse_gc_record nom 8) (write_gc 8 class_7 nothing) class_7
Reads-gc_record_example = Reads-gc_record laws 8 (inr refl) class_7 nothing (record {
  class_id = omega arith;
  trace = omega arith;
  super = omega arith;
  loader = omega arith;
  signers = omega arith;
  domain = omega arith;
  reserved_1 = omega arith;
  reserved_2 = omega arith;
  size = omega arith;
  const_count = omega arith;
  consts = ((omega arith, refl, tt), tt);
  static_count = omega arith;
  statics = ((omega arith, refl, omega arith), tt);
  field_count = omega arith;
  fields = omega arith;
})

abbrev trace_1 : Record
trace_1 = stack_trace (record {
  serial_number = 1;
  thread_serial_number = 2;
  number_of_frames = 2;
  stack_frame_ids = 10 ∷ 11 ∷ [];
})

Reads-body_example :
    Reads
      (parse_body nom 4 5)
      (write_header 9 (length (Top.write_body 4 trace_1 [])) ++ Top.write_body 4 trace_1 [])
      trace_1
Reads-body_example =
    Reads-body laws 4 (inl refl) 9 (omega arith) trace_1 []
      (omega arith, omega arith, omega arith, omega arith) (omega arith) tt

-- Two traces with three samples between them.
abbrev samples : List CpuSample
samples =
    record { number_of_samples = 2; stack_trace_serial_number = 1 }
    ∷ record { number_of_samples = 1; stack_trace_serial_number = 5 }
    ∷ []

Reads-cpu_samples_iff_example :
    Reads
      (parse_body nom 4 0x0d)
      (write_header 9 (length (Top.write_body 4 (cpu_samples 3 2 samples) []))
        ++ Top.write_body 4 (cpu_samples 3 2 samples) [])
      (cpu_samples 3 2 samples)
    ↔ ◌≡◌ {A = ℕ} 3 2
Reads-cpu_samples_iff_example =
    Reads-cpu_samples_iff laws 4 (inl refl) 9 (omega arith) 3 2 samples
      (
        omega arith,
        omega arith,
        refl,
        ((omega arith, omega arith), ((omega arith, omega arith), tt)),
      )
      (omega arith)

-- A string, a segment with an instance of 3 bytes and a root, and the end of a thread.
abbrev pub sample : List Item
sample =
    top 1 (utf8_string 5 (b'a' ∷ b'b' ∷ [])) (b'a' ∷ b'b' ∷ [])
    ∷ segment 2 0x1c (
        (GcRecord.instance_dump 100 1 7 3, record nothing { body = 9 ∷ 9 ∷ 9 ∷ [] })
        ∷ (GcRecord.root_sticky_class 7, nothing)
        ∷ [])
    ∷ top 3 (end_thread 4) []
    ∷ []

sample_text : from_utf8_lossy (b'a' ∷ b'b' ∷ []) ≡ b'a' ∷ b'b' ∷ []
unfolding from_utf8_lossy
sample_text = refl

pub sample_fits : All (ItemFits 4) sample
sample_fits = (
  (omega arith, (omega arith, sample_text), omega arith, tt),
  (
    (
      omega arith,
      inr refl,
      ((omega arith, omega arith, omega arith, omega arith, refl), (omega arith, tt)),
      omega arith,
    ),
    ((omega arith, omega arith, omega arith, tt), tt),
  ),
)

abbrev sample_bytes : Bytes
sample_bytes = write_all (write_item 4) sample

Reaches-dump_example :
    Reaches
      (parse_hprof_record nom)
      (new false 4)
      sample_bytes
      (records_of 4 sample)
      (new false 4)
      []
Reaches-dump_example = Reaches-dump laws false 4 (inl refl) sample sample_fits

-- The cuts fall into a record's header and into the contents of an instance.
abbrev sample_chunks : List Bytes
sample_chunks = take 5 sample_bytes ∷ take 36 (drop 5 sample_bytes) ∷ drop 41 sample_bytes ∷ []

run_chunks_example :
    Delivered
      (run nom (Stream.new false 4 100 31 []) sample_chunks)
      93
      (records_of 4 sample)
      (new false 4)
      []
run_chunks_example =
    run_chunks laws (start-Waits laws false 4) false 4 100 31 sample_chunks (records_of 4 sample)
      (Reaches-dump laws false 4 (inl refl) sample sample_fits) (omega arith)

lazy_many1-Outcome_example :
    Outcome
      (parse_hprof_record nom)
      (new false 4)
      sample_bytes
      []
      (lazy_many1 (parse_hprof_record nom) (new false 4) sample_bytes [])
lazy_many1-Outcome_example =
    lazy_many1-Outcome (parse_hprof_record-Streams laws) (parse_hprof_record-Takes laws)
      (new false 4) sample_bytes []

-- The end of thread 4, and its first three bytes.
abbrev thread_end : Bytes
thread_end = 0x0b ∷ 0 ∷ 0 ∷ 0 ∷ 1 ∷ 0 ∷ 0 ∷ 0 ∷ 4 ∷ 0 ∷ 0 ∷ 0 ∷ 4 ∷ []

thread_end_parses :
    parse_hprof_record nom (new false 4) thread_end ≡ ok [] (end_thread 4, new false 4)
unfolding parse_hprof_record parse_record parse_tagged parse_body parse_end_thread
    parse_header_record parse_u32 parse_u8
thread_end_parses = refl

thread_end_cut : parse_hprof_record nom (new false 4) (take 3 thread_end) ≡ incomplete (size 2)
unfolding parse_hprof_record parse_record parse_tagged parse_body parse_end_thread
    parse_header_record parse_u32 parse_u8
thread_end_cut = refl

parse_hprof_record-append_example :
    (parse_hprof_record nom (new false 4) (thread_end ++ (1 ∷ 2 ∷ []))
      ≡ ok (1 ∷ 2 ∷ []) (end_thread 4, new false 4))
    × (0 < 13)
parse_hprof_record-append_example =
    parse_hprof_record-append laws (new false 4) (new false 4) thread_end (1 ∷ 2 ∷ []) []
      (end_thread 4) thread_end_parses

parse_hprof_record_needed_example :
    (0 < 2) × Waits (parse_hprof_record nom (new false 4) (take 3 thread_end ++ (1 ∷ [])))
parse_hprof_record_needed_example =
    parse_hprof_record_needed laws (new false 4) (take 3 thread_end) (1 ∷ []) 2 thread_end_cut
      (omega arith)
