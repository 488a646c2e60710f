-- ===== src/Parser/Streaming/Dispatch.antt =====
-- The dispatch on tags keeps the promises of a parser over a stream, in either mode.
use hprof_slurp.Prelude.{ℕ, ◌-◌, ◌==◌, ◌++◌, ap, length, length-append, arith}
use hprof_slurp.Nom.{Nom, NomLaws, Bytes, Parser, IResult, ok, ◌and_then◌}
use hprof_slurp.Nom.Streams.{
  Streams, Streams-seq, Streams-ok, Streams-if, Streams-map, Grows, reads, waits, panics, Waits-on,
}
use hprof_slurp.Parser.Streaming.Fields.{parse_u8-Streams}
use hprof_slurp.Parser.Streaming.Gc.{gc_rules}
use hprof_slurp.Parser.Streaming.Bodies.{body_rules, parse_header_record-Streams}
use hprof_slurp.Parser.Dispatch.{
  HprofRecordParser, parse_gc_body, parse_gc_record, parse_body, parse_heap_dump_start,
  parse_tagged, parse_record, parse_segment, parse_hprof_record, is_heap_dump, after_segment,
}

-- A value that depends on how many bytes were taken.
module _ {A B : Type 0} (g : ℕ → A → B) where
  abbrev measured : Bytes → IResult A → IResult B
  measured i r = r and_then λ a rest. ok rest (g (length i - length rest) a)

  Grows-measured :
      (i : Bytes) (later : Parser A) {r : IResult A}
      → Grows i later r
      → Grows i (λ more. measured (i ++ more) (later more)) (measured i r)
  Grows-measured i later (reads c {r = rest} {a = a} e k) = reads c e λ more. rw (k more) (
      ap (λ n. ok (rest ++ more) (g n a))
        (omega (arith, length-append i more, length-append rest more)))
  Grows-measured i later (waits n h k) = waits n h (λ more m. Waits-on _ (k more m))
  Grows-measured i later (panics k) = panics (λ more. rw (k more))

  Streams-measured : {p : Parser A} → Streams p → Streams (λ i. measured i (p i))
  Streams-measured {p} sp = record { at = λ i. Grows-measured i (λ more. p (i ++ more)) (sp.at i) }

module _ {nom : Nom} (laws : NomLaws nom) where
  pub parse_gc_body-Streams : (n tag : ℕ) → Streams (parse_gc_body nom n tag)
  unfolding parse_gc_body
  parse_gc_body-Streams n tag = search (gc_rules, laws) depth 30

  parse_body-Streams : (n tag : ℕ) → Streams (parse_body nom n tag)
  unfolding parse_body
  parse_body-Streams n tag = search (body_rules, laws) depth 30

  parse_gc_record-Streams : (n : ℕ) → Streams (parse_gc_record nom n)
  unfolding parse_gc_record
  parse_gc_record-Streams n = Streams-seq (parse_u8-Streams laws) (parse_gc_body-Streams n)

  pub parse_tagged-Streams : (p : HprofRecordParser) (tag : ℕ) → Streams (parse_tagged nom p tag)
  unfolding parse_tagged parse_heap_dump_start
  parse_tagged-Streams p tag =
      Streams-if (is_heap_dump tag) (Streams-map laws (parse_header_record-Streams laws))
        (Streams-seq (parse_body-Streams p.id_size tag) λ a. Streams-ok (a, p))

  parse_record-Streams : (p : HprofRecordParser) → Streams (parse_record nom p)
  unfolding parse_record
  parse_record-Streams p = Streams-seq (parse_u8-Streams laws) (parse_tagged-Streams p)

  parse_segment-Streams : (p : HprofRecordParser) → Streams (parse_segment nom p)
  unfolding parse_segment
  parse_segment-Streams p = Streams-measured (after_segment p) (parse_gc_record-Streams p.id_size)

  pub parse_hprof_record-Streams : (p : HprofRecordParser) → Streams (parse_hprof_record nom p)
  unfolding parse_hprof_record
  parse_hprof_record-Streams p =
      Streams-if (p.heap_dump_remaining_len == 0) (parse_record-Streams p) (parse_segment-Streams p)
