-- ===== src/Parser/Streaming/Takes.antt =====
-- A record, in either mode, takes a byte at least: its tag.
use hprof_slurp.Prelude.{
  ℕ, ◌<◌, ◌≤◌, ◌≡◌, ap, true, false, ◌==◌, length, length-append, arith, if◌then◌else◌, Bool, [],
  ◌∷◌,
}
use hprof_slurp.Nom.{
  Nom, NomLaws, Bytes, Parser, IResult, ok, incomplete, error, failure, panicked, seq, take_bytes,
  be_value, ◌and_then◌,
}
use hprof_slurp.Nom.Streams.{Streams, Streams-ok, Grows, reads, waits, panics}
use hprof_slurp.Parser.LazyMany.Reaches.{Takes}
use hprof_slurp.Parser.Primitive.{parse_u8}
use hprof_slurp.Parser.Record.{Record}
use hprof_slurp.Parser.Dispatch.{
  HprofRecordParser, parse_gc_record, parse_record, parse_segment, parse_hprof_record,
}
use hprof_slurp.Parser.Streaming.Dispatch.{parse_gc_body-Streams, parse_tagged-Streams}

module _ {A : Type 0} where
  le_of_Grows :
      {i r : Bytes} {a : A} {later : Parser A} {x : IResult A}
      → Grows i later x
      → x ≡ ok r a
      → length r ≤ length i
  le_of_Grows {r} (reads c {r = r'} e k) q =
      omega (arith, ap length e, length-append c r', ap length (rest_eq q))
    where
      rest_eq : {a' a : A} → ok r' a' ≡ ok r a → r' ≡ r
      rest_eq q = cc
  le_of_Grows (waits n h k) q = cc
  le_of_Grows (panics k) q = cc

  pub Streams-le :
      {p : Parser A}
      → Streams p
      → (i : Bytes) {r : Bytes} {a : A} → p i ≡ ok r a
      → length r ≤ length i
  Streams-le sp i q = le_of_Grows (sp.at i) q

pub and_then-eq_ok :
    {A B : Type 0} (x : IResult A) (f : A → Parser B) {r : Bytes} {b : B}
    → (x and_then f) ≡ ok r b
    → (r1 : Bytes) × (a : A) × (x ≡ ok r1 a) × (f a r1 ≡ ok r b)
and_then-eq_ok (ok r1 a) f q = (r1, a, cc, q)
and_then-eq_ok (incomplete n) f q = cc
and_then-eq_ok error f q = cc
and_then-eq_ok failure f q = cc
and_then-eq_ok panicked f q = cc

Takes-seq :
    {A B : Type 0} {p : Parser A} {f : A → Parser B}
    → Takes p
    → ((a : A) → Streams (f a))
    → Takes (seq p f)
Takes-seq {p} {f} tp sf = record {
  at = λ i q.
      let (r1, a, e, e') = and_then-eq_ok (p i) f q in
      omega (arith, tp.at i e, Streams-le (sf a) r1 e');
}

take_one-Takes : Takes (take_bytes 1)
take_one-Takes = record { at = λ i {r} {a} q. take_one i r a q }
  where
    take_one : (i r a : Bytes) → take_bytes 1 i ≡ ok r a → length r < length i
    take_one [] r a q = cc
    take_one (b ∷ i) r a q = omega (arith, ap length (rest_eq q))
      where
        rest_eq : take_bytes 1 (b ∷ i) ≡ ok r a → r ≡ i
        rest_eq q = ground arith

module _ {nom : Nom} (laws : NomLaws nom) where
  parse_u8-Takes : Takes (parse_u8 nom)
  unfolding parse_u8
  parse_u8-Takes = rw laws.be_u8_lem (Takes-seq take_one-Takes λ a. Streams-ok (be_value 0 a))

  parse_gc_record-Takes : (n : ℕ) → Takes (parse_gc_record nom n)
  unfolding parse_gc_record
  parse_gc_record-Takes n = Takes-seq parse_u8-Takes (parse_gc_body-Streams laws n)

  parse_record-Takes : (p : HprofRecordParser) → Takes (parse_record nom p)
  unfolding parse_record
  parse_record-Takes p = Takes-seq parse_u8-Takes (parse_tagged-Streams laws p)

  parse_segment-Takes : (p : HprofRecordParser) → Takes (parse_segment nom p)
  unfolding parse_segment
  parse_segment-Takes p = record {
    at = λ i q.
        let (r1, a, e, e') = and_then-eq_ok (parse_gc_record nom p.id_size i) _ q in
        omega (arith, (parse_gc_record-Takes p.id_size).at i e, ap length (rest_eq e'));
  }
    where
      rest_eq : {r r1 : Bytes} {a b : Record × HprofRecordParser} → ok r1 a ≡ ok r b → r ≡ r1
      rest_eq q = cc

  Takes-if :
      {A : Type 0} (b : Bool) {p q : Parser A} → Takes p → Takes q → Takes (if b then p else q)
  Takes-if true tp tq = tp
  Takes-if false tp tq = tq

  pub parse_hprof_record-Takes : (p : HprofRecordParser) → Takes (parse_hprof_record nom p)
  unfolding parse_hprof_record
  parse_hprof_record-Takes p =
      Takes-if (p.heap_dump_remaining_len == 0) (parse_record-Takes p) (parse_segment-Takes p)
