-- ===== src/Format/Dump.antt =====
-- A whole dump: top-level records and heap dump segments in any order.
use hprof_slurp.Prelude.{
  ℕ, suc, ◌+◌, ◌<◌, ◌≡◌, refl, ap, ◌⊎◌, inl, inr, Bool, false, List, [], ◌∷◌, ◌++◌, append_assoc,
  length, length-append, All, arith, ◌==◌,
}
use hprof_slurp.Nom.{Nom, NomLaws, Bytes, ok}
use hprof_slurp.Nom.Reads.{Reads, Reads-seq, map_ok-Reads, Fits, write_all, Reads-map}
use hprof_slurp.Parser.GcRecord.{GcRecord}
use hprof_slurp.Parser.Record.{Record, utf8_string, heap_dump_start, gc_segment}
use hprof_slurp.Parser.Dispatch.{
  HprofRecordParser, new, is_heap_dump, parse_heap_dump_start, parse_tagged, parse_record,
  parse_segment, parse_hprof_record,
}
use hprof_slurp.Parser.LazyMany.Reaches.{Reaches, stop, more, Reaches-trans}
use hprof_slurp.Format.Fields.{IsIdSize, Reads-u8}
use hprof_slurp.Format.Gc.{Ignored, write_gc, GcFits, Reads-gc_record}
use hprof_slurp.Format.Top.{tag_of, write_body, write_header, write_top, TopFits, TotalIsCount}
use hprof_slurp.Format.Bodies.{Reads-header, Reads-body}

pub data Item : Type 0 where
  top : (timestamp : ℕ) → Record → (raw : Bytes) → Item
  segment : (timestamp tag : ℕ) → List (GcRecord × Ignored) → Item

abbrev pub write_entry : ℕ → GcRecord × Ignored → Bytes
write_entry n (r, x) = write_gc n r x

abbrev pub EntryFits : ℕ → GcRecord × Ignored → Type 0
EntryFits n (r, x) = GcFits n r x

abbrev pub write_item : ℕ → Item → Bytes
write_item n (top timestamp r raw) = write_top n timestamp r raw
write_item n (segment timestamp tag entries) =
    let body = write_all (write_entry n) entries in
    tag ∷ (write_header timestamp (length body) ++ body)

-- A segment has the tag of a heap dump or of a heap dump segment, and CPU samples have a total that is
-- the number of their traces.
abbrev pub ItemFits : ℕ → Item → Type 0
ItemFits n (top timestamp r raw) =
    Fits 4 timestamp × TopFits n r raw × Fits 4 (length (write_body n r raw)) × TotalIsCount r
ItemFits n (segment timestamp tag entries) =
    Fits 4 timestamp
    × ((tag ≡ 0x0c) ⊎ (tag ≡ 0x1c))
    × All (EntryFits n) entries
    × Fits 4 (length (write_all (write_entry n) entries))

abbrev pub segments : List (GcRecord × Ignored) → List Record
segments [] = []
segments ((r, x) ∷ entries) = gc_segment r ∷ segments entries

-- The records that an item stands for: a segment is its start and its sub-records.
abbrev pub item_records : ℕ → Item → List Record
item_records n (top timestamp r raw) = r ∷ []
item_records n (segment timestamp tag entries) =
    heap_dump_start (length (write_all (write_entry n) entries)) ∷ segments entries

abbrev pub records_of : ℕ → List Item → List Record
records_of n [] = []
records_of n (i ∷ items) = item_records n i ++ records_of n items

top_tag : (n : ℕ) (r : Record) (raw : Bytes) → TopFits n r raw → is_heap_dump (tag_of r) ≡ false
top_tag n (utf8_string _ _) raw h = refl
top_tag n (heap_dump_start _) raw h = absurd h
top_tag n (gc_segment _) raw h = absurd h
top_tag n _ raw h = refl

tag_of-lt : (r : Record) → tag_of r < 256
tag_of-lt (utf8_string _ _) = omega arith
tag_of-lt _ = omega arith

nonzero : (a k : ℕ) → (suc a + k == 0) ≡ false
nonzero a k = ground arith

-- The parser's state with `k` bytes of the segment to come.
abbrev inside : Bool → ℕ → ℕ → HprofRecordParser
inside debug_mode n k = record { debug_mode = debug_mode; id_size = n; heap_dump_remaining_len = k }

module _ {nom : Nom} (laws : NomLaws nom) (debug_mode : Bool) (n : ℕ) (s : IsIdSize n) where
  Reads-top :
      (timestamp : ℕ) (r : Record) (raw : Bytes)
      → ItemFits n (top timestamp r raw)
      → Reads
          (parse_hprof_record nom (new debug_mode n))
          (write_top n timestamp r raw)
          (r, new debug_mode n)
  unfolding parse_hprof_record parse_record parse_tagged
  Reads-top timestamp r raw h =
      Reads-seq (parse_tagged nom (new debug_mode n)) (Reads-u8 laws (tag_of r) (tag_of-lt r)) (
        rw (top_tag n r raw h.1) (
          map_ok-Reads (λ parsed. (parsed, new debug_mode n))
            (Reads-body laws n s timestamp h.0 r raw h.1 h.2 h.3)))

  Reads-start :
      (timestamp tag len : ℕ)
      → Fits 4 timestamp
      → (tag ≡ 0x0c) ⊎ (tag ≡ 0x1c)
      → Fits 4 len
      → Reads
          (parse_hprof_record nom (new debug_mode n))
          (tag ∷ write_header timestamp len)
          (heap_dump_start len, inside debug_mode n len)
  unfolding parse_hprof_record parse_record parse_tagged parse_heap_dump_start
  Reads-start timestamp tag len ht is_tag hl = elim is_tag [
    | inl e ↦ rw e (
        Reads-seq (parse_tagged nom (new debug_mode n)) (Reads-u8 laws 0x0c (omega arith))
          (Reads-map laws (Reads-header laws n s timestamp len ht hl)))
    | inr e ↦ rw e (
        Reads-seq (parse_tagged nom (new debug_mode n)) (Reads-u8 laws 0x1c (omega arith))
          (Reads-map laws (Reads-header laws n s timestamp len ht hl)))
  ]

  -- One sub-record takes its own length off the length that the segment has left.
  Reads-entry :
      (r : GcRecord) (x : Ignored) (k : ℕ)
      → GcFits n r x
      → Fits 4 (length (write_gc n r x) + k)
      → Reads
          (parse_hprof_record nom (inside debug_mode n (length (write_gc n r x) + k)))
          (write_gc n r x)
          (gc_segment r, inside debug_mode n k)
  unfolding parse_hprof_record parse_segment
  Reads-entry r x k h hl = record {
    at = λ rest.
        let bs = write_gc n r x in
        rw (nonzero _ k) (
          rw ((Reads-gc_record laws n s r x h).at rest) (
            ap (λ left. ok rest (gc_segment r, inside debug_mode n left))
              (omega (arith, length-append bs rest, hl))));
  }

  Reaches-entries :
      (entries : List (GcRecord × Ignored)) (rest : Bytes)
      → All (EntryFits n) entries
      → Fits 4 (length (write_all (write_entry n) entries))
      → Reaches
          (parse_hprof_record nom)
          (inside debug_mode n (length (write_all (write_entry n) entries)))
          (write_all (write_entry n) entries ++ rest)
          (segments entries)
          (new debug_mode n)
          rest
  Reaches-entries [] rest h hl = stop
  Reaches-entries ((r, x) ∷ entries) rest h hl =
      let body = write_all (write_entry n) entries in
      let seam = length-append (write_gc n r x) body in
      more
        (rw (seam, append_assoc)
          ((Reads-entry r x (length body) h.0 (omega (arith, hl, seam))).at (body ++ rest)))
        (Reaches-entries entries rest h.1 (omega (arith, hl, seam)))

  Reaches-item :
      (i : Item) (rest : Bytes)
      → ItemFits n i
      → Reaches
          (parse_hprof_record nom)
          (new debug_mode n)
          (write_item n i ++ rest)
          (item_records n i)
          (new debug_mode n)
          rest
  Reaches-item (top timestamp r raw) rest h = more ((Reads-top timestamp r raw h).at rest) stop
  Reaches-item (segment timestamp tag entries) rest h =
      let body = write_all (write_entry n) entries in
      more
        (rw append_assoc ((Reads-start timestamp tag (length body) h.0 h.1 h.3).at (body ++ rest)))
        (Reaches-entries entries rest h.2 h.3)

  -- For an id size of 4 or 8 and items that all fit the format, CPU samples with a total that is the
  -- number of their traces, the calls of `parse_hprof_record` on
  -- the bytes that the format lays down for them give their records, each segment's start followed by
  -- its sub-records, and end outside of any segment with no bytes left.
  pub Reaches-dump :
      (items : List Item)
      → All (ItemFits n) items
      → Reaches
          (parse_hprof_record nom)
          (new debug_mode n)
          (write_all (write_item n) items)
          (records_of n items)
          (new debug_mode n)
          []
  Reaches-dump [] h = stop
  Reaches-dump (i ∷ items) h =
      Reaches-trans (Reaches-item i (write_all (write_item n) items) h.0) (Reaches-dump items h.1)
