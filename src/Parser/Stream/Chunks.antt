-- ===== src/Parser/Stream/Chunks.antt =====
-- However the file is cut into chunks, the stream parser sends the records of the whole.
use hprof_slurp.Prelude.{
  ℕ, ◌+◌, ◌≤◌, ◌≡◌, refl, sym, ap, ◌∙◌, Bool, List, [], ◌∷◌, ◌++◌, append-nil, append_assoc, length,
  length-append, arith,
}
use hprof_slurp.Nom.{Nom, NomLaws, Bytes}
use hprof_slurp.Nom.Streams.{Waits, wait}
use hprof_slurp.Parser.Primitive.{parse_u8}
use hprof_slurp.Parser.Record.{Record}
use hprof_slurp.Parser.Dispatch.{HprofRecordParser, parse_hprof_record, parse_record}
use hprof_slurp.Parser.Dispatch
use hprof_slurp.Parser.LazyMany.Reaches.{Reaches, stop, more, Waits-ne-ok}
use hprof_slurp.Parser.Stream.{
  HprofRecordStreamParser, Turn, new, run, Message, Thread, ended, after_turn,
}
use hprof_slurp.Parser.Stream.Turns.{IsReady, Goes, silent, sending, on_data-Goes}

abbrev pub concat : {A : Type 0} → List (List A) → List A
concat [] = []
concat (c ∷ cs) = c ++ concat cs

-- All records that were sent, in order.
abbrev pub sent : List Message → List Record
sent [] = []
sent (m ∷ ms) = m.records ++ sent ms

same_total :
    (s s' : HprofRecordStreamParser) (chunk later : Bytes)
    → s'.processed_len + length s'.loop_buffer ≡ s.processed_len + length (s.loop_buffer ++ chunk)
    → s'.processed_len + length (s'.loop_buffer ++ later)
      ≡ s.processed_len + length (s.loop_buffer ++ (chunk ++ later))
same_total s s' chunk later e = omega (
  arith,
  e,
  length-append s'.loop_buffer later,
  length-append s.loop_buffer chunk,
  length-append s.loop_buffer (chunk ++ later),
  length-append chunk later,
)

-- The thread has ended at the closed channel. It has sent the records `os`, its parser is in state
-- `p'`, `rest` waits in its buffer, and of the file's first `total` bytes all others are processed.
abbrev pub Delivered : List Message × Thread → ℕ → List Record → HprofRecordParser → Bytes → Type 0
Delivered outcome total os p' rest =
    (messages : List Message) × (s' : HprofRecordStreamParser) × (outcome ≡ (messages, ended s'))
    × (sent messages ≡ os)
    × (s'.parser ≡ p')
    × (s'.loop_buffer ≡ rest)
    × (s'.processed_len + length rest ≡ total)

-- The bytes that are processed, in the buffer, or in chunks to come.
abbrev total_len : HprofRecordStreamParser → Bytes → ℕ
total_len s later = s.processed_len + length (s.loop_buffer ++ later)

module _ (nom : Nom) {p' : HprofRecordParser} {rest : Bytes} where
  ended_here :
      (s : HprofRecordStreamParser) {os : List Record} {b : Bytes} {total : ℕ}
      → b ≡ s.loop_buffer
      → s.processed_len + length b ≡ total
      → Waits (parse_hprof_record nom s.parser s.loop_buffer)
      → Reaches (parse_hprof_record nom) s.parser b os p' rest
      → Delivered ([], ended s) total os p' rest
  ended_here s q n w stop = ([], s, refl, refl, refl, sym q, n)
  ended_here s q n w (more {i1} {o} {s1} e r) =
      absurd (Waits-ne-ok {r = i1} {a = (o, s1)} w (rw (sym q) e))

  -- What the rest of the thread delivers, it delivers after the turn.
  Delivered-turn :
      (s : HprofRecordStreamParser) (chunk later : Bytes) (os : List Record)
      (go_on : HprofRecordStreamParser → List Message × Thread) {turn : Turn}
      → Goes nom s chunk later os p' rest turn
      → ((s1 : HprofRecordStreamParser) (os1 : List Record)
          → IsReady nom s1
          → Reaches (parse_hprof_record nom) s1.parser (s1.loop_buffer ++ later) os1 p' rest
          → total_len s1 later ≡ total_len s (chunk ++ later)
          → s1.file_len ≡ s.file_len
          → Delivered (go_on s1) (total_len s1 later) os1 p' rest)
      → Delivered (after_turn go_on turn) (total_len s (chunk ++ later)) os p' rest
  Delivered-turn s chunk later os go_on (silent {s'} t) ih =
      let same = same_total s s' chunk later t.accounted in
      let (ms, last, e, all, p, b, n) = ih s' t.others t.ready t.goes_on same t.same_file in
      (ms, last, e, all ∙ sym t.split, p, b, n ∙ same)
  Delivered-turn s chunk later os go_on (sending {s'} {n = k} {rs} t) ih =
      let same = same_total s s' chunk later t.accounted in
      let (ms, last, e, all, p, b, n) = ih s' t.others t.ready t.goes_on same t.same_file in
      (
        record { progress = k; records = rs } ∷ ms,
        last,
        rw e,
        ap (λ x. rs ++ x) all ∙ sym t.split,
        p,
        b,
        n ∙ same,
      )

module _ {nom : Nom} (laws : NomLaws nom) where
  -- A fresh record parser waits for a first byte.
  pub start-Waits :
      (debug_mode : Bool) (id_size : ℕ)
      → Waits (parse_hprof_record nom (Dispatch.new debug_mode id_size) [])
  unfolding parse_hprof_record parse_record parse_u8
  start-Waits debug_mode id_size = rw laws.be_u8_lem (wait 1 (omega arith))

module _ {nom : Nom} (laws : NomLaws nom) {p' : HprofRecordParser} {rest : Bytes}
    (final : Waits (parse_hprof_record nom p' rest)) where
  run-Delivered :
      (chunks : List Bytes) (s : HprofRecordStreamParser) (os : List Record)
      → IsReady nom s
      → Reaches (parse_hprof_record nom) s.parser (s.loop_buffer ++ concat chunks) os p' rest
      → total_len s (concat chunks) ≤ s.file_len
      → Delivered (run nom s chunks) (total_len s (concat chunks)) os p' rest
  unfolding run
  run-Delivered [] s os ready whole fits = ended_here nom s (append-nil _) refl ready.starving whole
  run-Delivered (chunk ∷ chunks) s os ready whole fits =
      let later = concat chunks in
      Delivered-turn nom s chunk later os (λ s'. run nom s' chunks)
        (on_data-Goes laws s chunk later os p' rest ready (rw append_assoc whole) final
          (rw append_assoc fits))
        λ s1 os1 ready1 whole1 same file.
          run-Delivered chunks s1 os1 ready1 whole1 (rw (same, file) fits)

  -- Let the whole of the chunks parse to the records `os`, up to a rest that only lacks further
  -- bytes, and let it fit in the file behind the `header_len` bytes that were read before. Then the
  -- stream parser, given the chunks one after another, never panics. It sends exactly `os`, keeps
  -- exactly the rest in its buffer, and counts all other bytes as processed.
  pub run_chunks :
      (debug_mode : Bool) (id_size file_len header_len : ℕ) (chunks : List Bytes) (os : List Record)
      → Reaches
          (parse_hprof_record nom)
          (Dispatch.new debug_mode id_size)
          (concat chunks)
          os
          p'
          rest
      → header_len + length (concat chunks) ≤ file_len
      → Delivered
          (run nom (new debug_mode id_size file_len header_len []) chunks)
          (header_len + length (concat chunks))
          os
          p'
          rest
  run_chunks debug_mode id_size file_len header_len chunks os whole fits =
      run-Delivered chunks (new debug_mode id_size file_len header_len []) os
        (record {
          no_records = refl;
          starving = start-Waits laws debug_mode id_size;
          hungry = λ t m. elim m [ ];
        })
        whole fits
