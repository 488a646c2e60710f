-- ===== src/Parser/Stream/Turns.antt =====
-- One turn of the stream parser, on a front of an input that parses without a panic.
use hprof_slurp.Prelude.{
  ℕ, ◌+◌, ◌-◌, ◌<◌, ◌≤◌, ◌≡◌, refl, sym, ap, ◌∙◌, true, Option, some, List, [], ◌++◌, append_assoc,
  length, length-append, drop, drop-length, if◌then◌else◌, ltb, ltb→lt, leb, le→leb, Bool-cases,
  inl, inr, arith,
}
use hprof_slurp.Nom.{Nom, NomLaws, Bytes, Parser, IResult, ok, incomplete, panicked, Needed}
use hprof_slurp.Nom.Streams.{Streams, Waits, wait}
use hprof_slurp.Parser.Record.{Record}
use hprof_slurp.Parser.Dispatch.{HprofRecordParser, parse_hprof_record}
use hprof_slurp.Parser.Streaming.Dispatch.{parse_hprof_record-Streams}
use hprof_slurp.Parser.Streaming.Takes.{parse_hprof_record-Takes}
use hprof_slurp.Parser.LazyMany.{Run}
use hprof_slurp.Parser.LazyMany.Reaches.{
  Reaches, stop, more, Reaches-append, Reaches-suffix, IsStuck, panicked-append, incomplete-append,
  Streams-front, Waits-ne-ok,
}
use hprof_slurp.Parser.LazyMany.Maximal.{
  finished, crashed, Outcome, starved, looped, lazy_many1-Outcome,
}
use hprof_slurp.Parser.Stream.{
  HprofRecordStreamParser, Turn, waits, sends, on_data, on_run, on_result,
}

-- The calls that succeed take a front of the input.
Reaches-front :
    {S O : Type 0} {f : S → Parser (O × S)} {s s' : S} {i rest : Bytes} {os : List O}
    → ((s : S) → Streams (f s))
    → Reaches f s i os s' rest
    → (c : Bytes) × (i ≡ c ++ rest)
Reaches-front sf stop = ([], refl)
Reaches-front sf (more {s} {i} e q) =
    let (c, p) = Streams-front (sf s) i e in
    let (c', p') = Reaches-front sf q in
    (c ++ c', p ∙ ap (λ x. c ++ x) p' ∙ sym (append_assoc c c' _))

Waits-IsStuck :
    {S O : Type 0} (f : S → Parser (O × S)) {s : S} {i : Bytes} → Waits (f s i) → IsStuck f s i
Waits-IsStuck f w r o s' e = Waits-ne-ok w e

Waits-ne-panicked : {A : Type 0} {x : IResult A} → Waits x → x ≡ panicked → ⊥
Waits-ne-panicked (wait n h) e = cc

-- A run that ends in a wait has not come to a panic.
panicked-Reaches :
    {S O : Type 0} {f : S → Parser (O × S)} {s s' : S} {i rest : Bytes} {os : List O}
    → f s i ≡ panicked
    → Reaches f s i os s' rest
    → Waits (f s' rest)
    → ⊥
panicked-Reaches e stop w = Waits-ne-panicked w e
panicked-Reaches e (more e' q) w = cc (e, e')

Waits-of_incomplete :
    {A : Type 0} {p : Parser A} {n : Needed}
    → Streams p
    → (i : Bytes) → p i ≡ incomplete n
    → Waits (p i)
Waits-of_incomplete sp i e =
    let (k, is_size, pos, grows) = incomplete-append sp i e in rw (e, is_size) (wait k pos)

abbrev finished_run : Bytes → HprofRecordParser → List Record → Run HprofRecordParser Record
finished_run rest p rs = record { result = ok rest tt; state = p; pooled_vec = rs }

cleared : (n : ℕ) → (if ltb 0 n then 0 else n) ≡ 0
cleared n = ground arith

-- The bytes from `loop_buffer` on that the parser has seen, and the promise behind `needed`.
module _ (nom : Nom) where
  pub record IsReady (s : HprofRecordStreamParser) : Type 0 where
    pub no_records : s.pooled_vec ≡ []
    pub starving : Waits (parse_hprof_record nom s.parser s.loop_buffer)
    pub hungry :
        (t : Bytes)
        → length (s.loop_buffer ++ t) < s.needed
        → Waits (parse_hprof_record nom s.parser (s.loop_buffer ++ t))

  -- The turn from `s` to `s'` has sent `rs`, of the records `os` of the whole input.
  pub record Turned (s s' : HprofRecordStreamParser) (chunk later : Bytes) (os rs : List Record)
      (p' : HprofRecordParser) (rest : Bytes) : Type 0 where
    pub ready : IsReady s'
    pub same_file : s'.file_len ≡ s.file_len
    pub accounted :
        s'.processed_len + length s'.loop_buffer ≡ s.processed_len + length (s.loop_buffer ++ chunk)
    pub others : List Record
    pub split : os ≡ rs ++ others
    pub goes_on :
        Reaches (parse_hprof_record nom) s'.parser (s'.loop_buffer ++ later) others p' rest

  pub data Goes (s : HprofRecordStreamParser) (chunk later : Bytes) (os : List Record)
      (p' : HprofRecordParser) (rest : Bytes) : Turn → Type 0 where
    silent :
        {s' : HprofRecordStreamParser}
        → Turned s s' chunk later os [] p' rest
        → Goes s chunk later os p' rest (waits s')
    sending :
        {s' : HprofRecordStreamParser} {n : ℕ} {rs : List Record}
        → Turned s s' chunk later os rs p' rest
        → Goes s chunk later os p' rest (sends s' n rs)

module _ {nom : Nom} (laws : NomLaws nom) where
  streams : (p : HprofRecordParser) → Streams (parse_hprof_record nom p)
  streams = parse_hprof_record-Streams laws

  module _ (s : HprofRecordStreamParser) (chunk later : Bytes) (os : List Record)
      (p' : HprofRecordParser) (rest : Bytes) (ready : IsReady nom s)
      (whole : Reaches
        (parse_hprof_record nom)
        s.parser
        ((s.loop_buffer ++ chunk) ++ later)
        os
        p'
        rest)
      (final : Waits (parse_hprof_record nom p' rest))
      (fits : s.processed_len + length ((s.loop_buffer ++ chunk) ++ later) ≤ s.file_len) where
    abbrev buffer : Bytes
    buffer = s.loop_buffer ++ chunk

    -- The buffer is still shorter than what the ongoing object needs.
    Goes-short :
        length buffer < s.needed
        → Goes nom s chunk later os p' rest (waits (record s { loop_buffer = buffer }))
    Goes-short h = silent {s' = record s { loop_buffer = buffer }} (record {
      ready = record {
        no_records = ready.no_records;
        starving = ready.hungry chunk h;
        hungry = λ t m. rw append_assoc (ready.hungry (chunk ++ t) (rw append_assoc at m));
      };
      same_file = refl;
      accounted = refl;
      others = os;
      split = refl;
      goes_on = whole;
    })

    -- Not one record is complete.
    Goes-starved :
        (n : ℕ)
        → ((t : Bytes) → length t < n → Waits (parse_hprof_record nom s.parser (buffer ++ t)))
        → Waits (parse_hprof_record nom s.parser buffer)
        → Goes nom s chunk later os p' rest
            (waits (record s { loop_buffer = buffer; needed = n + length buffer }))
    Goes-starved n k w =
        silent {s' = record s { loop_buffer = buffer; needed = n + length buffer }} (record {
          ready = record {
            no_records = ready.no_records;
            starving = w;
            hungry = λ t m. k t (omega (arith, length-append buffer t));
          };
          same_file = refl;
          accounted = refl;
          others = os;
          split = refl;
          goes_on = whole;
        })

    -- Some records are complete, and `rs` holds them all.
    Goes-finished :
        {rs : List Record} {p1 : HprofRecordParser} {r : Bytes}
        → Reaches (parse_hprof_record nom) s.parser buffer rs p1 r
        → Waits (parse_hprof_record nom p1 r)
        → Goes nom s chunk later os p' rest (
            on_result
              (record s { loop_buffer = buffer; parser = p1; pooled_vec = rs })
              []
              (ok r tt))
    unfolding on_result
    Goes-finished {rs} {p1} {r} q w =
        let (c, front) = Reaches-front streams q in
        let (others, split, goes_on) =
          Reaches-suffix (Reaches-append streams later q) whole
            (Waits-IsStuck (parse_hprof_record nom) final) in
        let taken : length buffer ≡ length c + length r =
          omega (arith, ap length front, length-append c r) in
        let within : leb (s.processed_len + (length buffer - length r)) s.file_len ≡ true =
          le→leb _ _ (omega (arith, length-append buffer later)) in
        let n : ℕ = length buffer - length r in
        let left : drop n buffer ≡ r =
          ap (λ k. drop k buffer) (omega (arith, taken))
          ∙ ap (drop (length c)) front
          ∙ drop-length c r in
        rw within (
          sending
            {s' = record s {
              parser = p1;
              processed_len = s.processed_len + n;
              loop_buffer = drop n buffer;
              pooled_vec = [];
              needed = if ltb 0 s.needed then 0 else s.needed;
            }}
            (record {
              ready = record {
                no_records = refl;
                starving = rw left w;
                hungry = λ t m. absurd (omega (arith, cleared s.needed));
              };
              same_file = refl;
              accounted = omega (arith, taken, ap length left);
              others = others;
              split = split;
              goes_on = rw left goes_on;
            }))

    pub on_data-Goes : Goes nom s chunk later os p' rest (on_data nom s chunk [])
    unfolding on_data
    on_data-Goes = elim (Bool-cases (ltb (length buffer) s.needed)) [
      | inl short ↦ rw short (Goes-short (ltb→lt _ _ short))
      | inr long ↦ rw long (
          go (
            lazy_many1-Outcome streams (parse_hprof_record-Takes laws) s.parser buffer
              s.pooled_vec))
    ]
      where
        go :
            {run : Option (Run HprofRecordParser Record)}
            → Outcome (parse_hprof_record nom) s.parser buffer s.pooled_vec run
            → Goes nom s chunk later os p' rest (on_run (record s { loop_buffer = buffer }) [] run)
        go (starved e q) =
            let (k, is_size, pos, grows) = incomplete-append (streams s.parser) buffer e in
            rw (q, is_size) (Goes-starved k grows (rw (e, is_size) (wait k pos)))
        go (looped (finished {os = rs} {s' = p1} {rest = r} q w e)) =
            rw (e ∙ ap (λ v. some (finished_run r p1 (v ++ rs))) ready.no_records)
              (Goes-finished q (Waits-of_incomplete (streams p1) r w))
        go (looped (crashed {s' = p1} {rest = r} q w e)) = absurd (
            panicked-Reaches (panicked-append (streams p1) r later w)
              (Reaches-suffix (Reaches-append streams later q) whole
                (Waits-IsStuck (parse_hprof_record nom) final)).2
              final)
