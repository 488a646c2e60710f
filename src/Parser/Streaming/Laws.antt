-- ===== src/Parser/Streaming/Laws.antt =====
-- What the stream parser relies on, of one call of `parse_hprof_record`.
use hprof_slurp.Prelude.{ℕ, ◌<◌, ◌≡◌, ◌++◌, length, arith}
use hprof_slurp.Nom.{Nom, NomLaws, Bytes, ok, incomplete, size}
use hprof_slurp.Nom.Streams.{Waits}
use hprof_slurp.Parser.Record.{Record}
use hprof_slurp.Parser.Dispatch.{HprofRecordParser, parse_hprof_record}
use hprof_slurp.Parser.LazyMany.Reaches.{ok-append, incomplete-append}
use hprof_slurp.Parser.Streaming.Dispatch.{parse_hprof_record-Streams}
use hprof_slurp.Parser.Streaming.Takes.{parse_hprof_record-Takes}

module _ {nom : Nom} (laws : NomLaws nom) (p p' : HprofRecordParser) (i more : Bytes) where
  -- A record that was read takes a byte at least, and bytes that come later change neither it nor
  -- the parser's next state: they only join the rest.
  pub parse_hprof_record-append :
      (r : Bytes) (record' : Record)
      → parse_hprof_record nom p i ≡ ok r (record', p')
      → (parse_hprof_record nom p (i ++ more) ≡ ok (r ++ more) (record', p'))
        × (length r < length i)
  parse_hprof_record-append r record' e = (
    ok-append (parse_hprof_record-Streams laws p) i more e,
    (parse_hprof_record-Takes laws p).at i e,
  )

module _ {nom : Nom} (laws : NomLaws nom) (p : HprofRecordParser) (i more : Bytes) where
  -- Where a call asks for `n` more bytes, `n` is not 0, and the call asks again as long as fewer than
  -- `n` bytes have come.
  pub parse_hprof_record_needed :
      (n : ℕ)
      → parse_hprof_record nom p i ≡ incomplete (size n)
      → length more < n
      → (0 < n) × Waits (parse_hprof_record nom p (i ++ more))
  parse_hprof_record_needed n e h =
      let (k, same, pos, grows) = incomplete-append (parse_hprof_record-Streams laws p) i e in
      let eq : n ≡ k = cc same in (omega (arith, pos, eq), grows more (omega (arith, h, eq)))
