-- ===== src/Parser/Stream.antt =====
-- src/parser/record_stream_parser.rs: the thread that turns chunks of the file into records.
pub mod Turns
pub mod Chunks
use hprof_slurp.Prelude.{
  ℕ, ◌+◌, ◌-◌, Bool, Option, none, some, List, [], ◌∷◌, ◌++◌, length, drop, ltb, leb, if◌then◌else◌,
}
use hprof_slurp.Nom.{Nom, Bytes, IResult, ok, incomplete, error, failure, panicked, unknown, size}
use hprof_slurp.Parser.Record.{Record}
use hprof_slurp.Parser.Dispatch
use hprof_slurp.Parser.Dispatch.{HprofRecordParser, parse_hprof_record}
use hprof_slurp.Parser.LazyMany.{Run, lazy_many1}

pub record HprofRecordStreamParser : Type 0 where
  pub parser : HprofRecordParser
  pub debug_mode : Bool
  pub file_len : ℕ
  pub processed_len : ℕ
  pub loop_buffer : Bytes
  pub pooled_vec : List Record
  pub needed : ℕ

abbrev pub new : Bool → ℕ → ℕ → ℕ → Bytes → HprofRecordStreamParser
new debug_mode id_size file_len processed_len initial_loop_buffer = record {
  parser = Dispatch.new debug_mode id_size;
  debug_mode = debug_mode;
  file_len = file_len;
  processed_len = processed_len;
  loop_buffer = initial_loop_buffer;
  pooled_vec = [];
  needed = 0;
}

-- What one chunk leads to. `waits` sends nothing; `sends` reports how far the file is processed and
-- hands on a vector of records; `panics` ends the thread; `stuck` is no outcome of the program, it
-- says that the model's fuel ran out.
pub data Turn : Type 0 where
  waits : HprofRecordStreamParser → Turn
  sends : HprofRecordStreamParser → (progress : ℕ) → List Record → Turn
  panics stuck : Turn

unfoldable pub parse_streaming :
    Nom → HprofRecordParser → Bytes → List Record → Option (Run HprofRecordParser Record)
parse_streaming nom = lazy_many1 (parse_hprof_record nom)

-- The `match` on the result; `next_pooled_vec` is what the recorder sent back.
unfoldable pub on_result : HprofRecordStreamParser → List Record → IResult (Unit {0}) → Turn
on_result s next_pooled_vec (ok rest _) =
    let iteration_processed = length s.loop_buffer - length rest in
    let processed_len = s.processed_len + iteration_processed in
    if leb processed_len s.file_len
    then sends
        (record s {
          processed_len = processed_len;
          loop_buffer = drop iteration_processed s.loop_buffer;
          pooled_vec = next_pooled_vec;
          needed = if ltb 0 s.needed then 0 else s.needed;
        })
        processed_len s.pooled_vec
    else panics
on_result s next_pooled_vec (incomplete (size n)) =
    waits (record s { needed = n + length s.loop_buffer })
on_result s next_pooled_vec (incomplete unknown) = panics
on_result s next_pooled_vec error = panics
on_result s next_pooled_vec failure = panics
on_result s next_pooled_vec panicked = panics

unfoldable pub on_run :
    HprofRecordStreamParser → List Record → Option (Run HprofRecordParser Record) → Turn
unfolding on_result
on_run s next_pooled_vec none = stuck
on_run s next_pooled_vec (some run) =
    on_result (record s { parser = run.state; pooled_vec = run.pooled_vec }) next_pooled_vec
      run.result

-- One turn of the loop, on the chunk `pooled_buffer`.
unfoldable pub on_data : Nom → HprofRecordStreamParser → Bytes → List Record → Turn
unfolding on_run parse_streaming
on_data nom s pooled_buffer next_pooled_vec =
    let loop_buffer = s.loop_buffer ++ pooled_buffer in
    let s1 = record s { loop_buffer = loop_buffer } in
    if ltb (length loop_buffer) s.needed
    then waits s1
    else on_run s1 next_pooled_vec (parse_streaming nom s.parser loop_buffer s.pooled_vec)

-- How the thread ends: at the closed channel, or by a panic.
pub data Thread : Type 0 where
  ended : HprofRecordStreamParser → Thread
  died stuck : Thread

pub record Message : Type 0 where
  pub progress : ℕ
  pub records : List Record

abbrev pub after_turn :
    (HprofRecordStreamParser → List Message × Thread) → Turn → List Message × Thread
after_turn go_on (waits s) = go_on s
after_turn go_on (sends s progress records) =
    let (messages, thread) = go_on s in
    (record { progress = progress; records = records } ∷ messages, thread)
after_turn go_on panics = ([], died)
after_turn go_on stuck = ([], stuck)

-- The thread on the chunks that come before the channel closes, with the messages that it sends. The
-- recorder clears a vector before it sends it back, so each one that comes in is empty.
unfoldable pub run : Nom → HprofRecordStreamParser → List Bytes → List Message × Thread
run nom s [] = ([], ended s)
run nom s (chunk ∷ chunks) = after_turn (λ s'. run nom s' chunks) (on_data nom s chunk [])
