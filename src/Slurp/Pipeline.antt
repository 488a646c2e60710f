-- ===== src/Slurp/Pipeline.antt =====
-- `slurp_file` of src/slurp.rs: the header, and then the three threads. Each thread is a function of
-- what it receives, so the order in which they run does not matter: the model runs them one after
-- another.
use hprof_slurp.Prelude.{
  ℕ, suc, ◌*◌, ◌≡◌, refl, fun_ext, ◌||◌, sym, ap, ◌∙◌, inl, inr, Bool, true, false, Option, none,
  some, ◌>>=◌, List, [], ◌∷◌, ◌++◌, length, length-append, ◌==◌, All, arith,
}
use hprof_slurp.Nom.{Nom, NomLaws, Bytes}
use hprof_slurp.Nom.Reads.{Fits, write_all}
use hprof_slurp.Parser.FileHeader.{FileHeader, from_bytes}
use hprof_slurp.Parser.Record.{Record}
use hprof_slurp.Parser.Dispatch
use hprof_slurp.Parser.Dispatch.{parse_hprof_record}
use hprof_slurp.Parser.LazyMany.Reaches.{Reaches}
use hprof_slurp.Parser.Stream
use hprof_slurp.Parser.Stream.{Thread, Message, ended, died, run}
use hprof_slurp.Parser.Stream.Chunks.{concat, sent, start-Waits, run_chunks}
use hprof_slurp.Format.Fields.{IsIdSize}
use hprof_slurp.Format.Dump.{Item, ItemFits, write_item, records_of, Reaches-dump}
use hprof_slurp.Recorder.State
use hprof_slurp.Recorder.State.{ResultRecorder, nothing_captured}
use hprof_slurp.Recorder.Records.{record_records, record_one}
use hprof_slurp.Recorder.Events.{events, captures}
use hprof_slurp.Recorder.Captures.{record_records-captures}
use hprof_slurp.Slurp.Header.{
  Result, done, err, panics, std_thread_error, file_header_length, slurp_header, write_file_header,
  length-file_header, slurp_header_lem,
}
use hprof_slurp.Slurp.Prefetch.{End, finished, failed, prefetch, prefetch_lem}
use hprof_slurp.Rendered.Memory.{RenderedResult}
use hprof_slurp.Report.Usage
use hprof_slurp.Report.Usage.{Outcome, panicked, loops}
use hprof_slurp.Report.Finish.{finish}
use hprof_slurp.Slurp.Recordable.{records_of-Recordable}

-- `READ_BUFFER_SIZE`
abbrev pub read_buffer_size : ℕ
read_buffer_size = 64 * 1024 * 1024

-- The recorder's loop; `none` is a panic.
abbrev pub record_messages : ResultRecorder → List Message → Option ResultRecorder
record_messages s [] = some s
record_messages s (m ∷ messages) = do s1 ← record_records s m.records; record_messages s1 messages

-- What the recorder's thread sends at its end; a panic sends nothing.
abbrev pub finished_recorder : ℕ → Option ResultRecorder → Outcome RenderedResult
finished_recorder fuel none = panicked
finished_recorder fuel (some s) = finish fuel s

abbrev pub received : FileHeader → Outcome RenderedResult → Result (FileHeader × RenderedResult)
received header (Usage.done result ids) = done (header, result)
received header panicked = panics
received header loops = Result.stuck

abbrev pub after_failure : Outcome RenderedResult → Result (FileHeader × RenderedResult)
after_failure (Usage.done result ids) = err std_thread_error
after_failure panicked = panics
after_failure loops = Result.stuck

-- The threads are joined after the recorder's result has come: a thread that panicked is an error,
-- and a recorder that panicked leaves no result, which panics here.
abbrev pub joined :
    FileHeader → End → Thread → Outcome RenderedResult → Result (FileHeader × RenderedResult)
joined header End.stuck thread outcome = Result.stuck
joined header finished Thread.stuck outcome = Result.stuck
joined header failed Thread.stuck outcome = Result.stuck
joined header finished (ended _) outcome = received header outcome
joined header finished died outcome = after_failure outcome
joined header failed (ended _) outcome = after_failure outcome
joined header failed died outcome = after_failure outcome

-- The threads, on what the reader has left behind the header. Each chunk has a byte at least, so the
-- number of bytes that are left is fuel enough.
unfoldable pub slurp_records :
    Nom
    → (fuel : ℕ) (debug_mode list_strings : Bool) (file_len : ℕ) → FileHeader × Bytes
    → Result (FileHeader × RenderedResult)
slurp_records nom fuel debug_mode list_strings file_len (header, reader) =
    let id_size = header.size_pointers in
    let (chunks, end) = prefetch (suc (length reader)) (record {
      reader = reader;
      file_len = file_len;
      processed_len = file_header_length;
      read_size = read_buffer_size;
    }) in
    let (messages, thread) =
      run nom (Stream.new debug_mode id_size file_len file_header_length []) chunks in
    joined header end thread (
      finished_recorder fuel
        (record_messages (State.new id_size list_strings header.timestamp) messages))

abbrev pub and_slurp : {A B : Type 0} → Result A → (A → Result B) → Result B
and_slurp (done a) f = f a
and_slurp (err e) f = err e
and_slurp panics f = panics
and_slurp Result.stuck f = Result.stuck

unfoldable pub slurp_file :
    Nom → (fuel : ℕ) (debug_mode list_strings : Bool) → Bytes → Result (FileHeader × RenderedResult)
slurp_file nom fuel debug_mode list_strings file =
    and_slurp (slurp_header nom file) (slurp_records nom fuel debug_mode list_strings (length file))

bind_assoc :
    {A B C : Type 0} (o : Option A) (f : A → Option B) (g : B → Option C)
    → ((o >>= f) >>= g) ≡ (o >>= λ a. f a >>= g)
bind_assoc none f g = refl
bind_assoc (some a) f g = refl

record_records-append :
    (s : ResultRecorder) (xs ys : List Record)
    → record_records s (xs ++ ys) ≡ (record_records s xs >>= λ s1. record_records s1 ys)
unfolding record_records
record_records-append s [] ys = refl
record_records-append s (x ∷ xs) ys =
    ap (λ g. record_one s x >>= g) (fun_ext λ s1. record_records-append s1 xs ys)
    ∙ sym (bind_assoc (record_one s x) (λ s1. record_records s1 xs) (λ s1. record_records s1 ys))

record_messages_lem :
    (s : ResultRecorder) (ms : List Message) → record_messages s ms ≡ record_records s (sent ms)
unfolding record_records
record_messages_lem s [] = refl
record_messages_lem s (m ∷ ms) =
    ap (λ g. record_records s m.records >>= g) (fun_ext λ s1. record_messages_lem s1 ms)
    ∙ sym (record_records-append s m.records (sent ms))

IsIdSize-Fits : (n : ℕ) → IsIdSize n → Fits 4 n
IsIdSize-Fits n (inl e) = omega (arith, e)
IsIdSize-Fits n (inr e) = omega (arith, e)

IsIdSize-test : (n : ℕ) → IsIdSize n → ((n == 4) || (n == 8)) ≡ true
IsIdSize-test n (inl e) = rw e refl
IsIdSize-test n (inr e) = rw e refl

-- A text of 18 bytes without a zero byte, an id size of 4 or 8, a timestamp and items, which all
-- fit the format.
module _ {nom : Nom} (laws : NomLaws nom) (fuel : ℕ) (debug_mode list_strings : Bool) (text : Bytes)
    (id_size timestamp : ℕ) (items : List Item) (h18 : length text ≡ 18)
    (hz : All (λ b. (b == 0) ≡ false) text) (hn : IsIdSize id_size) (ht : Fits 8 timestamp)
    (hi : All (ItemFits id_size) items) where
  abbrev body : Bytes
  body = write_all (write_item id_size) items

  abbrev file : Bytes
  file = write_file_header text id_size timestamp ++ body

  abbrev header : FileHeader
  header = from_bytes text id_size timestamp

  slurp_header-file : slurp_header nom file ≡ done (header, body)
  slurp_header-file =
      slurp_header_lem laws text id_size timestamp body h18 hz (IsIdSize-Fits id_size hn) ht
      ∙ rw (IsIdSize-test id_size hn) refl

  slurp_records-file :
      (s' : ResultRecorder) × (slurp_records nom fuel debug_mode list_strings
          (length file)
          (header, body)
        ≡ received header (finish fuel s'))
      × (s'.id_size ≡ id_size)
      × (s'.captured ≡ captures nothing_captured (events id_size (records_of id_size items)))
  unfolding slurp_records
  slurp_records-file =
      let len = length-append (write_file_header text id_size timestamp) body in
      let len_header = length-file_header text id_size timestamp h18 in
      let (chunks, read, same, small) =
        prefetch_lem (suc (length body))
          (record {
            reader = body;
            file_len = length file;
            processed_len = file_header_length;
            read_size = read_buffer_size;
          })
          (omega arith) (omega (arith, len, len_header)) (omega arith) in
      let reached : Reaches (parse_hprof_record nom) (Dispatch.new debug_mode id_size)
          (concat chunks) (records_of id_size items) (Dispatch.new debug_mode id_size) [] =
        rw same (Reaches-dump laws debug_mode id_size hn items hi) in
      let (messages, s, ran, all, _, _, _) =
        run_chunks laws (start-Waits laws debug_mode id_size) debug_mode id_size (length file)
          file_header_length chunks (records_of id_size items) reached
          (omega (arith, len, len_header, ap length same)) in
      let (s', recorded, kept, holds) =
        record_records-captures (State.new id_size list_strings timestamp)
          (records_of id_size items) hn (records_of-Recordable id_size items hi) in
      (
        s',
        rw
            (
              read,
              ran,
              record_messages_lem (State.new id_size list_strings timestamp) messages,
              all,
              recorded,
            )
            refl,
        kept,
        holds,
      )

  -- Let a file hold a header, whose text has 18 bytes, none of them zero, with an id size of 4 or 8,
  -- and then items that all fit the format, CPU samples with a total that is the number of their
  -- traces. Then `slurp_file` ends without an error, as the rendering ends of a recorder with that id size that has captured what the events of the file's records
  -- leave: with that header and its result, or in its panic, or, if its fuel is not enough, in want
  -- of fuel.
  pub slurp_file_lem :
      (s' : ResultRecorder) × (slurp_file nom fuel debug_mode list_strings
          (write_file_header text id_size timestamp ++ write_all (write_item id_size) items)
        ≡ received (from_bytes text id_size timestamp) (finish fuel s'))
      × (s'.id_size ≡ id_size)
      × (s'.captured ≡ captures nothing_captured (events id_size (records_of id_size items)))
  unfolding slurp_file
  slurp_file_lem =
      let (s', slurped, kept, holds) = slurp_records-file in
      (s', rw (slurp_header-file, slurped) refl, kept, holds)
