-- ===== src/Lib.antt =====
-- hprof-slurp: a parser and summarizer of JVM heap dumps (hprof files).
--
-- The program reads the file header, then runs three threads: a prefetch reader
-- (src/prefetch_reader.rs) sends the file in chunks, a stream parser
-- (src/parser/record_stream_parser.rs) turns the chunks into records, and a recorder
-- (src/result_recorder.rs) counts what the records hold. The result is rendered as text or JSON, and
-- the results of two dumps can be compared (src/diff.rs).
--
-- Prelude        numbers, lists, Boolean tests; the integers of two's complement.
-- Nom            the third-party library nom: its streaming parsers and combinators are the fields of
--                the record `Nom`, an argument of every parser. What their documentation says is the
--                record `NomLaws`. Nom/Reference gives a concrete instance of both.
--                Nom/Streams says how a streaming parser behaves when more bytes arrive; Nom/Reads
--                says that a parser reads a value off given bytes, whatever follows them.
-- Utf8           `String::from_utf8_lossy` of the standard library.
-- Parser         src/parser. Primitive is primitive_parsers.rs, FileHeader is file_header_parser.rs,
--                GcRecord is gc_record.rs, Record is record.rs. record_parser.rs is Field (ids and
--                field values), GcRoot and GcDump (sub-records of a heap dump), Body (top-level
--                records), Tags and Dispatch (the choice by the tag, and `HprofRecordParser`), and
--                LazyMany (`lazy_many1`). Stream is record_stream_parser.rs: `on_data` is one turn of
--                the thread's loop, `run` is the thread. Streaming is about each parser on input that
--                comes in parts.
-- Format         the byte layout of the hprof format, written down as functions from records to
--                bytes that do not use the parsers. `parse_cpu_samples` reads as many entries as
--                the total number of samples, where the format counts the traces: Top.TotalIsCount
--                is the condition that the two are the same, and CpuSamples is about it.
-- Recorder       src/result_recorder.rs: Sizes (field_size and the sizes of arrays), AHashMap
--                (the hash maps as association lists), State (`ResultRecorder`, its flat fields
--                in the groups that its comments name), Records (`record_records`, a function
--                that returns `none` where a size panics). Events describes what is captured
--                without the other contents of the records; InstanceSize is
--                `calculate_instance_size`; Captures, Measures, Lookups, Classes and Results are about what
--                the maps hold, Counts and SubCounts about the tag counters.
-- Slurp          src/slurp.rs and src/prefetch_reader.rs: Header (`slurp_header`), Prefetch (the
--                prefetch thread), Pipeline (`slurp_file`, the threads composed). Recordable is
--                about the records of a file of the format.
-- Text           text literals as UTF-8, numbers in decimal and hexadecimal, and padding, as the
--                standard library's formats write them.
-- Sort           the standard library's sorting and `dedup`, over total orders.
-- Utils          src/utils.rs: Civil (`civil_from_days`, with the calendar), Timestamp (`pretty_timestamp_utc`,
--                which Dates is about), and PrettySize, where `f64` is a parameter, the record `F64`.
-- Report         src/result_recorder.rs, what becomes of the state when the channel closes: Names
--                (`get_class_name_string`), Usage (`aggregate_memory_usage`), Threads
--                (`render_thread_info`), Texts (the summary, the strings, the warning), Finish (the
--                end of `start`). Labels, Descending, Collect, Unordered and Rows are about the
--                aggregation, Duplicates and Orderless about the texts.
-- Rendered       src/rendered_result.rs: Stats (`ClassAllocationStats`), Json (`JsonResult`, `DumpInfo`),
--                Table (`render_table`), Memory (`RenderedResult`, `serialize`). Widths and Tops are
--                about the tables and about what is shown.
-- Diff           src/diff.rs: Compute (`compute`), Render (`render`). Totals, Growth and Entries are
--                about the entries, Sums and Net about what they add up to.
-- CommandLine    src/args.rs and src/main.rs: Trim (the standard library's `trim`), Args (`get_args`, with
--                what the third-party library clap has matched as an argument), Main (`analyze_file`,
--                `diff_files`, `main`, with the files and the clock as the record `System`). Laws is
--                about both.
-- Tests          concrete inputs.
--
-- Text is the list of its UTF-8 bytes. A u8, u16, u32 or u64 is a natural number, an i8 to i64 is an
-- integer, and an f32 or f64 of a dump keeps its bit pattern. A panic is an outcome of its own
-- (`IResult.panicked`, `Thread.died`, `Result.panics`), or `none` where nothing else is.
--
-- `many_loop`, the loop of `lazy_many1`, runs on fuel: one more than the number of bytes left, which
-- is enough since each record takes a byte. Running out of it is an outcome of its own (`none`,
-- `stuck`).
--
-- `prefetch` runs on fuel too: one more than the number of bytes left, since each chunk has a byte.
-- `calculate_instance_size` runs on fuel that its caller gives, and so do all that call it, up to
-- `main`; more than the number of classes in a chain is enough. `strip`, the loop of `trim`, runs on
-- the number of bytes.
--
-- The threads share nothing but channels that do not lose or reorder messages, and each waits for
-- one channel at a time, so `slurp_file` runs them one after another.
--
-- A hash map is iterated in the order of its association list; Report.Unordered and Report.Orderless are
-- about other orders. A `mut` slice that a function sorts is returned sorted.
--
-- Not modelled: the declaration of the arguments (src/args.rs), which is clap's, the texts of errors,
-- the progress bar, the debug prints, the reuse of buffers, which changes no value, and the
-- serialization of the JSON result, which is the third-party library serde's.
pub mod Prelude
pub mod Nom
pub mod Utf8
pub mod Parser
pub mod Format
pub mod Recorder
pub mod Report
pub mod Slurp
pub mod Sort
pub mod Rendered
pub mod Diff
pub mod CommandLine
pub mod Utils
pub mod Text
pub mod Tests
