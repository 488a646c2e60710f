-- ===== src/Report/Finish.antt =====
-- `ResultRecorder::start` of src/result_recorder.rs: the result, once the channel is closed.
use hprof_slurp.Prelude.{ℕ, List, [], none, some, if◌then◌else◌}
use hprof_slurp.Recorder.State.{ResultRecorder}
use hprof_slurp.Rendered.Memory.{RenderedResult}
use hprof_slurp.Rendered.Stats.{ClassAllocationStats}
use hprof_slurp.Report.Usage.{Outcome, done, panicked, loops, aggregate_memory_usage}
use hprof_slurp.Report.Threads.{render_thread_info}
use hprof_slurp.Report.Texts.{
  render_summary, render_missing_class_warning, render_captured_strings, render_duplicated_strings,
}
use hprof_slurp.Nom

abbrev result_of : ResultRecorder → Nom.Bytes → List ClassAllocationStats → List ℕ → RenderedResult
result_of s thread_info memory_usage missing_class_ids = record {
  summary = render_summary s;
  thread_info = thread_info;
  memory_usage = memory_usage;
  duplicated_strings = render_duplicated_strings s;
  captured_strings = if s.list_strings then some (render_captured_strings s) else none;
  warnings = render_missing_class_warning missing_class_ids;
}

abbrev pub with_usage :
    ResultRecorder → Nom.Bytes → Outcome (List ClassAllocationStats) → Outcome RenderedResult
with_usage s thread_info (done memory_usage ids) =
    done (result_of s thread_info memory_usage ids) ids
with_usage s thread_info panicked = panicked
with_usage s thread_info loops = loops

unfoldable pub finish : ℕ → ResultRecorder → Outcome RenderedResult
finish fuel s =
    let (thread_info, ids) = render_thread_info s [] in
    with_usage s thread_info (aggregate_memory_usage fuel s ids)
