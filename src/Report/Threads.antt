-- ===== src/Report/Threads.antt =====
-- `render_thread_info` of src/result_recorder.rs.
use mathlib.Core.Bool.{Bool-discrete}
use mathlib.Core.List.{filter}
use hprof_slurp.Prelude.{
  ℕ, suc, ◌+◌, Bool, true, false, List, [], ◌∷◌, ◌++◌, Option, none, some, ◌==◌, if◌then◌else◌,
  length, ℤ, pos, negsuc,
}
use hprof_slurp.Nom
use hprof_slurp.Text.{text}
use hprof_slurp.Text.Digits.{decimal, hex}
use hprof_slurp.Parser.Record.{LoadClassData, StackFrameData, StackTraceData}
use hprof_slurp.Recorder.AHashMap.{AHashMap, get, number}
use hprof_slurp.Recorder.State.{ResultRecorder}
use hprof_slurp.Recorder.Results.{find_frame_class}
use hprof_slurp.Sort.{sort}
use hprof_slurp.Sort.Orders.{Order, ascending, by_key}
use hprof_slurp.Report.Names.{get_class_name_string}

abbrev pub map_or : Nom.Bytes → Option Nom.Bytes → Nom.Bytes
map_or other none = other
map_or other (some s) = s

-- -1: unknown, -2: compiled method, -3: native method
abbrev pub pretty_line_number : ℤ → Nom.Bytes
pretty_line_number (pos n) = decimal n
pretty_line_number (negsuc n) =
    if n == 0
    then text "unknown line number"
    else if n == 1
    then text "compiled method"
    else if n == 2
    then text "native method"
    else text "-" ++ decimal (suc n)

-- The class of a frame, and the missing class ids after it was looked up.
abbrev pub frame_class :
    ResultRecorder → StackFrameData → Option LoadClassData → List ℕ → Nom.Bytes × List ℕ
frame_class s stack_frame (some class_data) ids =
    get_class_name_string s class_data.class_object_id ids
frame_class s stack_frame none ids =
    (text "<unknown class (serial " ++ (decimal stack_frame.class_serial_number ++ text ")>"), ids)

abbrev pub frame_line : ResultRecorder → StackFrameData → Nom.Bytes → Nom.Bytes
frame_line s stack_frame class_name =
    text "  at "
    ++ (class_name
        ++ (text "."
            ++ (map_or (text "unknown method name")
                  (get number stack_frame.method_name_id s.captured.utf8_strings_by_id)
                ++ (text " ("
                    ++ (map_or (text "unknown source file")
                          (get number stack_frame.source_file_name_id s.captured.utf8_strings_by_id)
                        ++ (text ":"
                            ++ (pretty_line_number stack_frame.line_number ++ text ")\n")))))))

abbrev pub render_frame : ResultRecorder → ℕ → Option StackFrameData → List ℕ → Nom.Bytes × List ℕ
render_frame s stack_frame_id none ids =
    (text "  at <unknown stack frame 0x" ++ (hex stack_frame_id ++ text ">\n"), ids)
render_frame s stack_frame_id (some stack_frame) ids =
    let (class_name, ids') = frame_class s stack_frame (find_frame_class s stack_frame) ids in
    (frame_line s stack_frame class_name, ids')

abbrev pub render_frames : ResultRecorder → List ℕ → List ℕ → Nom.Bytes × List ℕ
render_frames s [] ids = ([], ids)
render_frames s (stack_frame_id ∷ more) ids =
    let (line, ids') =
      render_frame s stack_frame_id (get number stack_frame_id s.captured.stack_frame_by_id) ids in
    let (lines, ids'') = render_frames s more ids' in (line ++ lines, ids'')

-- The threads from an index on.
abbrev pub render_threads :
    ResultRecorder → ℕ → List (ℕ × StackTraceData) → List ℕ → Nom.Bytes × List ℕ
render_threads s index [] ids = ([], ids)
render_threads s index ((_, stack_data) ∷ more) ids =
    let (frames, ids') = render_frames s stack_data.stack_frame_ids ids in
    let (threads, ids'') = render_threads s (index + 1) more ids' in
    (text "\nThread " ++ (decimal (index + 1) ++ (text "\n" ++ (frames ++ threads))), ids'')

abbrev pub has_frames : List ℕ → Bool
has_frames [] = false
has_frames (_ ∷ _) = true

abbrev pub by_serial_number : Order (ℕ × StackTraceData)
by_serial_number = by_key (λ e. e.0) ascending

-- The stack traces that are not empty, by their serial numbers.
abbrev pub stack_traces : AHashMap ℕ StackTraceData → List (ℕ × StackTraceData)
stack_traces traces =
    sort by_serial_number (filter (λ e. Bool-discrete (has_frames e.1.stack_frame_ids) true) traces)

unfoldable pub render_thread_info : ResultRecorder → List ℕ → Nom.Bytes × List ℕ
render_thread_info s ids =
    let traces = stack_traces s.captured.stack_trace_by_serial_number in
    let (threads, ids') = render_threads s 0 traces ids in
    (
      text "\nFound "
          ++ (decimal (length traces) ++ (text " threads with stacktraces:\n" ++ threads)),
      ids',
    )
